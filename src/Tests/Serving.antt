-- ===== src/Tests/Serving.antt =====
-- The agent's listener with two connections, and the times of a probe.
use mathlib.Core.Path.{◌≡◌, refl}
use native.Mathlib.Omega.{arith}
use cs331_t011_kubernetes_se.Common.{ℕ, ◌+◌, ◌*◌, ◌≤◌, ◌⊎◌, true, false, List, [], ◌∷◌, ◌++◌, Memᴰ}
use cs331_t011_kubernetes_se.Common.Int.{pos}
use cs331_t011_kubernetes_se.Agent.Handshake.{Connection, opened, Move, write_ack, Moves}
use cs331_t011_kubernetes_se.Agent.Listener.{
  Serve, accept_fails, accepts, moves, closes, Serving, ready, and_then,
}
use cs331_t011_kubernetes_se.Agent.Listener.Apart.{Serving-apart}
use cs331_t011_kubernetes_se.Agent.Prober.{round_count, execute_probe}
use cs331_t011_kubernetes_se.Agent.Prober.Durations.{IsShort, execute_probe-ordered}
use cs331_t011_kubernetes_se.Tests.Fractions.{fractions, fraction_laws}
use cs331_t011_kubernetes_se.Tests.Probing.{five, line}

-- The listener's goroutine has written the ack of the first of two connections.
abbrev early : Connection
early = record { unwritten = 2; undrained = 0; unread_acks = 1; has_acked = true; has_read = false }

Serving-two : Serving 3 (opened 1 ∷ early ∷ [])
Serving-two =
    and_then
      (and_then (and_then (and_then ready accept_fails) (accepts 2))
        (moves [] [] refl refl (write_ack refl)))
      (accepts 1)

-- A third one comes and is closed at its deadline.
Serving-after_deadline : Serving 3 (opened 1 ∷ early ∷ [])
Serving-after_deadline =
    and_then (and_then Serving-two (accepts 9)) (closes [] (opened 9) _ refl refl)

Serving-apart_example :
    (payload_bytes : ℕ) × (n : ℕ) × Moves 3 payload_bytes n early
    × (n ≤ 2 * payload_bytes + 2)
    × ((early.has_read ≡ true)
        ⊎ ((d : Connection) × (before : List Connection) × (after : List Connection) × (opened 1
                ∷ early
                ∷ []
              ≡ before ++ early ∷ after)
            × Move 3 early d
            × Serve 3 (opened 1 ∷ early ∷ []) (before ++ d ∷ after)))
Serving-apart_example =
    Serving-apart 3 (omega arith) Serving-after_deadline (Memᴰ.tail (Memᴰ.head refl))

-- All rounds take four milliseconds.
line-IsShort : IsShort line
line-IsShort i = (4_000_000, ground arith, omega arith)

execute_probe-ordered_example :
    let r = execute_probe fractions five line (pos 20_000_000) in
    (fractions.fle r.rtt_min_millis r.rtt_millis ≡ true)
    × (fractions.fle r.rtt_millis r.rtt_max_millis ≡ true)
unfolding round_count
execute_probe-ordered_example =
    execute_probe-ordered fraction_laws five line (pos 20_000_000) (omega arith)
      (refl, (refl, (refl, (refl, (refl, tt))))) line-IsShort
