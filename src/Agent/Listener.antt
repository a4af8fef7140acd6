-- ===== src/Agent/Listener.antt =====
-- code/pkg/server.go, `startDataListener`: the loop that accepts connections, with a goroutine for
-- each of them; and the settings of `Start`.
pub mod Apart
use cs331_t011_kubernetes_se.Common.{ℕ, ◌≡◌, Option, none, some, List, [], ◌∷◌, ◌++◌, if◌then◌else◌}
use cs331_t011_kubernetes_se.Common.Int.{ℤ, pos}
use cs331_t011_kubernetes_se.Go.Text.{Str, str}
use cs331_t011_kubernetes_se.Agent.Handshake.{Connection, opened, Move}
use cs331_t011_kubernetes_se.Agent.Server.{Server}

-- The connections that the goroutines hold open. In a step the loop accepts one, whose prober has
-- some bytes to send, or `Accept` fails and the loop goes on; the two ends of one connection move;
-- or a goroutine ends, by the end of its connection, an error or its deadline, and closes it.
pub data Serve (buffer : ℕ) : List Connection → List Connection → Type 0 where
  accept_fails : {open_now : List Connection} → Serve buffer open_now open_now
  accepts :
      {open_now : List Connection} (payload_bytes : ℕ)
      → Serve buffer open_now (opened payload_bytes ∷ open_now)
  moves :
      {open_now open_next : List Connection} (before after : List Connection) {c d : Connection}
      → open_now ≡ before ++ c ∷ after
      → open_next ≡ before ++ d ∷ after
      → Move buffer c d
      → Serve buffer open_now open_next
  closes :
      {open_now open_next : List Connection} (before : List Connection) (c : Connection)
      (after : List Connection)
      → open_now ≡ before ++ c ∷ after
      → open_next ≡ before ++ after
      → Serve buffer open_now open_next

-- The listener after any steps.
pub data Serving (buffer : ℕ) : List Connection → Type 0 where
  ready : Serving buffer []
  and_then :
      {open_now open_next : List Connection}
      → Serving buffer open_now
      → Serve buffer open_now open_next
      → Serving buffer open_next

-- The settings of the control server, its times in nanoseconds.
pub record HttpServer : Type 0 where
  pub address : Str
  pub read_header_timeout : ℤ
  pub read_timeout : ℤ
  pub write_timeout : ℤ
  pub idle_timeout : ℤ

unfoldable pub http_server : Server → HttpServer
http_server s = record {
  address = s.control_port;
  read_header_timeout = pos 5_000_000_000;
  read_timeout = pos 10_000_000_000;
  write_timeout = pos 30_000_000_000;
  idle_timeout = pos 60_000_000_000;
}
