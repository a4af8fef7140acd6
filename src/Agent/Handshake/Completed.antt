-- ===== src/Agent/Handshake/Completed.antt =====
-- The two ends of a connection never wait for one another without end.
use cs331_t011_kubernetes_se.Common.{
  ℕ, zero, suc, ◌+◌, ◌*◌, ◌<◌, ◌≤◌, ◌≡◌, refl, ◌⊎◌, inl, inr, Bool, true, false, arith,
  if◌then◌else◌,
}
use cs331_t011_kubernetes_se.Agent.Handshake.{
  Connection, Move, write_byte, write_ack, drain_byte, read_ack, Moves, none_yet, and_then,
}

-- How many moves are left.
abbrev pub moves_left : Connection → ℕ
moves_left c =
    2 * c.unwritten + c.undrained + (if c.has_acked then 0 else 1) + (if c.has_read then 0 else 1)

Move-moves_left :
    {buffer : ℕ} {c d : Connection} → Move buffer c d → suc (moves_left d) ≡ moves_left c
Move-moves_left (write_byte e free) = omega arith
Move-moves_left (write_ack e) = ground arith
Move-moves_left (drain_byte a e) = omega arith
Move-moves_left (read_ack e r u) = ground arith

-- Of the one ack that is written none is lost.
abbrev AcksBalance : Connection → Type 0
AcksBalance c = c.unread_acks + (if c.has_read then 1 else 0) ≡ (if c.has_acked then 1 else 0)

Move-AcksBalance : {buffer : ℕ} {c d : Connection} → Move buffer c d → AcksBalance c → AcksBalance d
Move-AcksBalance (write_byte e free) h = h
Move-AcksBalance (write_ack e) h = ground arith
Move-AcksBalance (drain_byte a e) h = h
Move-AcksBalance (read_ack e r u) h = ground arith

Moves-AcksBalance :
    {buffer payload_bytes n : ℕ} {c : Connection} → Moves buffer payload_bytes n c → AcksBalance c
Moves-AcksBalance none_yet = refl
Moves-AcksBalance (and_then ms m) = Move-AcksBalance m (Moves-AcksBalance ms)

Moves-moves_left :
    {buffer payload_bytes n : ℕ} {c : Connection}
    → Moves buffer payload_bytes n c
    → n + moves_left c ≡ 2 * payload_bytes + 2
Moves-moves_left none_yet = omega arith
Moves-moves_left (and_then ms m) =
    let rest = Moves-moves_left ms in let step = Move-moves_left m in omega arith

-- If the buffer has a place, the handshake never gets stuck and ends: after any moves the prober has
-- read its ack or one of the two can move, and no run is longer than two moves for each byte of the
-- payload and two more.
pub Moves-completed :
    {buffer payload_bytes n : ℕ} {c : Connection}
    → 0 < buffer
    → Moves buffer payload_bytes n c
    → ((c.has_read ≡ true) ⊎ ((d : Connection) × Move buffer c d)) × (n ≤ 2 * payload_bytes + 2)
Moves-completed {buffer} {c = c} some_place ms =
    let total = Moves-moves_left ms in
    (
      can_go c.unwritten c.undrained c.unread_acks c.has_acked c.has_read (Moves-AcksBalance ms),
      omega arith,
    )
  where
    can_go :
        (unwritten undrained acks : ℕ) (acked read : Bool)
        → let now : Connection = record {
          unwritten = unwritten;
          undrained = undrained;
          unread_acks = acks;
          has_acked = acked;
          has_read = read;
        } in
          AcksBalance now → (read ≡ true) ⊎ ((d : Connection) × Move buffer now d)
    can_go u v a k true h = inl refl
    can_go u v a false false h = inr (_, write_ack refl)
    can_go u (suc v) a true false h = inr (_, drain_byte refl refl)
    can_go (suc u) zero a true false h = inr (_, write_byte refl some_place)
    can_go zero zero zero true false h = absurd (omega arith)
    can_go zero zero (suc a) true false h = inr (_, read_ack refl refl refl)
