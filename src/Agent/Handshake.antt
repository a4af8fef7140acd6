-- ===== src/Agent/Handshake.antt =====
-- code/pkg/prober.go, `probeTCP`, against code/pkg/server.go, `startDataListener`: the two ends of
-- one connection that neither fails nor meets its deadline, byte by byte.
pub mod Completed
use cs331_t011_kubernetes_se.Common.{ℕ, zero, suc, ◌<◌, ◌≡◌, Bool, true, false}

-- The payload that the prober has yet to write, the bytes on the way to the listener and those of
-- the listener's ack on the way back, whether the listener has written its ack, and whether the
-- prober has read it.
pub record Connection : Type 0 where
  pub unwritten : ℕ
  pub undrained : ℕ
  pub unread_acks : ℕ
  pub has_acked : Bool
  pub has_read : Bool

-- The connection as both find it.
abbrev pub opened : ℕ → Connection
opened payload_bytes = record {
  unwritten = payload_bytes;
  undrained = 0;
  unread_acks = 0;
  has_acked = false;
  has_read = false;
}

-- What one of the two can do next. A write waits for a place in the buffer of the connection; the
-- listener writes its ack and then drains; the prober reads the ack once it has written all.
pub data Move (buffer : ℕ) : Connection → Connection → Type 0 where
  write_byte :
      {c : Connection} {n : ℕ}
      → c.unwritten ≡ suc n
      → c.undrained < buffer
      → Move buffer c (record c { unwritten = n; undrained = suc c.undrained })
  write_ack :
      {c : Connection}
      → c.has_acked ≡ false
      → Move buffer c (record c { has_acked = true; unread_acks = suc c.unread_acks })
  drain_byte :
      {c : Connection} {n : ℕ}
      → c.has_acked ≡ true
      → c.undrained ≡ suc n
      → Move buffer c (record c { undrained = n })
  read_ack :
      {c : Connection} {n : ℕ}
      → c.unwritten ≡ 0
      → c.has_read ≡ false
      → c.unread_acks ≡ suc n
      → Move buffer c (record c { has_read = true; unread_acks = n })

-- The connection after a number of moves.
pub data Moves (buffer payload_bytes : ℕ) : ℕ → Connection → Type 0 where
  none_yet : Moves buffer payload_bytes 0 (opened payload_bytes)
  and_then :
      {n : ℕ} {c d : Connection}
      → Moves buffer payload_bytes n c
      → Move buffer c d
      → Moves buffer payload_bytes (suc n) d
