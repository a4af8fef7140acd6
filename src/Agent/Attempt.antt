-- ===== src/Agent/Attempt.antt =====
-- code/pkg/prober.go, `probeTCP`: one attempt of a probe.
use cs331_t011_kubernetes_se.Common.{Option, none, some, ◌++◌, if◌then◌else◌}
use cs331_t011_kubernetes_se.Common.Int.{ℤ, pos, is_nonpos}
use cs331_t011_kubernetes_se.Go.Text.{Str, str}

-- What the network does during one attempt: the error of each call, if any, the bytes that the
-- write accepted, and the time until the acknowledgement.
pub record Exchange : Type 0 where
  pub dial_error : Option Str
  pub written : ℤ
  pub write_error : Option Str
  pub ack_error : Option Str
  pub elapsed : ℤ

-- The three results of `probeTCP`.
pub record Attempt : Type 0 where
  pub rtt : ℤ
  pub bytes : ℤ
  pub failure : Option Str

unfoldable pub after_write : Exchange → ℤ → Option Str → Attempt
after_write e written (some err) = record { rtt = pos 0; bytes = written; failure = some err }
after_write e written none = elim e.ack_error [
  | some err ↦ record {
    rtt = pos 0;
    bytes = written;
    failure = some (str "ack read failed: " ++ err);
  }
  | none ↦ record { rtt = e.elapsed; bytes = written; failure = none }
]

-- No payload, no write.
unfoldable pub probe_tcp : Exchange → ℤ → Attempt
unfolding after_write
probe_tcp e payload_bytes = elim e.dial_error [
  | some err ↦ record { rtt = pos 0; bytes = pos 0; failure = some err }
  | none ↦
      if is_nonpos payload_bytes
      then after_write e (pos 0) none
      else after_write e e.written e.write_error
]
