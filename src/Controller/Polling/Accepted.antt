-- ===== src/Controller/Polling/Accepted.antt =====
-- Which specification is read from a resource, and when there is an error.
use cs331_t011_kubernetes_se.Common.{ℕ, suc, ◌≡◌, false, Option, some, [], ◌∷◌}
use cs331_t011_kubernetes_se.Common.Int.{ℤ, pos, negsuc}
use cs331_t011_kubernetes_se.Go.Text.{Str}
use cs331_t011_kubernetes_se.Controller.Round.{NetworkHealthCheckSpec}
use cs331_t011_kubernetes_se.Controller.Polling.{Field, missing, present, Fields}

-- A field that may be absent, and has this value.
pub data IsRead {A : Type 0} (fallback : A) : Field A → A → Type 0 where
  left_out : IsRead fallback missing fallback
  given : {a : A} → IsRead fallback (present a) a

-- A number that counts only if it is positive.
pub data IsPositiveRead (fallback : ℤ) : Field ℤ → ℤ → Type 0 where
  no_number : IsPositiveRead fallback missing fallback
  zero_given : IsPositiveRead fallback (present (pos 0)) fallback
  negative_given : {n : ℕ} → IsPositiveRead fallback (present (negsuc n)) fallback
  positive_given : {n : ℕ} → IsPositiveRead fallback (present (pos (suc n))) (pos (suc n))

-- The text of a duration, which is empty or can be parsed.
pub data IsDurationRead (parse : Str → Option ℤ) (fallback : ℤ) : Field Str → ℤ → Type 0 where
  no_text : IsDurationRead parse fallback missing fallback
  empty_given : IsDurationRead parse fallback (present []) fallback
  text_given :
      {c : ℕ} {s : Str} {d : ℤ}
      → parse (c ∷ s) ≡ some d
      → IsDurationRead parse fallback (present (c ∷ s)) d

-- Each field of the specification is read from its own field of the resource.
pub record IsSpecOf (parse : Str → Option ℤ) (r : Fields) (spec : NetworkHealthCheckSpec)
    : Type 0 where
  pub interval_read : IsDurationRead parse (pos 15_000_000_000) r.interval spec.interval
  pub timeout_read : IsDurationRead parse (pos 2_000_000_000) r.probe_timeout spec.probe_timeout
  pub kind_read : IsRead [] r.probe_type spec.probe_type
  pub count_read : IsPositiveRead (pos 5) r.probe_count spec.probe_count
  pub payload_read : IsPositiveRead (pos 1024) r.probe_payload_bytes spec.probe_payload_bytes
  pub most_read : IsRead (pos 1) r.max_concurrent_probes spec.max_concurrent_probes
  pub enabled_read : IsRead false r.remediation_enabled spec.remediation_enabled
  pub dry_read : IsRead false r.remediation_dry_run spec.remediation_dry_run
  pub failures_read : IsRead (pos 0) r.failure_threshold spec.failure_threshold
  pub successes_read : IsRead (pos 0) r.success_threshold spec.success_threshold
