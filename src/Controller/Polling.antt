-- ===== src/Controller/Polling.antt =====
-- code/internal/controller/networkhealthcheck_controller.go: the specification that a resource
-- carries, and whether a round is due.
pub mod Accepted
use cs331_t011_kubernetes_se.Common.{
  ◌≡◌, Bool, true, false, ◌||◌, Option, none, some, if◌then◌else◌, List, [], ◌∷◌,
}
use cs331_t011_kubernetes_se.Common.Int.{ℤ, pos, is_nonpos, geb}
use cs331_t011_kubernetes_se.Go.Text.{Str, is_empty}
use cs331_t011_kubernetes_se.Controller.Round.{NetworkHealthCheckSpec}

infixl 5 ◌>>=◌
-- An early return of an error.
abbrev pub ◌>>=◌ {ℓ κ} : {A : Type ℓ} {B : Type κ} → Option A → (A → Option B) → Option B
none >>= f = none
some a >>= f = f a

-- What `NestedString` and its like return: an error for a value of another type, nothing, or the
-- value.
pub data Field (A : Type 0) : Type 0 where
  mistyped : Field A
  missing : Field A
  present : A → Field A

-- The fields of the resource that the operator reads.
pub record Fields : Type 0 where
  pub interval : Field Str
  pub probe_timeout : Field Str
  pub probe_type : Field Str
  pub probe_count : Field ℤ
  pub probe_payload_bytes : Field ℤ
  pub max_concurrent_probes : Field ℤ
  pub remediation_enabled : Field Bool
  pub remediation_dry_run : Field Bool
  pub failure_threshold : Field ℤ
  pub success_threshold : Field ℤ

-- A value, or the default where there is none; `none` is the error.
unfoldable pub field_or : {A : Type 0} → A → Field A → Option A
field_or fallback mistyped = none
field_or fallback missing = some fallback
field_or fallback (present a) = some a

-- A number that is not positive counts as missing.
unfoldable pub positive_field : ℤ → Field ℤ → Option ℤ
positive_field fallback mistyped = none
positive_field fallback missing = some fallback
positive_field fallback (present n) = some (if is_nonpos n then fallback else n)

-- The empty text counts as missing; any other must parse.
unfoldable pub duration_field : (Str → Option ℤ) → ℤ → Field Str → Option ℤ
duration_field parse fallback mistyped = none
duration_field parse fallback missing = some fallback
duration_field parse fallback (present s) = if is_empty s then some fallback else parse s

module _ (parse_duration : Str → Option ℤ) where
  -- `networkHealthCheckSpecFromResource`, with durations in nanoseconds; `none` is its error, which
  -- the first field that cannot be read decides.
  unfoldable pub network_health_check_spec_from_resource : Fields → Option NetworkHealthCheckSpec
  network_health_check_spec_from_resource r = do
    interval ← duration_field parse_duration (pos 15_000_000_000) r.interval
    timeout ← duration_field parse_duration (pos 2_000_000_000) r.probe_timeout
    kind ← field_or [] r.probe_type
    count ← positive_field (pos 5) r.probe_count
    payload ← positive_field (pos 1024) r.probe_payload_bytes
    most ← field_or (pos 1) r.max_concurrent_probes
    enabled ← field_or false r.remediation_enabled
    dry ← field_or false r.remediation_dry_run
    failures ← field_or (pos 0) r.failure_threshold
    successes ← field_or (pos 0) r.success_threshold
    some (record {
      interval = interval;
      probe_timeout = timeout;
      probe_type = kind;
      probe_count = count;
      probe_payload_bytes = payload;
      max_concurrent_probes = most;
      remediation_enabled = enabled;
      remediation_dry_run = dry;
      failure_threshold = failures;
      success_threshold = successes;
    })

  -- `shouldRun`: `parse_time` reads a time, and `since` is how long ago one was.
  unfoldable pub should_run : {T : Type 0} → (Str → Option T) → (T → ℤ) → Str → ℤ → Bool
  should_run parse_time since last_probe_time interval =
      if is_nonpos interval || is_empty last_probe_time
      then true
      else elim (parse_time last_probe_time) [ none ↦ true | some last ↦ geb (since last) interval ]
