-- ===== src/Manager.antt =====
-- code/cmd/manager/main.go: the manager's settings and its HTTP handlers.
pub mod Interval
pub mod Process
use cs331_t011_kubernetes_se.Common.{
  ℕ, ◌*◌, ◌%◌, ◌^◌, Bool, Option, none, some, List, [], ◌∷◌, ◌++◌, if◌then◌else◌,
}
use cs331_t011_kubernetes_se.Common.Int.{ℤ, pos, is_nonpos, mul_int}
use cs331_t011_kubernetes_se.Go.Text.{Str, str, str_eq, is_empty, atoi}
use cs331_t011_kubernetes_se.Go.Maps.{MapOrder}
use cs331_t011_kubernetes_se.Go.Floats.{Floats}
use cs331_t011_kubernetes_se.Controller.Reconcile.{Reconciler}
use cs331_t011_kubernetes_se.Controller.Metrics.{write_metrics}

-- What the process starts with: the variables of the environment, empty where they are not set,
-- `time.ParseDuration`, whose durations are in nanoseconds, and what fmt makes of a text for `%q`
-- and of a duration for `%s`.
pub record Environment : Type 0 where
  pub getenv : Str → Str
  pub parse_duration : Str → Option ℤ
  pub quote : Str → Str
  pub duration_text : ℤ → Str

-- `time.Duration(n) * time.Second`, which wraps.
unfoldable pub seconds_duration : ℤ → ℤ
seconds_duration n = mul_int n (pos 1_000_000_000)

unfoldable pub positive_some : Option ℤ → Option ℤ
positive_some none = none
positive_some (some n) = if is_nonpos n then none else some n

module _ (env : Environment) where
  unfoldable pub env_or_default : Str → Str → Str
  env_or_default name fallback = if is_empty (env.getenv name) then fallback else env.getenv name

  -- The second `if`: a whole number of seconds.
  unfoldable pub duration_or_seconds : Option ℤ → Option ℤ → ℤ → ℤ
  duration_or_seconds (some duration) seconds fallback = duration
  duration_or_seconds none (some seconds) fallback = seconds_duration seconds
  duration_or_seconds none none fallback = fallback

  unfoldable pub duration_from_env : Str → ℤ → ℤ
  duration_from_env name fallback =
      let value = env.getenv name in
      if is_empty value
      then fallback
      else duration_or_seconds (positive_some (env.parse_duration value))
          (positive_some (atoi value)) fallback

  -- The line that `durationFromEnv` logs, if it does.
  unfoldable pub invalid_line : Option ℤ → Option ℤ → Str → ℤ → List Str
  invalid_line (some duration) seconds name fallback = []
  invalid_line none (some seconds) name fallback = []
  invalid_line none none name fallback =
      (str "invalid "
        ++ (name
            ++ (str "="
                ++ (env.quote (env.getenv name)
                    ++ (str "; using " ++ env.duration_text fallback)))))
      ∷ []

  unfoldable pub duration_log : Str → ℤ → List Str
  duration_log name fallback =
      let value = env.getenv name in
      if is_empty value
      then []
      else invalid_line (positive_some (env.parse_duration value)) (positive_some (atoi value)) name
          fallback

-- The fields that `main` sets.
pub record Settings : Type 0 where
  pub agent_namespace : Str
  pub poll_interval : ℤ
  pub address : Str

unfoldable pub settings : Environment → Settings
settings env = record {
  agent_namespace = env_or_default env (str "AGENT_NAMESPACE") (str "netprobe-system");
  poll_interval = duration_from_env env (str "POLL_INTERVAL") (pos 15_000_000_000);
  address = str ":" ++ env_or_default env (str "PORT") (str "8080");
}

-- A response of the manager: its status and the lines of its body.
pub record Reply : Type 0 where
  pub status : ℕ
  pub body : List Str

-- Whether `ServerVersion` succeeds.
unfoldable pub handle_healthz : Bool → Reply
handle_healthz reachable =
    if reachable
    then record { status = 200; body = str "ok" ∷ [] }
    else record { status = 503; body = str "Kubernetes API unavailable" ∷ [] }

-- The routes of the mux, which match their path as a whole.
unfoldable pub route : (fl : Floats) → MapOrder → Bool → Reconciler fl.F → Str → Reply
route fl rt reachable r path =
    if str_eq path (str "/healthz")
    then handle_healthz reachable
    else if str_eq path (str "/metrics")
    then record { status = 200; body = write_metrics fl rt r }
    else record { status = 404; body = str "404 page not found" ∷ [] }
