-- ===== src/Tests/Starting.antt =====
-- The manager's settings from sample environments.
use mathlib.Core.Path.{◌≡◌, refl}
use native.Mathlib.Omega.{arith}
use cs331_t011_kubernetes_se.Common.{[], ◌∷◌, ◌++◌, ◌*◌, true, false, some, none, if◌then◌else◌}
use cs331_t011_kubernetes_se.Common.Int.{pos, int_limit, to_word, of_word, mul_int}
use cs331_t011_kubernetes_se.Go.Text.{str, str_eq, decimal, atoi}
use cs331_t011_kubernetes_se.Controller.Sweep.{poll_interval}
use cs331_t011_kubernetes_se.Manager.{
  Environment, seconds_duration, settings, positive_some, invalid_line, duration_log,
}
use cs331_t011_kubernetes_se.Manager.Process.{
  Startup, kubernetes_config, first_fatal, start_error, returned, Process, boot_with, boot,
  serve_returns, signalled, shuts_down, closes, Runs, booted, and_then,
}
use cs331_t011_kubernetes_se.Tests.Fractions.{fractions}
use cs331_t011_kubernetes_se.Tests.Reconciling.{formats}
use cs331_t011_kubernetes_se.Tests.Sweeping.{api, clocks, context_canceled}
use cs331_t011_kubernetes_se.Manager.Interval.{poll_interval-seconds}

-- `POLL_INTERVAL` is 60, and no other variable is set.
abbrev one_minute : Environment
one_minute = record {
  getenv = λ name. if str_eq name (str "POLL_INTERVAL") then decimal 60 else str "";
  parse_duration = λ s. none;
  quote = λ s. str "\"" ++ s ++ str "\"";
  duration_text = λ d. str "15s";
}

variable_set : one_minute.getenv (str "POLL_INTERVAL") ≡ decimal 60
unfolding str_eq str
variable_set = refl

poll_interval-seconds_example :
    poll_interval (settings one_minute).poll_interval ≡ pos (60 * 1_000_000_000)
unfolding int_limit
poll_interval-seconds_example = poll_interval-seconds one_minute 59 variable_set refl (omega arith)

-- A number of seconds whose nanoseconds wrap around to less than one second.
seconds_wrap : seconds_duration (pos 18_446_744_074) ≡ pos 290_448_384
unfolding seconds_duration mul_int to_word of_word int_limit
seconds_wrap = refl

-- A process in no cluster that reads its files.
abbrev from_files : Startup
from_files = record {
  in_cluster = some (str "not in a cluster");
  from_files = none;
  core_client = none;
  dynamic_client = none;
}

-- The log has the one line of the start.
abbrev leaving : Process
leaving = record (boot one_minute from_files) {
  is_done = true;
  has_stopped = true;
  is_closing = true;
  exit = some returned;
}

-- `main` can return although the controller has not.
abbrev early : Process
early = record (boot one_minute from_files) {
  is_done = true;
  is_closing = true;
  exit = some returned;
}

Runs-early : Runs fractions formats api clocks context_canceled one_minute from_files early
unfolding boot boot_with start_error first_fatal kubernetes_config serve_returns
Runs-early =
    and_then (and_then (and_then booted (signalled refl)) (shuts_down refl refl)) (closes refl refl)

returns_early : (early.exit ≡ some returned) × (early.has_stopped ≡ false)
unfolding boot boot_with start_error first_fatal kubernetes_config
returns_early = (refl, refl)

-- An interval that cannot be read is logged.
abbrev misspelt : Environment
misspelt = record one_minute {
  getenv = λ name. if str_eq name (str "POLL_INTERVAL") then str "soon" else str "";
}

misspelt_logged :
    duration_log misspelt (str "POLL_INTERVAL") (pos 15_000_000_000)
    ≡ str "invalid POLL_INTERVAL=\"soon\"; using 15s" ∷ []
unfolding duration_log invalid_line positive_some atoi str str_eq mathlib.Core.Option.bind
misspelt_logged = refl
