-- ===== src/Agent/Options.antt =====
-- code/pkg/prober.go, `ProbeOptions` and `ParseProbeOptions`.
use cs331_t011_kubernetes_se.Common.{not, Option, none, some, if◌then◌else◌}
use cs331_t011_kubernetes_se.Common.Int.{ℤ, pos, is_nonpos}
use cs331_t011_kubernetes_se.Go.Text.{Str, str, is_empty, contains, to_lower, atoi}
use cs331_t011_kubernetes_se.Agent.Net.{join_host_port}

pub record ProbeOptions : Type 0 where
  pub target : Str
  pub timeout : ℤ
  pub count : ℤ
  pub payload_bytes : ℤ
  pub probetype : Str

-- A parameter that parses to a positive number replaces the default; any other is ignored.
unfoldable pub positive_or : ℤ → Option ℤ → ℤ
positive_or fallback none = fallback
positive_or fallback (some n) = if is_nonpos n then fallback else n

-- Two seconds, in nanoseconds.
abbrev pub two_seconds : ℤ
two_seconds = pos 2_000_000_000

unfoldable pub with_port : Str → Str
with_port target =
    if not (contains target (str ":")) then join_host_port target (str "9376") else target

unfoldable pub or_tcp : Str → Str
or_tcp probetype = if is_empty probetype then str "tcp" else probetype

-- `query` is `Get` of the URL's values, the empty text where the name is missing, and
-- `parse_duration` is `time.ParseDuration`. `none` is the error of a missing target.
module _ (parse_duration : Str → Option ℤ) (query : Str → Str) where
  unfoldable pub number_param : Str → (Str → Option ℤ) → ℤ → ℤ
  number_param name parse fallback =
      if is_empty (query name) then fallback else positive_or fallback (parse (query name))

  unfoldable pub parse_probe_options : Option ProbeOptions
  parse_probe_options =
      if is_empty (query (str "target"))
      then none
      else some (record {
        target = with_port (query (str "target"));
        timeout = number_param (str "timeout") parse_duration two_seconds;
        count = number_param (str "count") atoi (pos 1);
        payload_bytes = number_param (str "payloadBytes") atoi (pos 1024);
        probetype = or_tcp (to_lower (query (str "type")));
      })
