-- ===== src/Tests/Reporting.antt =====
-- The status on a sample matrix, discovery on sample pods, a specification from sample fields.
use mathlib.Core.Path.{◌≡◌, refl}
use Prim.Native.Nat.{min}
use cs331_t011_kubernetes_se.Common.{
  ◌+◌, ◌≤◌, not, false, Option, none, some, List, [], ◌∷◌, ltb, length, count_if,
}
use cs331_t011_kubernetes_se.Common.Int.{ℤ, pos, negsuc}
use cs331_t011_kubernetes_se.Go.Text.{Str, str, str_eq}
use cs331_t011_kubernetes_se.Go.Maps.{IsMap}
use cs331_t011_kubernetes_se.Controller.Discovery.{Pod}
use cs331_t011_kubernetes_se.Contract.{Endpoint, Matrix, Verdict, degraded, class_string}
use cs331_t011_kubernetes_se.Controller.Status.{
  Resource, Status, pair_state, max_status_entries, max_degraded_pairs, names,
  previous_condition_transition_time, is_healthy_class, build_condition,
  build_network_health_check_status,
}
use cs331_t011_kubernetes_se.Controller.Status.Totals.{
  is_healthy_level, is_degraded_level, status_totals, status_bounds,
}
use cs331_t011_kubernetes_se.Controller.Round.{NetworkHealthCheckSpec}
use cs331_t011_kubernetes_se.Controller.Polling.{
  present, missing, Fields, field_or, positive_field, duration_field,
  network_health_check_spec_from_resource,
}
use cs331_t011_kubernetes_se.Tests.Fractions.{Fraction, fractions}
use cs331_t011_kubernetes_se.Tests.Samples.{backwards, good, lost, lossy, mesh}

-- A failed, a lossy and four good pairs.
abbrev pub mixed : Matrix Fraction
mixed = mesh lost good lossy good good good

pub mixed-IsMap : IsMap mixed
unfolding str str_eq
mixed-IsMap = (refl, (refl, (refl, (refl, (refl, (refl, tt))))))

-- The resource was degraded before.
abbrev pub resource : Resource
resource = record {
  generation = pos 4;
  conditions =
      none
      ∷ some (record {
        old_type = some (str "Healthy");
        old_status = some (str "False");
        old_reason = some (str "Degraded");
        old_transition_time = some (str "2026-01-01T00:00:00Z");
      })
      ∷ [];
}

abbrev degraded_verdict : Verdict Fraction
degraded_verdict = record {
  class = degraded;
  confidence = (1, 0);
  suspect_nodes = [];
  summary = [];
}

-- The time of the transition stays while the condition does.
transition_kept :
    (build_condition fractions resource degraded_verdict
      (str "2026-02-02T00:00:00Z")).last_transition_time
    ≡ str "2026-01-01T00:00:00Z"
unfolding build_condition previous_condition_transition_time names is_healthy_class class_string str
    str_eq
transition_kept = refl

abbrev status : Status Fraction
status =
    build_network_health_check_status fractions backwards resource (str "2026-02-02T00:00:00Z")
      (str "2026-02-02T00:00:01Z") degraded_verdict mixed

status_totals_example :
    let s = status.reachability_summary in
    (status.reachability_total ≡ length mixed)
    × (s.healthy_pairs ≡ count_if (λ e. is_healthy_level (pair_state fractions e.1)) mixed)
    × (s.degraded_count ≡ count_if (λ e. is_degraded_level (pair_state fractions e.1)) mixed)
    × (s.failed_pairs ≡ count_if (λ e. not e.1.success) mixed)
    × (s.healthy_pairs + s.degraded_count + s.failed_pairs ≡ status.reachability_total)
status_totals_example =
    status_totals fractions mixed backwards resource (str "2026-02-02T00:00:00Z")
      (str "2026-02-02T00:00:01Z") degraded_verdict mixed-IsMap

status_bounds_example :
    (length status.reachability ≡ min max_status_entries (length mixed))
    × (status.reachability_truncated ≡ ltb (length status.reachability) (length mixed))
    × (length status.reachability_summary.degraded_pairs_named ≤ max_degraded_pairs)
status_bounds_example =
    status_bounds fractions mixed backwards resource (str "2026-02-02T00:00:00Z")
      (str "2026-02-02T00:00:01Z") degraded_verdict

-- An agent, a pod of another program and an agent that still starts.
abbrev agent_pod : Str → Str → Pod
agent_pod label phase = record {
  labels = (str "app", label) ∷ [];
  phase = phase;
  pod_ip = str "10.0.0.1";
  node_name = str "a";
}

abbrev pods : List Pod
pods =
    agent_pod (str "web") (str "Running")
    ∷ agent_pod (str "netprobe-agent") (str "Running")
    ∷ agent_pod (str "netprobe-agent") (str "Pending")
    ∷ []

abbrev found_agent : Endpoint
found_agent = record {
  node_name = str "a";
  pod_ip = str "10.0.0.1";
  control_url = str "http://10.0.0.1:8080";
}

-- A resource with an interval, a negative count and nothing else.
abbrev pub fields : Fields
fields = record {
  interval = present (str "30s");
  probe_timeout = missing;
  probe_type = missing;
  probe_count = present (negsuc 2);
  probe_payload_bytes = missing;
  max_concurrent_probes = missing;
  remediation_enabled = missing;
  remediation_dry_run = missing;
  failure_threshold = present (pos 4);
  success_threshold = missing;
}

abbrev read_spec : NetworkHealthCheckSpec
read_spec = record {
  interval = pos 30_000_000_000;
  probe_timeout = pos 2_000_000_000;
  probe_type = [];
  probe_count = pos 5;
  probe_payload_bytes = pos 1024;
  max_concurrent_probes = pos 1;
  remediation_enabled = false;
  remediation_dry_run = false;
  failure_threshold = pos 4;
  success_threshold = pos 0;
}

-- Every duration is thirty seconds.
abbrev pub thirty_seconds : Str → Option ℤ
thirty_seconds s = some (pos 30_000_000_000)

fields_read : network_health_check_spec_from_resource thirty_seconds fields ≡ some read_spec
unfolding network_health_check_spec_from_resource duration_field field_or positive_field str
fields_read = refl
