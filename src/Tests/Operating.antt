-- ===== src/Tests/Operating.antt =====
-- The operator's stabiliser and its remediation on samples.
use mathlib.Core.Path.{◌≡◌, refl}
use native.Mathlib.Omega.{arith}
use cs331_t011_kubernetes_se.Common.{
  true, false, not, ◌&&◌, ◌⊎◌, some, [], ◌∷◌, if◌then◌else◌, all_at,
}
use cs331_t011_kubernetes_se.Common.Int.{pos}
use cs331_t011_kubernetes_se.Go.Text.{Str, str, str_eq}
use cs331_t011_kubernetes_se.Go.Maps.{IsMap, get?, mem_of_get?}
use cs331_t011_kubernetes_se.Contract.{ProbeResult, Verdict, node_isolated}
use cs331_t011_kubernetes_se.Analysis.Tracker.{pair_degraded, PairState, Tracker, stabilize}
use cs331_t011_kubernetes_se.Controller.Stabilize.{held_result, stabilize_matrix}
use cs331_t011_kubernetes_se.Controller.Stabilize.Agreement.{
  stabilize_matrix-stabilize, held_result_lem,
}
use cs331_t011_kubernetes_se.Controller.Remediation.{
  no_action, alert_only, restart_suspect_node, minimum_confidence, plan_remediation, Log,
}
use cs331_t011_kubernetes_se.Controller.Remediation.Safety.{is_fault, plan_remediation_lem}
use cs331_t011_kubernetes_se.Tests.Fractions.{Fraction, fractions}
use cs331_t011_kubernetes_se.Tests.Samples.{as_listed, backwards, good, egress_matrix}

abbrev suspect_verdict : Verdict Fraction
suspect_verdict = record {
  class = node_isolated;
  confidence = (1, 0);
  suspect_nodes = str "b" ∷ [];
  summary = [];
}

plan_remediation_lem_example :
    let plan = plan_remediation fractions suspect_verdict true false in
    (plan.action ≡ (
      if is_fault node_isolated && not (fractions.flt (1, 0) (minimum_confidence fractions))
      then alert_only
      else no_action))
    × (plan.execute ≡ false)
    × (plan.targets ≡ str "b" ∷ [])
    × (plan.dry_run ≡ false)
plan_remediation_lem_example = plan_remediation_lem fractions suspect_verdict true false

abbrev old_log : Log
old_log = (restart_suspect_node, []) ∷ []

abbrev degraded_state : PairState
degraded_state = record {
  consecutive_failures = pos 0;
  consecutive_successes = pos 1;
  status = pair_degraded;
}

abbrev tracked : Tracker
tracked = record {
  pairs = (str "a->b", degraded_state) ∷ [];
  failure_threshold = pos 3;
  success_threshold = pos 2;
}

held_result_lem_example :
    ((held_result fractions (some degraded_state) good).success ≡ false)
    × ((held_result fractions (some degraded_state) good).agent_error ≡ false)
    × ((held_result fractions (some degraded_state) good).rtt_millis ≡ (0, 0))
    × ((held_result fractions (some degraded_state) good ≡ good) ⊎ (true ≡ true))
held_result_lem_example = held_result_lem fractions degraded_state good

egress_matrix-IsMap : IsMap egress_matrix
unfolding str str_eq
egress_matrix-IsMap = (refl, (refl, (refl, (refl, (refl, (refl, tt))))))

egress_agents :
    (k : Str) (r : ProbeResult Fraction) → get? k egress_matrix ≡ some r → r.agent_error ≡ false
egress_agents k r e =
    let ok =
      all_at (λ x. not x.1.agent_error) egress_matrix refl (k, r)
        (mem_of_get? k r egress_matrix e) in
    ground arith

stabilize_matrix-stabilize_example :
    get? (str "a->b") (stabilize_matrix fractions as_listed tracked egress_matrix)
    ≡ get? (str "a->b") (stabilize fractions backwards tracked egress_matrix)
stabilize_matrix-stabilize_example =
    stabilize_matrix-stabilize fractions tracked as_listed backwards egress_matrix
      egress_matrix-IsMap egress_agents (str "a->b")
