-- ===== src/Tests/Classifying.antt =====
-- The classifier on the sample matrices.
use mathlib.Core.Path.{◌≡◌, refl}
use cs331_t011_kubernetes_se.Common.{[], ◌∷◌, not, all_at, arith}
use cs331_t011_kubernetes_se.Go.Text.{
  str, str_eq, split_arrow, contains, has_prefix, sort_strings, str_lt,
}
use cs331_t011_kubernetes_se.Go.Maps.{add, incr, get?, put}
use cs331_t011_kubernetes_se.Contract.{node_egress_failure, degraded}
use cs331_t011_kubernetes_se.Analysis.Scan.{
  add_ends, collect_nodes, has_agent_error, loss_threshold, is_degraded, bucket_pair, fill_buckets,
}
use cs331_t011_kubernetes_se.Analysis.Tallies.{count_ends, count_pairs, count_failed}
use cs331_t011_kubernetes_se.Analysis.Hypotheses.{
  isolated_node, egress_node, ingress_node, confidence_floor_of, best_node, above_floor,
  isolated_conf, isolated_verdict, egress_conf, egress_verdict, ingress_conf, ingress_verdict,
  find_isolated, find_egress, find_ingress, find_pair_local, find_policy_scoped, find_partition,
  no_hypothesis,
}
use cs331_t011_kubernetes_se.Analysis.Justified.{Justified, Every, NoAgentError}
use cs331_t011_kubernetes_se.Analysis.Evidence.{is_pair}
use cs331_t011_kubernetes_se.Analysis.Classifier.{
  empty_verdict, agent_error_verdict, loss_verdict, tally, hypotheses, diagnose, judge, buckets,
  nodes_of, classify,
}
use cs331_t011_kubernetes_se.Analysis.Classifier.Soundness.{classify-Justified}
use cs331_t011_kubernetes_se.Analysis.Classifier.Completeness.{
  classify_all_succeed, OnLosses, classify-IsSure, IsSure,
}
use cs331_t011_kubernetes_se.Analysis.Hypotheses.Alike.{Alike}
use cs331_t011_kubernetes_se.Analysis.Classifier.Orders.{classify-Alike}
use cs331_t011_kubernetes_se.Tests.Fractions.{fractions, fraction_laws}
use cs331_t011_kubernetes_se.Tests.Samples.{
  as_listed, backwards, cfg, egress_matrix, isolated_matrix, lossy_matrix, split_matrix, late_turn,
}

classifier : Unit {0}
unfolding str str_eq split_arrow contains has_prefix sort_strings str_lt add incr get? put add_ends
    collect_nodes has_agent_error loss_threshold is_degraded bucket_pair fill_buckets count_ends
    count_pairs count_failed isolated_node egress_node ingress_node confidence_floor_of best_node
    above_floor isolated_conf isolated_verdict egress_conf egress_verdict ingress_conf
    ingress_verdict find_isolated find_egress find_ingress find_pair_local find_policy_scoped
    find_partition no_hypothesis empty_verdict agent_error_verdict loss_verdict tally hypotheses
    diagnose judge buckets nodes_of classify
classifier = tt

egress_class : (classify as_listed fractions egress_matrix cfg).class ≡ node_egress_failure
unfolding classifier
egress_class = refl

isolated_suspects : (classify as_listed fractions isolated_matrix cfg).suspect_nodes ≡ str "b" ∷ []
unfolding classifier
isolated_suspects = refl

-- With two nodes each explains every failure, so the suspect is the one visited first.
split_suspects :
    ((classify as_listed fractions split_matrix cfg).suspect_nodes ≡ str "a" ∷ [])
    × ((classify late_turn fractions split_matrix cfg).suspect_nodes ≡ str "b" ∷ [])
unfolding classifier late_turn
split_suspects = (refl, refl)

classify-Justified_example :
    Justified fractions isolated_matrix cfg (classify backwards fractions isolated_matrix cfg)
classify-Justified_example = classify-Justified backwards fraction_laws cfg isolated_matrix

lossy_pairs_succeed : Every fractions lossy_matrix (λ e. is_pair e.0) (λ e. e.1.success)
lossy_pairs_succeed e i _ = all_at (λ x. x.1.success) lossy_matrix refl e i

lossy_agents : NoAgentError fractions lossy_matrix
lossy_agents e i _ = all_at (λ x. not x.1.agent_error) lossy_matrix refl e i

classify_all_succeed_example :
    OnLosses as_listed fractions cfg lossy_matrix (classify as_listed fractions lossy_matrix cfg)
classify_all_succeed_example =
    classify_all_succeed as_listed fractions cfg lossy_matrix (λ e. cc) lossy_agents
      lossy_pairs_succeed

lossy_class : (classify as_listed fractions lossy_matrix cfg).class ≡ degraded
unfolding classifier
lossy_class = refl

classify-IsSure_example :
    IsSure as_listed fraction_laws cfg (classify as_listed fractions egress_matrix cfg)
unfolding confidence_floor_of
classify-IsSure_example = classify-IsSure as_listed fraction_laws cfg egress_matrix refl

-- The two orders whose suspects differ.
classify-Alike_example :
    Alike fractions
      (classify as_listed fractions split_matrix cfg)
      (classify late_turn fractions split_matrix cfg)
classify-Alike_example =
    classify-Alike as_listed late_turn fraction_laws cfg split_matrix (omega arith)
