-- ===== src/Tests/Judging.antt =====
-- The small classifier, and the keys of a round.
use mathlib.Core.Path.{◌≡◌, refl}
use cs331_t011_kubernetes_se.Common.{some, [], ◌∷◌, Memᴰ}
use cs331_t011_kubernetes_se.Go.Text.{str, str_eq, str_lt, split_arrow, sort_strings}
use cs331_t011_kubernetes_se.Go.Maps.{add, get?}
use cs331_t011_kubernetes_se.Contract.{node_isolated, pair_local_failure}
use cs331_t011_kubernetes_se.Analysis.Scan.{add_ends, collect_nodes}
use cs331_t011_kubernetes_se.Controller.Stub.{
  pair_key, all_lost, probe_failed, matrix_nodes, observe, observe_node, lost_verdict, find_lost,
  pair_verdict, find_single, plain_verdict, ambiguous, judge_observed, stub_classifier,
}
use cs331_t011_kubernetes_se.Controller.Stub.Backed.{Backed, stub_classifier-Backed}
use cs331_t011_kubernetes_se.Controller.Round.{
  jobs_of, job_rows, jobs_from, job_result, run_probe_round,
}
use cs331_t011_kubernetes_se.Controller.Round.Keys.{
  NamesDiffer, NamesPlain, run_probe_round-results,
}
use cs331_t011_kubernetes_se.Tests.Fractions.{fractions}
use cs331_t011_kubernetes_se.Tests.Samples.{as_listed, backwards, egress_matrix, mesh, good, lost}
use cs331_t011_kubernetes_se.Tests.Reconciling.{formats, net, spec, agent_a, agent_b, job_ba}

stub : Unit {0}
unfolding str str_eq str_lt split_arrow sort_strings add get? add_ends collect_nodes pair_key
    all_lost probe_failed matrix_nodes observe observe_node lost_verdict find_lost pair_verdict
    find_single plain_verdict ambiguous judge_observed stub_classifier
stub = tt

egress_suspects :
    ((stub_classifier fractions as_listed egress_matrix).class ≡ node_isolated)
    × ((stub_classifier fractions as_listed egress_matrix).suspect_nodes ≡ str "b" ∷ [])
unfolding stub
egress_suspects = (refl, refl)

single_class :
    (stub_classifier fractions backwards (mesh good lost good good good good)).class
    ≡ pair_local_failure
unfolding stub
single_class = refl

stub_classifier-Backed_example :
    Backed fractions egress_matrix
      (matrix_nodes fractions backwards egress_matrix)
      (stub_classifier fractions backwards egress_matrix)
stub_classifier-Backed_example = stub_classifier-Backed fractions backwards egress_matrix

pub two_names : NamesDiffer (agent_a ∷ agent_b ∷ []) × NamesPlain (agent_a ∷ agent_b ∷ [])
unfolding str str_eq split_arrow
two_names = ((refl, (refl, tt)), (refl, (refl, tt)))

pub job_ba-mem : Memᴰ job_ba (jobs_of (agent_a ∷ agent_b ∷ []))
unfolding jobs_of job_rows jobs_from
job_ba-mem = Memᴰ.tail (Memᴰ.head refl)

run_probe_round-results_example :
    get?
      (cs331_t011_kubernetes_se.Controller.Round.pair_key job_ba)
      (run_probe_round fractions formats net spec (backwards.visit _ 0) (agent_a ∷ agent_b ∷ []))
    ≡ some (job_result fractions formats net spec job_ba)
run_probe_round-results_example =
    run_probe_round-results fractions formats net spec (backwards.visit _ 0)
      (backwards.visit_perm _ 0) (agent_a ∷ agent_b ∷ []) two_names.0 two_names.1 job_ba job_ba-mem
