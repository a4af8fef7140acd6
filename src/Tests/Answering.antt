-- ===== src/Tests/Answering.antt =====
-- A whole call of the operator with an agent that is down.
use mathlib.Core.Path.{◌≡◌, refl}
use cs331_t011_kubernetes_se.Common.{true, arith, [], ◌∷◌}
use cs331_t011_kubernetes_se.Go.Text.{str, str_eq, to_lower}
use cs331_t011_kubernetes_se.Go.Maps.{get?}
use cs331_t011_kubernetes_se.Analysis.Config.{default_config}
use cs331_t011_kubernetes_se.Analysis.Tracker.{new_tracker}
use cs331_t011_kubernetes_se.Controller.Stabilize.Unchanged.{HoldsNone}
use cs331_t011_kubernetes_se.Controller.Discovery.{discovered, discover_agents}
use cs331_t011_kubernetes_se.Controller.Reconcile.{
  with_defaults, is_tcp, config_for, tracker_for, reconcile,
}
use cs331_t011_kubernetes_se.Controller.Reconcile.Silent.{
  Silent, Inconclusive, reconcile-Inconclusive,
}
use cs331_t011_kubernetes_se.Tests.Judging.{two_names, job_ba-mem}
use cs331_t011_kubernetes_se.Tests.Fractions.{fractions}
use cs331_t011_kubernetes_se.Tests.Samples.{backwards}
use cs331_t011_kubernetes_se.Tests.Reconciling.{
  formats, net, spec, agent_a, agent_b, job_ba, surroundings, fresh,
}

pub tcp_asked : is_tcp (with_defaults spec).probe_type ≡ true
unfolding is_tcp with_defaults str str_eq to_lower
tcp_asked = refl

pub agents_found :
    discover_agents surroundings.client fresh.namespace fresh.agents
    ≡ discovered (agent_a ∷ agent_b ∷ [])
unfolding discover_agents
agents_found = refl

job_ba-Silent : Silent fractions formats net (with_defaults spec) job_ba
job_ba-Silent url authorization = (str "connection refused", refl)

reconcile-Inconclusive_example :
    Inconclusive fractions formats surroundings spec
      (reconcile fractions formats surroundings spec fresh).1
reconcile-Inconclusive_example =
    reconcile-Inconclusive fractions formats surroundings spec fresh (agent_a ∷ agent_b ∷ [])
      tcp_asked agents_found (backwards.visit_perm _ 0) two_names.0 two_names.1 job_ba job_ba-mem
      job_ba-Silent

pub new_HoldsNone : HoldsNone (
    tracker_for fractions
      (config_for fractions (with_defaults spec))
      fresh.tracker
      fresh.tracker_config)
unfolding tracker_for new_tracker config_for default_config get? with_defaults
new_HoldsNone = (refl, λ k s h. absurd (ground arith))
