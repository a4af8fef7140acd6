-- ===== src/Tests/Meshing.antt =====
-- Whole rounds of the operator over two agents.
use mathlib.Core.Path.{refl}
use native.Mathlib.Omega.{arith}
use cs331_t011_kubernetes_se.Common.{inl, inr, [], ◌∷◌, Memᴰ, All_at}
use cs331_t011_kubernetes_se.Go.Text.{str}
use cs331_t011_kubernetes_se.Controller.Round.{Job, jobs_of, job_rows, jobs_from}
use cs331_t011_kubernetes_se.Controller.Reconcile.{with_defaults, reconcile}
use cs331_t011_kubernetes_se.Controller.Reconcile.Answered.{FoundHealthy}
use cs331_t011_kubernetes_se.Controller.Reconcile.Silent.{Inconclusive}
use cs331_t011_kubernetes_se.System.Conversation.{SharesToken}
use cs331_t011_kubernetes_se.System.Mesh.{
  IsSent, LetsThrough, GoesWell, fleet_net, reconcile-fleet_healthy, reconcile-fleet_refused,
}
use cs331_t011_kubernetes_se.Tests.Fractions.{fractions, fraction_laws}
use cs331_t011_kubernetes_se.Tests.Samples.{backwards}
use cs331_t011_kubernetes_se.Tests.Reconciling.{
  formats, spec, agent_a, agent_b, job_ab, job_ba, surroundings, fresh,
}
use cs331_t011_kubernetes_se.Tests.Judging.{two_names, job_ba-mem}
use cs331_t011_kubernetes_se.Tests.Answering.{tcp_asked, agents_found, new_HoldsNone}
use cs331_t011_kubernetes_se.Tests.Wiring.{reader, reader-Delivers}
use cs331_t011_kubernetes_se.Tests.Linking.{
  friends, strangers, guarding, job_ba-IsCall, job_ab-IsCall, timeout_default,
}

-- What the agent of a job does with it.
GoesWell-at :
    (x : Job)
    → LetsThrough fractions reader friends formats (with_defaults spec) x
    → GoesWell fractions reader friends formats (with_defaults spec) x
unfolding guarding reader
GoesWell-at x through = (inr refl, through, (λ i. (refl, refl, refl, refl)), omega arith, refl)

both_go :
    (y : Job)
    → Memᴰ y (jobs_of (agent_a ∷ agent_b ∷ []))
    → IsSent fractions reader friends formats (with_defaults spec) y
      × GoesWell fractions reader friends formats (with_defaults spec) y
unfolding jobs_of job_rows jobs_from
both_go y i =
    All_at
      (λ (x : Job).
        IsSent fractions reader friends formats (with_defaults spec) x
        × GoesWell fractions reader friends formats (with_defaults spec) x)
      (job_ab ∷ job_ba ∷ [])
      (
        (
          (str "10.0.0.1", job_ab-IsCall, timeout_default),
          GoesWell-at job_ab (unfold guarding in refl),
        ),
        (
          (
            (str "10.0.0.2", job_ba-IsCall, timeout_default),
            GoesWell-at job_ba (unfold guarding in refl),
          ),
          tt,
        ),
      )
      i

reconcile-fleet_healthy_example :
    let cluster = record surroundings { net = fleet_net fractions reader friends } in
    FoundHealthy fractions formats cluster (reconcile fractions formats cluster spec fresh).1
reconcile-fleet_healthy_example =
    reconcile-fleet_healthy fractions reader friends formats surroundings spec fresh
      (agent_a ∷ agent_b ∷ []) reader-Delivers tcp_asked agents_found (backwards.visit_perm _ 0)
      two_names.0 two_names.1 job_ba job_ba-mem fraction_laws new_HoldsNone both_go

strangers_differ : ¬ SharesToken formats (strangers.server 1)
unfolding str
strangers_differ shared = ground arith

reconcile-fleet_refused_example :
    let cluster = record surroundings { net = fleet_net fractions reader strangers } in
    Inconclusive fractions formats cluster spec (reconcile fractions formats cluster spec fresh).1
reconcile-fleet_refused_example =
    reconcile-fleet_refused fractions reader strangers formats surroundings spec fresh
      (agent_a ∷ agent_b ∷ []) reader-Delivers tcp_asked agents_found (backwards.visit_perm _ 0)
      two_names.0 two_names.1 job_ba job_ba-mem (str "10.0.0.2", job_ba-IsCall, timeout_default)
      (inl strangers_differ)
