-- ===== src/Controller/Reconcile/Silent.antt =====
-- A round in which an agent does not answer, from the request to the plan.
use cs331_t011_kubernetes_se.Common.{
  ◌≡◌, refl, ap, ◌∙◌, Bool, true, false, not, Option, none, some, List, [], ◌∷◌, Memᴰ, Permᴰ,
  if◌then◌else◌,
}
use mathlib.Core.Option
use cs331_t011_kubernetes_se.Go.Text.{Str, str, str_eq}
use cs331_t011_kubernetes_se.Go.Maps.{MapOrder, IsMap, get?, put-IsMap, mem_of_get?}
use cs331_t011_kubernetes_se.Go.Floats.{Floats}
use cs331_t011_kubernetes_se.Contract.{ProbeResult, Endpoint, Matrix, Verdict, unknown}
use cs331_t011_kubernetes_se.Analysis.Config.{Config}
use cs331_t011_kubernetes_se.Analysis.Classifier.{classify}
use cs331_t011_kubernetes_se.Analysis.Classifier.Completeness.{classify_agent_error}
use cs331_t011_kubernetes_se.Analysis.Tracker.{PairState, Tracker, get_state}
use cs331_t011_kubernetes_se.Controller.Stabilize.{held_result, stabilize_matrix}
use cs331_t011_kubernetes_se.Controller.Stabilize.Agreement.{get?-stabilize_matrix, held_result_lem}
use cs331_t011_kubernetes_se.Controller.Probe.{
  Answer, unanswered, fails, Formats, ProbeCall, probe_kind, authorization_of, probe_url,
  read_answer, probe_endpoint,
}
use cs331_t011_kubernetes_se.Controller.Round.{
  NetworkHealthCheckSpec, Job, Network, jobs_of, pair_key, result_of, job_result, store_all,
  run_probe_round,
}
use cs331_t011_kubernetes_se.Controller.Round.Keys.{
  NamesDiffer, NamesPlain, run_probe_round-results,
}
use cs331_t011_kubernetes_se.Controller.Discovery.{discovered, discover_agents}
use cs331_t011_kubernetes_se.Controller.Remediation.{no_action, plan_remediation}
use cs331_t011_kubernetes_se.Controller.Remediation.Safety.{plan_remediation_lem}
use cs331_t011_kubernetes_se.Controller.Reconcile.{
  Reconciler, Surroundings, with_defaults, is_tcp, Reconciled, classified, config_for, judge_round,
  probe_agents, reconcile,
}

module _ (fl : Floats) (formats : Formats) where
  probe_endpoint-unanswered :
      (ask : Str → Str → Answer fl.F) (c : ProbeCall)
      → ((url authorization : Str) → (err : Str) × (ask url authorization ≡ unanswered err))
      → (result_of fl (probe_endpoint formats ask c)).agent_error ≡ true
  unfolding probe_endpoint read_answer result_of
  probe_endpoint-unanswered ask c silent =
      let (err, same) = silent (probe_url formats c) (authorization_of formats) in
      by_test (not (str_eq (probe_kind c) (str "tcp"))) _ (ask _ _) err same
    where
      by_test :
          (b : Bool) (refusal : Str) (answer : Answer fl.F) (err : Str)
          → answer ≡ unanswered err
          → (result_of fl (if b then fails refusal else read_answer answer)).agent_error ≡ true
      by_test true refusal answer err same = refl
      by_test false refusal answer err same = rw same refl

  module _ (net : Network fl.F) (spec : NetworkHealthCheckSpec) where
    -- The agent at the first place of the job answers no request of it.
    abbrev pub Silent : Job → Type 0
    Silent x =
        (url authorization : Str)
        → (err : Str) × (net x.src_at x.dst_at url authorization ≡ unanswered err)

    store_all-IsMap : (jobs : List Job) → IsMap (store_all fl formats net spec jobs)
    unfolding store_all
    store_all-IsMap [] = tt
    store_all-IsMap (j ∷ jobs) =
        put-IsMap (pair_key j) (job_result fl formats net spec j) _ (store_all-IsMap jobs)

    -- The matrix of a round has no key twice.
    pub run_probe_round-IsMap :
        (latest_first : List Job → List Job) (agents : List Endpoint)
        → IsMap (run_probe_round fl formats net spec latest_first agents)
    unfolding run_probe_round
    run_probe_round-IsMap latest_first [] = tt
    run_probe_round-IsMap latest_first (e ∷ agents) =
        store_all-IsMap (latest_first (jobs_of (e ∷ agents)))

  held_result-agent_error :
      (o : Option PairState) (r : ProbeResult fl.F)
      → (held_result fl o r).agent_error ≡ r.agent_error
  held_result-agent_error none r = unfold held_result in refl
  held_result-agent_error (some s) r = (held_result_lem fl s r).1

  -- An agent error in a round refuses the verdict on the stabilised round.
  stabilized-unknown :
      (rt : MapOrder) (t : Tracker) (cfg : Config fl.F) (m : Matrix fl.F) (k : Str)
      (r : ProbeResult fl.F)
      → IsMap m
      → get? k m ≡ some r
      → r.agent_error ≡ true
      → let v = classify rt fl (stabilize_matrix fl rt t m) cfg in
        (v.class ≡ unknown) × (v.confidence ≡ fl.lit 0 0) × (v.suspect_nodes ≡ [])
  stabilized-unknown rt t cfg m k r unique hit bad =
      let held = held_result fl (get_state t k) r in
      let found : get? k (stabilize_matrix fl rt t m) ≡ some held =
        get?-stabilize_matrix fl t rt m k unique
        ∙ ap (Option.map (held_result fl (get_state t k))) hit in
      classify_agent_error rt fl cfg (stabilize_matrix fl rt t m)
        ((k, held), mem_of_get? k held _ found, held_result-agent_error (get_state t k) r ∙ bad)

module _ (fl : Floats) (formats : Formats) (w : Surroundings fl.F)
    (asked : NetworkHealthCheckSpec) where
  -- The call concludes nothing: it returns a verdict that names nobody, and its plan does nothing.
  abbrev pub Inconclusive : Reconciled fl → Type 0
  Inconclusive out =
      (v : Verdict fl.F) × (m : Matrix fl.F) × (out ≡ classified v m)
      × (v.class ≡ unknown)
      × (v.confidence ≡ fl.lit 0 0)
      × (v.suspect_nodes ≡ [])
      × ((plan_remediation fl v asked.remediation_enabled asked.remediation_dry_run).action
          ≡ no_action)

  unknown-no_action :
      (v : Verdict fl.F) (enabled dry_run : Bool)
      → v.class ≡ unknown
      → (plan_remediation fl v enabled dry_run).action ≡ no_action
  unknown-no_action v enabled dry_run e = (plan_remediation_lem fl v enabled dry_run).0 ∙ rw e refl

  judge_round-Inconclusive :
      (spec : NetworkHealthCheckSpec) (matrix : Matrix fl.F) (r : Reconciler fl.F) (k : Str)
      (res : ProbeResult fl.F)
      → IsMap matrix
      → get? k matrix ≡ some res
      → res.agent_error ≡ true
      → Inconclusive (judge_round fl formats w spec matrix r).1
  unfolding judge_round
  judge_round-Inconclusive spec matrix r k res unique hit bad =
      let (class, confidence, suspects) =
        stabilized-unknown fl formats w.orders _ (config_for fl spec) matrix k res unique hit bad in
      (_, _, refl, class, confidence, suspects, unknown-no_action _ _ _ class)

  -- An agent error of one job makes the whole call inconclusive.
  pub reconcile-agent_error :
      (r : Reconciler fl.F) (agents : List Endpoint)
      → is_tcp (with_defaults asked).probe_type ≡ true
      → discover_agents w.client r.namespace r.agents ≡ discovered agents
      → ((jobs : List Job) → Permᴰ (w.latest_first jobs) jobs)
      → NamesDiffer agents
      → NamesPlain agents
      → (x : Job) → Memᴰ x (jobs_of agents)
      → (job_result fl formats w.net (with_defaults asked) x).agent_error ≡ true
      → Inconclusive (reconcile fl formats w asked r).1
  unfolding reconcile probe_agents
  reconcile-agent_error r agents tcp found perm differ plain x member bad =
      let spec = with_defaults asked in
      rw (tcp, found, probe_agents)
        (judge_round-Inconclusive spec (run_probe_round fl formats w.net spec w.latest_first agents)
          (record r { agents = agents }) (pair_key x) (job_result fl formats w.net spec x)
          (run_probe_round-IsMap fl formats w.net spec w.latest_first agents)
          (run_probe_round-results fl formats w.net spec w.latest_first perm agents differ plain x
            member)
          bad)

  -- If one of the agents found answers no request for the pair of some job, and the agents' node
  -- names differ and hold no arrow, a TCP round of the operator, whatever the tracker has seen
  -- before and whatever the orders of stores and maps, returns the verdict `unknown` with
  -- confidence 0 and no suspects, and the plan for it takes no action.
  pub reconcile-Inconclusive :
      (r : Reconciler fl.F) (agents : List Endpoint)
      → is_tcp (with_defaults asked).probe_type ≡ true
      → discover_agents w.client r.namespace r.agents ≡ discovered agents
      → ((jobs : List Job) → Permᴰ (w.latest_first jobs) jobs)
      → NamesDiffer agents
      → NamesPlain agents
      → (x : Job) → Memᴰ x (jobs_of agents)
      → Silent fl formats w.net (with_defaults asked) x
      → Inconclusive (reconcile fl formats w asked r).1
  unfolding job_result
  reconcile-Inconclusive r agents tcp found perm differ plain x member silent =
      reconcile-agent_error r agents tcp found perm differ plain x member
        (probe_endpoint-unanswered fl formats (w.net x.src_at x.dst_at) _ silent)
