-- ===== src/Controller/Reconcile/Answered.antt =====
-- A round in which every agent answers and every probe succeeds, from the requests to the verdict.
use cs331_t011_kubernetes_se.Common.{
  ◌≡◌, ◌≢◌, refl, sym, ap, ◌∙◌, true, false, some, List, [], ◌∷◌, Memᴰ, Permᴰ, arith, count_if_zero,
  ◌==◌, if◌then◌else◌,
}
use cs331_t011_kubernetes_se.Go.Text.{Str}
use cs331_t011_kubernetes_se.Go.Maps.{MapOrder, get?, mem_of_get?, get?_of_mem}
use cs331_t011_kubernetes_se.Go.Floats.{Floats}
use cs331_t011_kubernetes_se.Contract.{ProbeResult, Endpoint, Matrix, Verdict, healthy, degraded}
use cs331_t011_kubernetes_se.Analysis.Config.{default_degraded_loss_threshold}
use cs331_t011_kubernetes_se.Analysis.Scan.{loss_threshold, is_degraded}
use cs331_t011_kubernetes_se.Analysis.Evidence.{degraded_pair}
use cs331_t011_kubernetes_se.Analysis.Classifier.{classify}
use cs331_t011_kubernetes_se.Analysis.Classifier.Completeness.{classify_all_succeed}
use cs331_t011_kubernetes_se.Analysis.Tracker.{update}
use cs331_t011_kubernetes_se.Controller.Stabilize.{stabilize_matrix}
use cs331_t011_kubernetes_se.Controller.Stabilize.Unchanged.{
  HoldsNone, stabilize_matrix-IsMap, get?-stable,
}
use cs331_t011_kubernetes_se.Controller.Probe.{Formats}
use cs331_t011_kubernetes_se.Controller.Round.{
  NetworkHealthCheckSpec, Job, Network, jobs_of, pair_key, job_result, run_probe_round,
}
use cs331_t011_kubernetes_se.Controller.Round.Runs.{entries, run_probe_round_lem}
use cs331_t011_kubernetes_se.Controller.Round.Keys.{
  NamesDiffer, NamesPlain, jobs_of-IsMap, run_probe_round-results,
}
use cs331_t011_kubernetes_se.Controller.Discovery.{discovered, discover_agents}
use cs331_t011_kubernetes_se.Controller.Reconcile.{
  Reconciler, Surroundings, with_defaults, is_tcp, Reconciled, classified, config_for, tracker_for,
  judge_round, probe_agents, reconcile,
}
use cs331_t011_kubernetes_se.Controller.Reconcile.Shown.{loss_threshold-config_for}
use cs331_t011_kubernetes_se.Controller.Reconcile.Silent.{run_probe_round-IsMap}

module _ (fl : Floats) (formats : Formats) (net : Network fl.F)
    (spec : NetworkHealthCheckSpec) where
  -- The agent reports a success with less loss than the classifier's threshold.
  abbrev pub WentWell : Job → Type 0
  WentWell x =
      let r = job_result fl formats net spec x in
      (r.success ≡ true)
      × (r.agent_error ≡ false)
      × (fl.fle (default_degraded_loss_threshold fl) r.loss_rate ≡ false)

  mem-entries_of :
      (jobs : List Job) (e : Str × ProbeResult fl.F)
      → Memᴰ e (entries fl formats net spec jobs)
      → (x : Job) × Memᴰ x jobs × (e ≡ (pair_key x, job_result fl formats net spec x))
  mem-entries_of [] e i = elim i [ ]
  mem-entries_of (j ∷ jobs) e (Memᴰ.head same) = (j, Memᴰ.head refl, same)
  mem-entries_of (j ∷ jobs) e (Memᴰ.tail i) =
      let (x, member, same) = mem-entries_of jobs e i in (x, Memᴰ.tail member, same)

  module _ (latest_first : List Job → List Job)
      (perm : (jobs : List Job) → Permᴰ (latest_first jobs) jobs) (agents : List Endpoint)
      (differ : NamesDiffer agents) (plain : NamesPlain agents) where
    -- What the matrix of a round holds comes from a job of the round.
    round-origin :
        (k : Str) (r : ProbeResult fl.F)
        → get? k (run_probe_round fl formats net spec latest_first agents) ≡ some r
        → (x : Job) × Memᴰ x (jobs_of agents) × (r ≡ job_result fl formats net spec x)
    round-origin k r hit =
        let apart = jobs_of-IsMap fl formats net spec agents differ plain in
        let (x, member, same) =
          mem-entries_of (jobs_of agents) (k, r)
            (mem_of_get? k r _ (
              sym (run_probe_round_lem fl formats net spec latest_first perm agents apart k)
              ∙ hit)) in
        (x, member, ap (λ e. e.1) same)

module _ (fl : Floats) (formats : Formats) (w : Surroundings fl.F) where
  -- The call finds the mesh healthy, with full confidence.
  abbrev pub FoundHealthy : Reconciled fl → Type 0
  FoundHealthy out =
      (v : Verdict fl.F) × (m : Matrix fl.F) × (out ≡ classified v m)
      × (v.class ≡ healthy)
      × (v.confidence ≡ fl.lit 1 0)

  quiet_pair :
      (spec : NetworkHealthCheckSpec) (e : Str × ProbeResult fl.F)
      → fl.fle (default_degraded_loss_threshold fl) e.1.loss_rate ≡ false
      → degraded_pair fl (loss_threshold fl (config_for fl spec)) e ≡ false
  unfolding is_degraded
  quiet_pair spec e low =
      let below : fl.fle (loss_threshold fl (config_for fl spec)) e.1.loss_rate ≡ false =
        ap (λ t. fl.fle t e.1.loss_rate) (loss_threshold-config_for fl spec) ∙ low in
      ground (arith, below)

  no_entry : (k : Str) (m : Matrix fl.F) {r : ProbeResult fl.F} → m ≡ [] → get? k m ≡ some r → ⊥
  unfolding get?
  no_entry k m empty hit = let missed = ap (get? k) empty in absurd (ground (arith, missed, hit))

  -- A matrix of successes with little loss.
  well-healthy :
      (rt : MapOrder) (spec : NetworkHealthCheckSpec) (m : Matrix fl.F)
      → m ≢ []
      → ((e : Str × ProbeResult fl.F)
          → Memᴰ e m
          → (e.1.success ≡ true)
            × (e.1.agent_error ≡ false)
            × (fl.fle (default_degraded_loss_threshold fl) e.1.loss_rate ≡ false))
      → let v = classify rt fl m (config_for fl spec) in
        (v.class ≡ healthy) × (v.confidence ≡ fl.lit 1 0)
  well-healthy rt spec m some_entry well =
      let cfg = config_for fl spec in
      let (class, confidence, _) =
        classify_all_succeed rt fl cfg m some_entry
          (λ e i _. let (_, clean, _) = well e i in ground arith)
          (λ e i _. let (up, _, _) = well e i in up) in
      let no_loss =
        count_if_zero (degraded_pair fl (loss_threshold fl cfg)) m
          (λ e i. quiet_pair spec e (well e i).2) in
      (class ∙ ap (λ n. if n == 0 then healthy else degraded) no_loss, confidence)

  module _ (asked : NetworkHealthCheckSpec) (r : Reconciler fl.F) (agents : List Endpoint) where
    abbrev spec : NetworkHealthCheckSpec
    spec = with_defaults asked

    abbrev round : Matrix fl.F
    round = run_probe_round fl formats w.net spec w.latest_first agents

    -- If every agent found reports successes with little loss for all its pairs, of which there is
    -- one, the agents' node names differ and hold no arrow, and the tracker that the call uses holds
    -- no pair for degraded, as a new one does, then a TCP round of the operator, whatever the orders
    -- of stores and maps, returns the verdict `healthy` with confidence 1.
    pub reconcile-FoundHealthy :
        is_tcp spec.probe_type ≡ true
        → discover_agents w.client r.namespace r.agents ≡ discovered agents
        → ((jobs : List Job) → Permᴰ (w.latest_first jobs) jobs)
        → NamesDiffer agents
        → NamesPlain agents
        → HoldsNone (tracker_for fl (config_for fl spec) r.tracker r.tracker_config)
        → (x : Job) → Memᴰ x (jobs_of agents)
        → ((y : Job) → Memᴰ y (jobs_of agents) → WentWell fl formats w.net spec y)
        → FoundHealthy (reconcile fl formats w asked r).1
    unfolding reconcile probe_agents judge_round
    reconcile-FoundHealthy tcp found perm differ plain none_down x member well =
        let t = tracker_for fl (config_for fl spec) r.tracker r.tracker_config in
        let unique = run_probe_round-IsMap fl formats w.net spec w.latest_first agents in
        let stable = stabilize_matrix fl w.orders (update fl w.orders t round) round in
        let origin = round-origin fl formats w.net spec w.latest_first perm agents differ plain in
        let all_up : (k : Str) (res : ProbeResult fl.F)
            → get? k round ≡ some res
            → res.success ≡ true =
          λ k res hit.
            let (y, i, same) = origin k res hit in ap (λ z. z.success) same ∙ (well y i).0 in
        let kept = get?-stable fl w.orders t round none_down unique all_up in
        let some_entry : stable ≢ [] = λ empty. no_entry (pair_key x) stable empty (
          kept (pair_key x)
          ∙ run_probe_round-results fl formats w.net spec w.latest_first perm agents differ plain x
              member) in
        let (class, confidence) = well-healthy w.orders spec stable some_entry (λ e i.
          let hit =
            sym (kept e.0)
            ∙ get?_of_mem e.0 e.1 stable
                (stabilize_matrix-IsMap fl w.orders (update fl w.orders t round) round) i in
          let (y, j, same) = origin e.0 e.1 hit in
          let (up, clean, low) = well y j in
          (
            ap (λ z. z.success) same ∙ up,
            ap (λ z. z.agent_error) same ∙ clean,
            ap (λ z. fl.fle (default_degraded_loss_threshold fl) z.loss_rate) same ∙ low,
          )) in
        rw (tcp, found, probe_agents) (_, _, refl, class, confidence)
