-- ===== src/System/Mesh.antt =====
-- A round of the operator over agents that are those of code/pkg, from the list of agents to the
-- verdict.
use cs331_t011_kubernetes_se.Common.{ℕ, ◌<◌, ◌≡◌, refl, ap, ◌∙◌, ◌⊎◌, true, none, List, Memᴰ, Permᴰ}
use cs331_t011_kubernetes_se.Go.Text.{Str}
use cs331_t011_kubernetes_se.Go.Floats.{Floats, FloatLaws, quot_limit, five-not-le-none}
use cs331_t011_kubernetes_se.Contract.{Endpoint}
use cs331_t011_kubernetes_se.Analysis.Config.{default_degraded_loss_threshold}
use cs331_t011_kubernetes_se.Agent.Prober.{round_count}
use cs331_t011_kubernetes_se.Agent.Prober.Answered.{AllAnswered, execute_probe-answered}
use cs331_t011_kubernetes_se.Agent.Prober.Counts.{round_count_pos}
use cs331_t011_kubernetes_se.Agent.Target.{validate_target}
use cs331_t011_kubernetes_se.Agent.Server.{Server, World, probed}
use cs331_t011_kubernetes_se.Controller.Probe.{decoded, Formats, ProbeCall}
use cs331_t011_kubernetes_se.Controller.Round.{
  NetworkHealthCheckSpec, Job, Network, jobs_of, result_of, job_result,
}
use cs331_t011_kubernetes_se.Controller.Round.Keys.{NamesDiffer, NamesPlain}
use cs331_t011_kubernetes_se.Controller.Stabilize.Unchanged.{HoldsNone}
use cs331_t011_kubernetes_se.Controller.Discovery.{discovered, discover_agents}
use cs331_t011_kubernetes_se.Controller.Reconcile.{
  Reconciler, Surroundings, with_defaults, is_tcp, config_for, tracker_for, reconcile,
}
use cs331_t011_kubernetes_se.Controller.Reconcile.Answered.{
  WentWell, FoundHealthy, reconcile-FoundHealthy,
}
use cs331_t011_kubernetes_se.Controller.Reconcile.Silent.{Inconclusive, reconcile-agent_error}
use cs331_t011_kubernetes_se.System.{Wire, Delivers, ask_agent}
use cs331_t011_kubernetes_se.System.Url.{ReadsTimeout, IsCall, options_of}
use cs331_t011_kubernetes_se.System.Conversation.{
  SharesToken, probed_result, probe_endpoint-accepted, probe_endpoint-refused,
}

-- The agents at their places, and what the one at the first place meets when it probes the second.
pub record Fleet : Type 0 where
  pub server : ℕ → Server
  pub world : ℕ → ℕ → World

module _ (fl : Floats) (wire : Wire fl.F) (fleet : Fleet) where
  -- The network in which every request reaches its agent.
  abbrev pub fleet_net : Network fl.F
  fleet_net src_at dst_at = ask_agent fl wire (fleet.world src_at dst_at) (fleet.server src_at)

  module _ (formats : Formats) (spec : NetworkHealthCheckSpec) where
    abbrev pub call_of : Job → ProbeCall
    call_of x = record {
      control_url = x.src.control_url;
      target_ip = x.dst.pod_ip;
      probe_type = spec.probe_type;
      timeout = spec.probe_timeout;
      count = spec.probe_count;
      payload_bytes = spec.probe_payload_bytes;
    }

    -- The job's request is one for a TCP probe, and its timeout can be read.
    abbrev pub IsSent : Job → Type 0
    IsSent x =
        (host : Str) × IsCall (call_of x) host
        × ReadsTimeout formats (fleet.world x.src_at x.dst_at).parse_duration spec.probe_timeout

    -- The agent's guard lets the job's target through.
    abbrev pub LetsThrough : Job → Type 0
    LetsThrough x =
        let server = fleet.server x.src_at in
        validate_target (fleet.world x.src_at x.dst_at).syntax (options_of (call_of x)).target
          server.allowed_cidrs
        ≡ none

    -- The agent accepts the job, the network answers every round, and the report comes through.
    abbrev pub GoesWell : Job → Type 0
    GoesWell x =
        let w = fleet.world x.src_at x.dst_at in
        let result = probed_result fl w formats wire (fleet.server x.src_at) (call_of x) in
        SharesToken formats (fleet.server x.src_at)
        × LetsThrough x
        × AllAnswered w.rounds
        × (round_count (options_of (call_of x)) < quot_limit)
        × (wire.decode (probed result) ≡ decoded result)

    WentWell-GoesWell :
        FloatLaws fl
        → Delivers wire
        → (x : Job) → IsSent x
        → GoesWell x
        → WentWell fl formats fleet_net spec x
    unfolding job_result result_of default_degraded_loss_threshold
    WentWell-GoesWell laws law x (host, call, timeout) (shared, through, answered, small, decodes) =
        let w = fleet.world x.src_at x.dst_at in
        let opts = options_of (call_of x) in
        let reported =
          probe_endpoint-accepted fl w formats wire (fleet.server x.src_at) (call_of x) host call
            timeout law shared through decodes in
        let (up, clean, loss) =
          execute_probe-answered w.rounds answered laws opts w.duration (unfold options_of in refl)
            small in
        rw reported (
          up,
          clean,
          ap (fl.fle (fl.lit 5 2)) loss
              ∙ five-not-le-none laws (round_count opts) (round_count_pos opts) small,
        )

    job_result-refused :
        Delivers wire
        → (x : Job) → IsSent x
        → (¬ SharesToken formats (fleet.server x.src_at)) ⊎ (¬ LetsThrough x)
        → (job_result fl formats fleet_net spec x).agent_error ≡ true
    unfolding job_result result_of
    job_result-refused law x (host, call, timeout) reason =
        let (status, failed) =
          probe_endpoint-refused fl (fleet.world x.src_at x.dst_at) formats wire
            (fleet.server x.src_at) (call_of x) host call timeout law reason in
        rw failed refl

  module _ (formats : Formats) (rest : Surroundings fl.F) (asked : NetworkHealthCheckSpec)
      (r : Reconciler fl.F) (agents : List Endpoint) (law : Delivers wire)
      (tcp : is_tcp (with_defaults asked).probe_type ≡ true)
      (found : discover_agents rest.client r.namespace r.agents ≡ discovered agents)
      (perm : (jobs : List Job) → Permᴰ (rest.latest_first jobs) jobs) (differ : NamesDiffer agents)
      (plain : NamesPlain agents) (x : Job) (member : Memᴰ x (jobs_of agents)) where
    abbrev spec : NetworkHealthCheckSpec
    spec = with_defaults asked

    -- The operator in a cluster in which every request reaches its agent.
    abbrev pub in_cluster : Surroundings fl.F
    in_cluster = record rest { net = fleet_net }

    -- The agents' node names differ and hold no arrow, there is a pair, and the tracker that the
    -- call uses holds no pair for degraded and has a positive threshold of failures. If then each request of a TCP round needs no escape
    -- in its URL and can be read, its agent has the operator's token or none and lets the target
    -- through, the network answers every round of each probe, of which there are fewer than
    -- 2^26, and the reports come through, the operator finds the mesh healthy with confidence 1,
    -- whatever the orders of stores and maps.
    pub reconcile-fleet_healthy :
        FloatLaws fl
        → HoldsNone (tracker_for fl (config_for fl spec) r.tracker r.tracker_config)
        → ((y : Job) → Memᴰ y (jobs_of agents) → IsSent formats spec y × GoesWell formats spec y)
        → FoundHealthy fl formats in_cluster (reconcile fl formats in_cluster asked r).1
    reconcile-fleet_healthy laws none_down well =
        reconcile-FoundHealthy fl formats in_cluster asked r agents tcp found perm differ plain
          none_down x member
          (λ y i.
            let (sent, goes) = well y i in WentWell-GoesWell formats spec laws law y sent goes)

    -- The agents' node names differ and hold no arrow. If the agent of some pair, whose request
    -- needs no escape in its URL and can be read, asks for a token that the operator does not
    -- have, or its guard refuses the other end of the pair, a TCP round over agents that all can
    -- be reached, whatever the tracker has seen before and whatever else they answer, returns
    -- the verdict `unknown` with confidence 0 and no suspects, and the plan for it takes no
    -- action.
    pub reconcile-fleet_refused :
        IsSent formats spec x
        → (¬ SharesToken formats (fleet.server x.src_at)) ⊎ (¬ LetsThrough formats spec x)
        → Inconclusive fl formats in_cluster asked (reconcile fl formats in_cluster asked r).1
    reconcile-fleet_refused sent reason =
        reconcile-agent_error fl formats in_cluster asked r agents tcp found perm differ plain x
          member (job_result-refused formats spec law x sent reason)
