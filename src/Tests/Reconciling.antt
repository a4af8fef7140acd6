-- ===== src/Tests/Reconciling.antt =====
-- The operator's rounds with two agents, of which the second does not answer.
use mathlib.Core.Path.{◌≡◌, refl}
use mathlib.Core.List.Permᴰ
use native.Mathlib.Omega.{arith}
use cs331_t011_kubernetes_se.Common.{
  ℕ, zero, suc, ◌+◌, ◌*◌, ◌≤◌, ◌⊎◌, true, false, not, none, some, List, [], ◌∷◌, ◌++◌, length,
  Permᴰ,
}
use cs331_t011_kubernetes_se.Common.Int.{pos, int_limit}
use cs331_t011_kubernetes_se.Go.Text.{str, str_eq}
use cs331_t011_kubernetes_se.Go.Maps.{IsMap, get?, put}
use cs331_t011_kubernetes_se.Contract.{ProbeResult, Endpoint, Matrix, other}
use cs331_t011_kubernetes_se.Analysis.Config.{default_config}
use cs331_t011_kubernetes_se.Analysis.Tracker.Machine.{is_degraded_after}
use cs331_t011_kubernetes_se.Analysis.Tracker.Rounds.{history}
use cs331_t011_kubernetes_se.Controller.Probe.{Answer, unanswered, answered, decoded, Formats}
use cs331_t011_kubernetes_se.Controller.Round.{
  NetworkHealthCheckSpec, Job, Network, pair_key, jobs_from, job_rows, jobs_of, max_concurrent,
  job_result,
}
use cs331_t011_kubernetes_se.Controller.Round.Steps.{
  RoundState, Step, acquire, store, release, Reaches, begin, next,
}
use cs331_t011_kubernetes_se.Controller.Round.Runs.{
  entries, steps_left, Reaches-terminates, Reaches-finished,
}
use cs331_t011_kubernetes_se.Controller.Round.Places.{as_many, inside, Reaches-places}
use cs331_t011_kubernetes_se.Controller.Reconcile.{Reconciler, Surroundings}
use cs331_t011_kubernetes_se.Controller.Reconcile.History.{judge_rounds, judge_rounds-published}
use cs331_t011_kubernetes_se.Tests.Fractions.{Fraction, fractions}
use cs331_t011_kubernetes_se.Tests.Samples.{backwards, good, lost, mesh}

abbrev pub formats : Formats
formats = record {
  quote = λ s. str "\"" ++ s ++ str "\"";
  duration_text = λ d. str "2s";
  agent_probe_token = str "secret";
}

-- The agent at the place 1 is down.
abbrev answers : ℕ → Answer Fraction
answers zero = answered 200 (decoded good)
answers (suc n) = unanswered (str "connection refused")

abbrev pub net : Network Fraction
net src_at dst_at url authorization = answers src_at

abbrev pub spec : NetworkHealthCheckSpec
spec = record {
  interval = pos 0;
  probe_timeout = pos 2_000_000_000;
  probe_type = str "tcp";
  probe_count = pos 5;
  probe_payload_bytes = pos 0;
  max_concurrent_probes = pos 1;
  remediation_enabled = false;
  remediation_dry_run = true;
  failure_threshold = pos 3;
  success_threshold = pos 2;
}

abbrev pub agent_a : Endpoint
agent_a = record {
  node_name = str "a";
  pod_ip = str "10.0.0.1";
  control_url = str "http://10.0.0.1:8080";
}

abbrev pub agent_b : Endpoint
agent_b = record {
  node_name = str "b";
  pod_ip = str "10.0.0.2";
  control_url = str "http://10.0.0.2:8080";
}

abbrev pub job_ab : Job
job_ab = record { src_at = 0; src = agent_a; dst_at = 1; dst = agent_b }

abbrev pub job_ba : Job
job_ba = record { src_at = 1; src = agent_b; dst_at = 0; dst = agent_a }

two_agents_jobs : jobs_of (agent_a ∷ agent_b ∷ []) ≡ job_ab ∷ job_ba ∷ []
unfolding jobs_of job_rows jobs_from
two_agents_jobs = refl

abbrev both : List Job
both = job_ab ∷ job_ba ∷ []

-- The second goroutine goes first and the first then takes the only place.
abbrev middle : RoundState Fraction
middle = record {
  waiting = [];
  probing = job_ab ∷ [];
  leaving = [];
  matrix = put (pair_key job_ba) (job_result fractions formats net spec job_ba) [];
}

abbrev final : RoundState Fraction
final = record {
  waiting = [];
  probing = [];
  leaving = job_ab ∷ [];
  matrix =
      put (pair_key job_ab) (job_result fractions formats net spec job_ab)
        (put (pair_key job_ba) (job_result fractions formats net spec job_ba) []);
}

Reaches-middle : Reaches fractions formats net spec both 4 middle
unfolding max_concurrent
Reaches-middle =
    next
      (next
        (next (next begin (acquire (Permᴰ.swap refl refl) (omega arith))) (store (Permᴰ.refl _)))
        (release (Permᴰ.refl _)))
      (acquire (Permᴰ.refl _) (omega arith))

Reaches-final : Reaches fractions formats net spec both 5 final
Reaches-final = next Reaches-middle (store (Permᴰ.refl _))

Reaches-places_example :
    (inside fractions formats net spec middle ≤ 1)
    × ((s : RoundState Fraction) × Reaches fractions formats net spec both 1 s
        × (inside fractions formats net spec s ≡ 1))
Reaches-places_example =
    Reaches-places fractions formats net spec both as_many Reaches-middle 1 (omega arith)
      (omega arith)

both-IsMap : IsMap (entries fractions formats net spec both)
unfolding pair_key str str_eq
both-IsMap = (refl, (refl, tt))

Reaches-finished_example :
    get? (str "a->b") final.matrix ≡ get? (str "a->b") (entries fractions formats net spec both)
Reaches-finished_example =
    Reaches-finished fractions formats net spec both Reaches-final refl refl both-IsMap (str "a->b")

Reaches-terminates_example :
    (4 + steps_left fractions formats net spec middle ≡ 3 * length both)
    × ((steps_left fractions formats net spec middle ≡ 0)
        ⊎ ((s' : RoundState Fraction) × Step fractions formats net spec middle s'))
Reaches-terminates_example = Reaches-terminates fractions formats net spec both Reaches-middle

abbrev pub surroundings : Surroundings Fraction
surroundings = record {
  client = none;
  net = net;
  latest_first = backwards.visit Job 0;
  orders = backwards;
  round_duration = pos 1;
}

abbrev pub fresh : Reconciler Fraction
fresh = record {
  agents = agent_a ∷ agent_b ∷ [];
  namespace = [];
  last_matrix = [];
  last_verdict = record { class = other []; confidence = (0, 0); suspect_nodes = []; summary = [] };
  last_round = pos 0;
  tracker = none;
  tracker_config = default_config fractions;
}

abbrev down_once : Matrix Fraction
down_once = mesh lost good good good good good

down_once-IsMap : IsMap down_once
unfolding str str_eq
down_once-IsMap = (refl, (refl, (refl, (refl, (refl, (refl, tt))))))

judge_rounds-published_example :
    (published : ProbeResult Fraction) × (get?
        (str "a->b")
        (judge_rounds fractions formats (λ n. surroundings) spec fresh (down_once ∷ [])).last_matrix
      ≡ some published)
    × (published.success
        ≡ not (
            is_degraded_after 3 2
              (history (λ n. backwards) fractions (str "a->b") (down_once ∷ []))))
    × (published.agent_error ≡ false)
unfolding int_limit get? str str_eq
judge_rounds-published_example =
    judge_rounds-published fractions formats (λ n. surroundings) spec 2 1 refl refl fresh refl
      down_once [] (down_once-IsMap, tt) (omega arith) (str "a->b") lost refl
