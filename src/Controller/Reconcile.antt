-- ===== src/Controller/Reconcile.antt =====
-- code/internal/controller/controller.go, `Reconcile`: discover, probe, smooth out, classify,
-- record.
pub mod Outcomes
pub mod History
pub mod Shown
pub mod Silent
pub mod Answered
use cs331_t011_kubernetes_se.Common.{
  ℕ, ◌≡◌, Bool, true, false, not, ◌&&◌, ◌||◌, Option, none, some, List, [], ◌∷◌, ◌++◌, ◌==◌,
  if◌then◌else◌,
}
use cs331_t011_kubernetes_se.Common.Int.{ℤ, pos, negsuc, is_nonpos}
use cs331_t011_kubernetes_se.Go.Text.{Str, str, str_eq, is_empty, to_lower}
use cs331_t011_kubernetes_se.Go.Maps.{MapOrder}
use cs331_t011_kubernetes_se.Go.Floats.{Floats}
use cs331_t011_kubernetes_se.Contract.{ProbeResult, Endpoint, Matrix, Verdict}
use cs331_t011_kubernetes_se.Analysis.Config.{Config, default_config}
use cs331_t011_kubernetes_se.Analysis.Classifier.{classify}
use cs331_t011_kubernetes_se.Analysis.Tracker.{Tracker, new_tracker, update}
use cs331_t011_kubernetes_se.Controller.Stabilize.{stabilize_matrix}
use cs331_t011_kubernetes_se.Controller.Probe.{Formats}
use cs331_t011_kubernetes_se.Controller.Round.{
  NetworkHealthCheckSpec, Job, Network, run_probe_round,
}
use cs331_t011_kubernetes_se.Controller.Discovery.{
  Listed, Discovered, undiscovered, discovered, discover_agents,
}

-- The fields that the function reads and writes, but for the clients.
pub record Reconciler (F : Type 0) : Type 0 where
  pub agents : List Endpoint
  pub namespace : Str
  pub last_matrix : Matrix F
  pub last_verdict : Verdict F
  pub last_round : ℤ
  pub tracker : Option Tracker
  pub tracker_config : Config F

-- What one call meets: the client for pods, how the network answers, in which order the
-- goroutines store their results, the orders of the maps, and how long the round takes.
pub record Surroundings (F : Type 0) : Type 1 where
  pub client : Option (Str → Listed)
  pub net : Network F
  pub latest_first : List Job → List Job
  pub orders : MapOrder
  pub round_duration : ℤ

unfoldable pub equal_int : ℤ → ℤ → Bool
equal_int (pos m) (pos n) = m == n
equal_int (negsuc m) (negsuc n) = m == n
equal_int (pos m) (negsuc n) = false
equal_int (negsuc m) (pos n) = false

unfoldable pub or_if_zero : ℤ → ℤ → ℤ
or_if_zero n fallback = if equal_int n (pos 0) then fallback else n

unfoldable pub or_if_nonpos : ℤ → ℤ → ℤ
or_if_nonpos n fallback = if is_nonpos n then fallback else n

-- The defaults at the top, with durations in nanoseconds.
unfoldable pub with_defaults : NetworkHealthCheckSpec → NetworkHealthCheckSpec
with_defaults spec = record spec {
  interval = or_if_zero spec.interval (pos 15_000_000_000);
  probe_timeout = or_if_zero spec.probe_timeout (pos 2_000_000_000);
  max_concurrent_probes = or_if_nonpos spec.max_concurrent_probes (pos 1);
  probe_count = or_if_nonpos spec.probe_count (pos 5);
  probe_payload_bytes = or_if_nonpos spec.probe_payload_bytes (pos 1024);
  probe_type = if is_empty spec.probe_type then str "TCP" else spec.probe_type;
}

-- `strings.EqualFold(s, "TCP")`: no letter but their small ones folds to these three.
unfoldable pub is_tcp : Str → Bool
is_tcp s = str_eq (to_lower s) (str "tcp")

module _ (fl : Floats) where
  -- `err`, or the verdict with the stabilised matrix.
  pub data Reconciled : Type 0 where
    refused : Str → Reconciled
    classified : Verdict fl.F → Matrix fl.F → Reconciled

  unfoldable pub config_for : NetworkHealthCheckSpec → Config fl.F
  config_for spec =
      let cfg = default_config fl in
      record cfg {
        failure_threshold =
            if is_nonpos spec.failure_threshold
            then cfg.failure_threshold
            else spec.failure_threshold;
        success_threshold =
            if is_nonpos spec.success_threshold
            then cfg.success_threshold
            else spec.success_threshold;
      }

  unfoldable pub same_thresholds : Config fl.F → Config fl.F → Bool
  same_thresholds a b =
      equal_int a.failure_threshold b.failure_threshold
      && equal_int a.success_threshold b.success_threshold

  -- The tracker that the round updates: the old one, if its thresholds are those of the call.
  unfoldable pub tracker_for : Config fl.F → Option Tracker → Config fl.F → Tracker
  tracker_for cfg none old = new_tracker cfg
  tracker_for cfg (some t) old = if same_thresholds old cfg then t else new_tracker cfg

  unfoldable pub tracker_config_for : Config fl.F → Option Tracker → Config fl.F → Config fl.F
  tracker_config_for cfg none old = cfg
  tracker_config_for cfg (some t) old = if same_thresholds old cfg then old else cfg

  module _ (formats : Formats) (w : Surroundings fl.F) where
    unfoldable pub record_metrics : Matrix fl.F → Verdict fl.F → Reconciler fl.F → Reconciler fl.F
    record_metrics matrix verdict r = record r {
      last_matrix = matrix;
      last_verdict = verdict;
      last_round = w.round_duration;
    }

    -- From the classifier's configuration on, with the matrix of the round.
    unfoldable pub judge_round :
        NetworkHealthCheckSpec → Matrix fl.F → Reconciler fl.F → Reconciler fl.F × Reconciled
    judge_round spec matrix r =
        let cfg = config_for spec in
        let tracker = update fl w.orders (tracker_for cfg r.tracker r.tracker_config) matrix in
        let stable = stabilize_matrix fl w.orders tracker matrix in
        let verdict = classify w.orders fl stable cfg in
        (
          record_metrics stable verdict (record r {
            tracker = some tracker;
            tracker_config = tracker_config_for cfg r.tracker r.tracker_config;
          }),
          classified verdict stable,
        )

    -- From the discovered agents on.
    unfoldable pub probe_agents :
        NetworkHealthCheckSpec → Discovered → Reconciler fl.F → Reconciler fl.F × Reconciled
    probe_agents spec (undiscovered err) r = (r, refused err)
    probe_agents spec (discovered endpoints) r =
        judge_round spec (run_probe_round fl formats w.net spec w.latest_first endpoints)
          (record r { agents = endpoints })

    unfoldable pub reconcile :
        NetworkHealthCheckSpec → Reconciler fl.F → Reconciler fl.F × Reconciled
    reconcile asked r =
        let spec = with_defaults asked in
        if not (is_tcp spec.probe_type)
        then (
          r,
          refused (
              str "unsupported probe type "
              ++ formats.quote spec.probe_type
              ++ str ": only TCP is implemented"),
        )
        else probe_agents spec (discover_agents w.client r.namespace r.agents) r
