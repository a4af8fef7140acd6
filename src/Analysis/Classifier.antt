-- ===== src/Analysis/Classifier.antt =====
-- code/pkg/analysis/classifier.go and evaluate.go: `classify` from its steps, and `Evaluate`.
pub mod Found
pub mod Soundness
pub mod Completeness
pub mod Rows
pub mod Orders
use cs331_t011_kubernetes_se.Common.{
  ℕ, ◌≡◌, Bool, Option, none, some, List, [], ◌∷◌, ◌++◌, length, if◌then◌else◌,
}
use cs331_t011_kubernetes_se.Go.Text.{Str, str, decimal, sort_strings, join_commas}
use cs331_t011_kubernetes_se.Go.Maps.{MapOrder}
use cs331_t011_kubernetes_se.Go.Floats.{Floats, quot}
use cs331_t011_kubernetes_se.Contract.{
  ProbeResult, Matrix, Classification, healthy, unknown, no_data, degraded, Verdict,
}
use cs331_t011_kubernetes_se.Analysis.Config.{Config}
use cs331_t011_kubernetes_se.Analysis.Scan.{
  FailedPair, Buckets, no_buckets, collect_nodes, has_agent_error, loss_threshold, fill_buckets,
}
use cs331_t011_kubernetes_se.Analysis.Tallies.{Tallies, no_tallies, count_pairs, count_failed}
use cs331_t011_kubernetes_se.Analysis.Hypotheses.{
  confidence_floor_of, find_pair_local, find_isolated, find_egress, find_ingress,
  find_policy_scoped, find_partition, no_hypothesis,
}

-- A row of `if`s that return a verdict, with the code behind them.
abbrev pub first_some {ℓ} : {A : Type ℓ} → List (Option A) → A → A
first_some [] rest = rest
first_some (none ∷ os) rest = first_some os rest
first_some (some v ∷ os) rest = v

module _ (rt : MapOrder) (fl : Floats) where
  unfoldable pub empty_verdict : Verdict fl.F
  empty_verdict = record {
    class = no_data;
    confidence = fl.lit 0 0;
    suspect_nodes = [];
    summary = str "insufficient evidence: empty matrix";
  }

  unfoldable pub agent_error_verdict : Verdict fl.F
  agent_error_verdict = record {
    class = unknown;
    confidence = fl.lit 0 0;
    suspect_nodes = [];
    summary =
        str "control channel failure detected (agentError=true); cannot emit data plane verdict";
  }

  -- Step 4: no hard failures.
  unfoldable pub healthy_summary : fl.F → List Str → Str
  healthy_summary threshold [] = str "all probes succeeded"
  healthy_summary threshold (s ∷ r) =
      str "all probes succeeded; loss below "
      ++ fl.format 0 (fl.fmul threshold (fl.lit 100 0))
      ++ str "% threshold on: "
      ++ join_commas (sort_strings (s ∷ r))

  unfoldable pub loss_verdict : fl.F → ℕ → Buckets → List Str → Verdict fl.F
  loss_verdict threshold pairs b [] = record {
    class = healthy;
    confidence = fl.lit 1 0;
    suspect_nodes = [];
    summary = healthy_summary threshold b.minor_loss_summaries;
  }
  loss_verdict threshold pairs b (s ∷ r) = record {
    class = degraded;
    confidence = fl.lit 1 0;
    suspect_nodes = sort_strings (rt.visit Str 4 b.degraded_nodes);
    summary =
        str "all pairs reachable but measured loss >= "
        ++ fl.format 0 (fl.fmul threshold (fl.lit 100 0))
        ++ str "% threshold on "
        ++ decimal (length (s ∷ r))
        ++ str " of "
        ++ decimal pairs
        ++ str " pairs: "
        ++ join_commas (sort_strings (s ∷ r));
  }

  -- Steps 5 to 7.
  unfoldable pub tally : Matrix fl.F → List FailedPair → Tallies
  tally m failed = count_failed failed (count_pairs (rt.visit _ 5 m) no_tallies)

  unfoldable pub hypotheses :
      Config fl.F → Matrix fl.F → List Str → List FailedPair → List (Option (Verdict fl.F))
  hypotheses cfg m nodes failed =
      let pairs = length m in
      let total = length failed in
      let t = tally m failed in
      let floor = confidence_floor_of fl cfg in
      find_pair_local fl t failed
      ∷ find_isolated fl t total floor (rt.visit Str 6 nodes)
      ∷ find_egress fl t total floor (rt.visit Str 7 nodes)
      ∷ find_ingress fl t total floor (rt.visit Str 8 nodes)
      ∷ find_policy_scoped fl total pairs (rt.visit _ 9 m) (rt.visit Str 10 nodes)
      ∷ find_partition fl floor total pairs (rt.visit Str 11 nodes)
      ∷ []

  unfoldable pub diagnose : Config fl.F → Matrix fl.F → List Str → List FailedPair → Verdict fl.F
  unfolding hypotheses
  diagnose cfg m nodes failed =
      first_some (hypotheses cfg m nodes failed)
        (no_hypothesis fl (confidence_floor_of fl cfg) (length failed) (length m))

  -- The `if len(failed) == 0` of step 4.
  unfoldable pub judge :
      Config fl.F → Matrix fl.F → List Str → Buckets → List FailedPair → Verdict fl.F
  judge cfg m nodes b [] = loss_verdict (loss_threshold fl cfg) (length m) b b.degraded_summaries
  judge cfg m nodes b (fp ∷ rest) = diagnose cfg m nodes (fp ∷ rest)

  unfoldable pub buckets : Config fl.F → Matrix fl.F → Buckets
  buckets cfg m = fill_buckets fl (loss_threshold fl cfg) (rt.visit _ 3 m) no_buckets

  unfoldable pub nodes_of : Matrix fl.F → List Str
  nodes_of m = collect_nodes (rt.visit _ 1 m) []

  unfoldable pub classify : Matrix fl.F → Config fl.F → Verdict fl.F
  classify [] cfg = empty_verdict
  classify (e ∷ m) cfg =
      if has_agent_error fl (rt.visit _ 2 (e ∷ m))
      then agent_error_verdict
      else judge cfg (e ∷ m) (nodes_of (e ∷ m)) (buckets cfg (e ∷ m)) (buckets cfg (e ∷ m)).failed

  unfoldable pub evaluate : Matrix fl.F → Config fl.F → Matrix fl.F × Verdict fl.F
  evaluate m cfg = (m, classify m cfg)
