-- ===== src/Controller/Stub.antt =====
-- code/internal/controller/classifier_stub.go: the operator's own small classifier.
pub mod Evidence
pub mod Backed
use cs331_t011_kubernetes_se.Common.{
  ℕ, suc, ◌-◌, ◌*◌, Bool, not, ◌&&◌, ◌||◌, Option, none, some, List, [], ◌∷◌, ◌++◌, ltb, ◌==◌,
  length, count_if, if◌then◌else◌,
}
use cs331_t011_kubernetes_se.Go.Text.{Str, str, str_eq, split_arrow, sort_strings}
use cs331_t011_kubernetes_se.Go.Maps.{MapOrder, get?}
use cs331_t011_kubernetes_se.Go.Floats.{Floats}
use cs331_t011_kubernetes_se.Contract.{
  ProbeResult, Matrix, Classification, healthy, pair_local_failure, node_isolated,
  cluster_partition, unknown, Verdict,
}
use cs331_t011_kubernetes_se.Analysis.Scan.{collect_nodes}
use cs331_t011_kubernetes_se.Analysis.Classifier.{first_some}

unfoldable pub pair_key : Str → Str → Str
pair_key source destination = source ++ (str "->" ++ destination)

-- `outFailures` and `outTotal` of a node, or the two for the pairs into it.
pub record Observed : Type 0 where
  pub failures : ℕ
  pub total : ℕ

abbrev pub nothing_observed : Observed
nothing_observed = record { failures = 0; total = 0 }

-- The condition on one of the two directions.
unfoldable pub all_lost : Observed → Bool
all_lost o = ltb 0 o.total && o.failures == o.total

module _ (fl : Floats) where
  unfoldable pub probe_failed : ProbeResult fl.F → Bool
  probe_failed r = not r.success || fl.flt (fl.lit 0 0) r.loss_rate

  -- `if result, ok := matrix[key]; ok { … }`
  unfoldable pub observe : Option (ProbeResult fl.F) → Observed → Observed
  observe none o = o
  observe (some r) o = record {
    failures = if probe_failed r then suc o.failures else o.failures;
    total = suc o.total;
  }

  -- The loop over the other nodes, with what is seen out of the node and into it.
  unfoldable pub observe_node :
      Matrix fl.F → Str → List Str → Observed → Observed → Observed × Observed
  observe_node m node [] out into = (out, into)
  observe_node m node (other ∷ rest) out into =
      let same = str_eq node other in
      observe_node m node rest (if same then out else observe (get? (pair_key node other) m) out)
        (if same then into else observe (get? (pair_key other node) m) into)

  unfoldable pub lost_verdict : Str → Verdict fl.F
  lost_verdict node = record {
    class = node_isolated;
    confidence = fl.lit 1 0;
    suspect_nodes = node ∷ [];
    summary = str "all observed traffic in one direction involving " ++ (node ++ str " failed");
  }

  -- The loop over the nodes that returns at the first one that lost a direction.
  unfoldable pub find_lost : Matrix fl.F → List Str → List Str → Option (Verdict fl.F)
  find_lost m nodes [] = none
  find_lost m nodes (node ∷ rest) =
      let later = find_lost m nodes rest in
      let (out, into) = observe_node m node nodes nothing_observed nothing_observed in
      if all_lost out || all_lost into then some (lost_verdict node) else later

  unfoldable pub pair_verdict : Str → Str × Str → Verdict fl.F
  pair_verdict key ends = record {
    class = pair_local_failure;
    confidence = fl.lit 1 0;
    suspect_nodes = ends.0 ∷ ends.1 ∷ [];
    summary = str "only path " ++ (key ++ str " failed");
  }

  -- The loop that returns at the first failed entry whose key has two parts.
  unfoldable pub find_single : List (Str × ProbeResult fl.F) → Option (Verdict fl.F)
  find_single [] = none
  find_single ((key, r) ∷ m) =
      let later = find_single m in
      if not r.success
      then elim (split_arrow key) [ none ↦ later | some ends ↦ some (pair_verdict key ends) ]
      else later

  -- A verdict that names no suspect.
  unfoldable pub plain_verdict : Classification → fl.F → Str → Verdict fl.F
  plain_verdict class confidence summary = record {
    class = class;
    confidence = confidence;
    suspect_nodes = [];
    summary = summary;
  }

  unfoldable pub ambiguous : Verdict fl.F
  ambiguous = plain_verdict unknown (fl.lit 0 0) (str "failure pattern is ambiguous")

  module _ (rt : MapOrder) where
    unfoldable pub matrix_nodes : Matrix fl.F → List Str
    matrix_nodes m = sort_strings (rt.visit Str 14 (collect_nodes (rt.visit _ 13 m) []))

    -- From the test for a complete matrix on; the pairs of `n` nodes are `n * (n - 1)`.
    unfoldable pub judge_observed : Matrix fl.F → List Str → ℕ → Verdict fl.F
    judge_observed m nodes failures =
        let pairs = length nodes * (length nodes - 1) in
        if not (length m == pairs)
        then plain_verdict unknown (fl.lit 0 0)
            (str "incomplete probe matrix; classification refused")
        else if failures == 0
        then plain_verdict healthy (fl.lit 1 0) (str "all observed probe paths are reachable")
        else if failures == pairs
        then plain_verdict cluster_partition (fl.lit 1 0)
            (str "all observed inter-node paths failed")
        else first_some
            (find_lost m nodes nodes
              ∷ (if failures == 1 then find_single (rt.visit _ 16 m) else none)
              ∷ [])
            ambiguous

    unfoldable pub stub_classifier : Matrix fl.F → Verdict fl.F
    stub_classifier m =
        let nodes = matrix_nodes m in
        if length nodes == 0
        then plain_verdict unknown (fl.lit 0 0) (str "no probe data")
        else judge_observed m nodes (count_if (λ e. probe_failed e.1) (rt.visit _ 15 m))
