-- ===== src/Analysis/Hypotheses.antt =====
-- code/pkg/analysis/classifier.go, steps 6 and 7 of `classify`: the hypotheses on the blast radius,
-- each with its verdict where the evidence meets the confidence floor.
pub mod Sound
pub mod Best
pub mod Alike
pub mod Searches
use cs331_t011_kubernetes_se.Common.{
  ℕ, ◌+◌, Bool, true, false, not, ◌&&◌, ◌||◌, Option, none, some, List, [], ◌∷◌, ◌++◌, ltb, ◌==◌,
  if◌then◌else◌, all,
}
use cs331_t011_kubernetes_se.Common.Int.{pos}
use cs331_t011_kubernetes_se.Go.Text.{Str, str, contains, decimal, sort_strings}
use cs331_t011_kubernetes_se.Go.Maps.{count_of}
use cs331_t011_kubernetes_se.Go.Floats.{Floats, quot}
use cs331_t011_kubernetes_se.Contract.{
  ProbeResult, Classification, pair_local_failure, node_ingress_failure, node_egress_failure,
  node_isolated, cluster_partition, policy_scoped, unknown, other, Verdict,
}
use cs331_t011_kubernetes_se.Analysis.Config.{Config}
use cs331_t011_kubernetes_se.Analysis.Scan.{FailedPair}
use cs331_t011_kubernetes_se.Analysis.Tallies.{Tallies}

-- The conditions on a node in the three loops, and how many failures it explains.
unfoldable pub isolated_node : Tallies → Str → Bool
isolated_node t n =
    count_of n t.row_failures == count_of n t.row_total
    && count_of n t.col_failures == count_of n t.col_total
    && ltb 0 (count_of n t.row_total)
    && ltb 0 (count_of n t.col_total)

unfoldable pub egress_node : Tallies → Str → Bool
egress_node t n =
    count_of n t.row_failures == count_of n t.row_total
    && ltb 0 (count_of n t.row_total)
    && (count_of n t.col_total == 0 || ltb (count_of n t.col_failures) (count_of n t.col_total))

unfoldable pub ingress_node : Tallies → Str → Bool
ingress_node t n =
    count_of n t.col_failures == count_of n t.col_total
    && ltb 0 (count_of n t.col_total)
    && (count_of n t.row_total == 0 || ltb (count_of n t.row_failures) (count_of n t.row_total))

module _ (fl : Floats) where
  unfoldable pub confidence_floor_of : Config fl.F → fl.F
  confidence_floor_of cfg =
      if fl.fle cfg.confidence_floor (fl.lit 0 0) then fl.lit 80 2 else cfg.confidence_floor

  abbrev pub zero_verdict : Verdict fl.F
  zero_verdict = record {
    class = other [];
    confidence = fl.lit 0 0;
    suspect_nodes = [];
    summary = [];
  }

  -- The loop that the three node hypotheses share: `bestVerdict` and `bestConf` after the nodes in
  -- the order visited.
  unfoldable pub best_node :
      (Str → Bool)
      → (Str → fl.F)
      → (Str → fl.F → Verdict fl.F)
      → List Str
      → Verdict fl.F × fl.F
      → Verdict fl.F × fl.F
  best_node test conf verdict [] best = best
  best_node test conf verdict (n ∷ nodes) best =
      best_node test conf verdict nodes
        (if test n && fl.flt best.1 (conf n) then (verdict n (conf n), conf n) else best)

  -- `if bestConf >= confidenceFloor { return bestVerdict }`
  unfoldable pub above_floor : fl.F → Verdict fl.F × fl.F → Option (Verdict fl.F)
  above_floor floor best = if fl.fle floor best.1 then some best.0 else none

  module _ (t : Tallies) (total_failed : ℕ) where
    -- 6b: the share of failures explained, at most 1.
    unfoldable pub isolated_conf : Str → fl.F
    isolated_conf n =
        let conf = quot fl (count_of n t.row_failures + count_of n t.col_failures) total_failed in
        if fl.flt (fl.lit 1 0) conf then fl.lit 1 0 else conf

    unfoldable pub isolated_verdict : Str → fl.F → Verdict fl.F
    isolated_verdict n conf = record {
      class = node_isolated;
      confidence = conf;
      suspect_nodes = n ∷ [];
      summary =
          str "node "
          ++ n
          ++ str " is fully isolated: all "
          ++ decimal (count_of n t.col_failures)
          ++ str " incoming and "
          ++ decimal (count_of n t.row_failures)
          ++ str " outgoing probes failed";
    }

    -- 6c
    unfoldable pub egress_conf : Str → fl.F
    egress_conf n = quot fl (count_of n t.row_failures) total_failed

    unfoldable pub egress_verdict : Str → fl.F → Verdict fl.F
    egress_verdict n conf = record {
      class = node_egress_failure;
      confidence = conf;
      suspect_nodes = n ∷ [];
      summary =
          str "node "
          ++ n
          ++ str " egress failure: all "
          ++ decimal (count_of n t.row_failures)
          ++ str " outgoing probes failed";
    }

    -- 6d
    unfoldable pub ingress_conf : Str → fl.F
    ingress_conf n = quot fl (count_of n t.col_failures) total_failed

    unfoldable pub ingress_verdict : Str → fl.F → Verdict fl.F
    ingress_verdict n conf = record {
      class = node_ingress_failure;
      confidence = conf;
      suspect_nodes = n ∷ [];
      summary =
          str "node "
          ++ n
          ++ str " ingress failure: all "
          ++ decimal (count_of n t.col_failures)
          ++ str " incoming probes failed";
    }

    -- The loops over the nodes, in the order visited, with the test of the floor behind each.
    unfoldable pub find_isolated : fl.F → List Str → Option (Verdict fl.F)
    find_isolated floor nodes = above_floor floor (
        best_node (isolated_node t) isolated_conf isolated_verdict nodes (zero_verdict, fl.lit 0 0))

    unfoldable pub find_egress : fl.F → List Str → Option (Verdict fl.F)
    find_egress floor nodes =
        above_floor floor
          (best_node (egress_node t) egress_conf egress_verdict nodes (zero_verdict, fl.lit 0 0))

    unfoldable pub find_ingress : fl.F → List Str → Option (Verdict fl.F)
    find_ingress floor nodes =
        above_floor floor
          (best_node (ingress_node t) ingress_conf ingress_verdict nodes (zero_verdict, fl.lit 0 0))

  -- 6a
  unfoldable pub find_pair_local : Tallies → List FailedPair → Option (Verdict fl.F)
  find_pair_local t (fp ∷ []) =
      if ltb (count_of fp.src t.row_failures) (count_of fp.src t.row_total)
        && ltb (count_of fp.dst t.col_failures) (count_of fp.dst t.col_total)
      then some (record {
        class = pair_local_failure;
        confidence = fl.lit 1 0;
        suspect_nodes = sort_strings (fp.src ∷ fp.dst ∷ []);
        summary = str "single pair failure: " ++ fp.key;
      })
      else none
  find_pair_local t _ = none

  -- 6e; `nodes` is in the order visited
  unfoldable pub find_policy_scoped :
      ℕ → ℕ → List (Str × ProbeResult fl.F) → List Str → Option (Verdict fl.F)
  find_policy_scoped total_failed total_pairs m nodes =
      if total_failed == total_pairs && all (λ e. contains e.1.error (str "refused")) m
      then some (record {
        class = policy_scoped;
        confidence = fl.lit 1 0;
        suspect_nodes = sort_strings nodes;
        summary =
            str "all probes failed with connection refused; likely network policy or firewall rule";
      })
      else none

  -- 6f
  unfoldable pub find_partition : fl.F → ℕ → ℕ → List Str → Option (Verdict fl.F)
  find_partition floor total_failed total_pairs nodes =
      let conf = quot fl total_failed total_pairs in
      if fl.fle floor conf
      then some (record {
        class = cluster_partition;
        confidence = conf;
        suspect_nodes = sort_strings nodes;
        summary =
            str "cluster partition: "
            ++ decimal total_failed
            ++ str " of "
            ++ decimal total_pairs
            ++ str " probes failed ("
            ++ fl.format 0 (fl.fmul conf (fl.lit 100 0))
            ++ str "%)";
      })
      else none

  -- 7
  unfoldable pub no_hypothesis : fl.F → ℕ → ℕ → Verdict fl.F
  no_hypothesis floor total_failed total_pairs = record {
    class = unknown;
    confidence = quot fl total_failed total_pairs;
    suspect_nodes = [];
    summary =
        decimal total_failed
        ++ str " of "
        ++ decimal total_pairs
        ++ str " probes failed; no hypothesis exceeds confidence floor "
        ++ fl.format 2 floor;
  }
