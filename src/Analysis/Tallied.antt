-- ===== src/Analysis/Tallied.antt =====
-- The buckets and the tallies of a whole matrix, whatever the order in which the loops visit it,
-- are the counts of the evidence.
use cs331_t011_kubernetes_se.Common.{
  ◌≡◌, refl, sym, ap, ◌∙◌, Bool, true, not, ◌&&◌, Option, none, some, List, [], arith, length, any,
  count_if, count_if-true, count_if-congr, count_if-perm, any-perm,
}
use cs331_t011_kubernetes_se.Go.Text.{Str, str_eq, split_arrow}
use cs331_t011_kubernetes_se.Go.Maps.{MapOrder, get?, count_of, has}
use cs331_t011_kubernetes_se.Go.Floats.{Floats}
use cs331_t011_kubernetes_se.Contract.{Matrix}
use cs331_t011_kubernetes_se.Analysis.Config.{Config}
use cs331_t011_kubernetes_se.Analysis.Scan.{FailedPair, no_buckets, loss_threshold, is_degraded}
use cs331_t011_kubernetes_se.Analysis.Tallies.{no_tallies, count_pairs}
use cs331_t011_kubernetes_se.Analysis.Classifier.{tally, buckets, nodes_of}
use cs331_t011_kubernetes_se.Analysis.Evidence.{
  on_ends, source_is, dest_is, end_is, Entry, failed_pair, degraded_pair,
}
use cs331_t011_kubernetes_se.Analysis.Counts.{
  has-collect_nodes, failed_as, count-fill_buckets, degraded-fill_buckets, has-fill_buckets,
  count-count_pairs, count-count_failed,
}

-- The tests on the two ends, joined with the failure, in either order.
on_ends-and :
    (test : Str → Str → Bool) (b : Bool) (o : Option (Str × Str))
    → on_ends (λ s d. not b && test s d) o ≡ (on_ends test o && not b)
on_ends-and test b none = refl
on_ends-and test b (some (s, d)) = ground arith

module _ (rt : MapOrder) (fl : Floats) (cfg : Config fl.F) (m : Matrix fl.F) where
  open rt use {visit, visit_perm}

  abbrev pub failed_list : List FailedPair
  failed_list = (buckets rt fl cfg m).failed

  pub count-failed_list :
      (p : FailedPair → Bool)
      → count_if p failed_list ≡ count_if (failed_as fl (loss_threshold fl cfg) p) m
  unfolding buckets
  count-failed_list p = omega (
    arith,
    count-fill_buckets fl (loss_threshold fl cfg) p (visit _ 3 m) no_buckets,
    count_if-perm (failed_as fl (loss_threshold fl cfg) p) (visit_perm _ 3 m),
  )

  pub length-failed_list : length failed_list ≡ count_if (failed_pair fl) m
  length-failed_list =
      sym (count_if-true failed_list)
      ∙ count-failed_list (λ fp. true)
      ∙ count_if-congr _ _ m (λ e. on_ends-and (λ s d. true) e.1.success (split_arrow e.0))

  pub length-degraded :
      length (buckets rt fl cfg m).degraded_summaries
      ≡ count_if (degraded_pair fl (loss_threshold fl cfg)) m
  unfolding buckets
  length-degraded = omega (
    arith,
    degraded-fill_buckets fl (loss_threshold fl cfg) (visit _ 3 m) no_buckets,
    count_if-perm (degraded_pair fl (loss_threshold fl cfg)) (visit_perm _ 3 m),
  )

  pub has-degraded_nodes :
      (n : Str)
      → has n (buckets rt fl cfg m).degraded_nodes
        ≡ any (λ e. end_is n e.0 && is_degraded fl e.1 (loss_threshold fl cfg)) m
  unfolding buckets
  has-degraded_nodes n = ground (
    arith,
    has-fill_buckets fl (loss_threshold fl cfg) n (visit _ 3 m) no_buckets,
    any-perm (λ e. end_is n e.0 && is_degraded fl e.1 (loss_threshold fl cfg)) (visit_perm _ 3 m),
  )

  pub has-nodes_of : (n : Str) → has n (nodes_of rt fl m) ≡ any (λ e. end_is n e.0) m
  unfolding nodes_of
  has-nodes_of n = ground (
    arith,
    has-collect_nodes n (visit _ 1 m) [],
    any-perm (λ (e : Entry fl). end_is n e.0) (visit_perm _ 1 m),
  )

  -- The counts of a node in the tallies.
  module _ (n : Str) where
    abbrev pub from_node : Entry fl → Bool
    from_node e = source_is n e.0

    abbrev pub to_node : Entry fl → Bool
    to_node e = dest_is n e.0

    pub row_total_lem : count_of n (tally rt fl m failed_list).row_total ≡ count_if from_node m
    unfolding tally get?
    row_total_lem =
        let t = count_pairs (visit _ 5 m) no_tallies in
        let e = ap (count_of n) (count-count_failed n failed_list t).2 in
        omega (
          arith,
          (count-count_pairs n (visit _ 5 m) no_tallies).0,
          count_if-perm from_node (visit_perm _ 5 m),
        )

    pub col_total_lem : count_of n (tally rt fl m failed_list).col_total ≡ count_if to_node m
    unfolding tally get?
    col_total_lem =
        let t = count_pairs (visit _ 5 m) no_tallies in
        let e = ap (count_of n) (count-count_failed n failed_list t).3 in
        omega (
          arith,
          (count-count_pairs n (visit _ 5 m) no_tallies).1,
          count_if-perm to_node (visit_perm _ 5 m),
        )

    pub row_failures_lem :
        count_of n (tally rt fl m failed_list).row_failures
        ≡ count_if (λ e. from_node e && not e.1.success) m
    unfolding tally get?
    row_failures_lem =
        let t = count_pairs (visit _ 5 m) no_tallies in
        let e = ap (count_of n) (count-count_pairs n (visit _ 5 m) no_tallies).2 in
        let c : count_if (λ fp. str_eq fp.src n) failed_list
            ≡ count_if (λ e. from_node e && not e.1.success) m =
          count-failed_list (λ fp. str_eq fp.src n)
          ∙ count_if-congr _ _ m
              (λ e. on_ends-and (λ s d. str_eq s n) e.1.success (split_arrow e.0)) in
        omega (arith, (count-count_failed n failed_list t).0)

    pub col_failures_lem :
        count_of n (tally rt fl m failed_list).col_failures
        ≡ count_if (λ e. to_node e && not e.1.success) m
    unfolding tally get?
    col_failures_lem =
        let t = count_pairs (visit _ 5 m) no_tallies in
        let e = ap (count_of n) (count-count_pairs n (visit _ 5 m) no_tallies).3 in
        let c : count_if (λ fp. str_eq fp.dst n) failed_list
            ≡ count_if (λ e. to_node e && not e.1.success) m =
          count-failed_list (λ fp. str_eq fp.dst n)
          ∙ count_if-congr _ _ m
              (λ e. on_ends-and (λ s d. str_eq d n) e.1.success (split_arrow e.0)) in
        omega (arith, (count-count_failed n failed_list t).1)
