-- ===== src/Analysis/Classifier/Rows.antt =====
-- From the tallies of a node to the pairs that it is an end of.
use cs331_t011_kubernetes_se.Common.{
  ◌<◌, ◌≡◌, refl, sym, ap, ◌∙◌, ◌⊎◌, inl, inr, Bool, true, not, ◌&&◌, Option, none, some, List, [],
  ◌∷◌, arith, length, count_if, count_if_full, count_if_pos, mem_of_count_if, mem_of_count_if_lt,
}
use cs331_t011_kubernetes_se.Go.Text.{Str, str_eq, str_eq_refl, split_arrow, sort_strings}
use cs331_t011_kubernetes_se.Go.Maps.{MapOrder, count_of}
use cs331_t011_kubernetes_se.Go.Floats.{Floats}
use cs331_t011_kubernetes_se.Contract.{Matrix, Verdict, pair_local_failure}
use cs331_t011_kubernetes_se.Analysis.Config.{Config}
use cs331_t011_kubernetes_se.Analysis.Scan.{FailedPair, loss_threshold}
use cs331_t011_kubernetes_se.Analysis.Counts.{failed_as}
use cs331_t011_kubernetes_se.Analysis.Tallies.{Tallies}
use cs331_t011_kubernetes_se.Analysis.Hypotheses.{
  isolated_node, egress_node, ingress_node, find_pair_local,
}
use cs331_t011_kubernetes_se.Analysis.Classifier.{tally}
use cs331_t011_kubernetes_se.Analysis.Evidence.{on_ends, source_is, dest_is, Entry}
use cs331_t011_kubernetes_se.Analysis.Tallied.{
  failed_list, count-failed_list, length-failed_list, row_total_lem, col_total_lem,
  row_failures_lem, col_failures_lem,
}
use cs331_t011_kubernetes_se.Analysis.Justified.{
  Every, Exists, failures, failed, from_node, to_node, RowDown, ColDown, RowUp, ColUp,
}

module _ (fl : Floats) (m : Matrix fl.F) (p : Entry fl → Bool) where
  down :
      count_if (λ e. p e && failed fl m e) m ≡ count_if p m
      → 0 < count_if p m
      → Every fl m p (failed fl m) × Exists fl m p
  down same some_pair = (count_if_full p (failed fl m) m same, mem_of_count_if p m some_pair)

  up :
      (count_if p m ≡ 0) ⊎ (count_if (λ e. p e && failed fl m e) m < count_if p m)
      → (¬ Exists fl m p) ⊎ Exists fl m (λ e. p e && e.1.success)
  up (inl zero_pairs) = inl (λ (e, i, h). let pos = count_if_pos p m i h in omega arith)
  up (inr fewer) = inr (mem_of_count_if_lt p (λ e. e.1.success) m fewer)

on_both :
    (fp : FailedPair) (success : Bool) (o : Option (Str × Str))
    → on_ends (λ s d. not success && (str_eq s fp.src && str_eq d fp.dst)) o ≡ true
    → (on_ends (λ s d. str_eq s fp.src) o && on_ends (λ s d. str_eq d fp.dst) o && not success)
      ≡ true
on_both fp success none h = h
on_both fp success (some (s, d)) h = ground arith

-- What a verdict of step 6a says of the one failed pair.
pub pair_local-eq-some :
    (fl : Floats) (t : Tallies) (l : List FailedPair) (v : Verdict fl.F)
    → find_pair_local fl t l ≡ some v
    → (fp : FailedPair) × (l ≡ fp ∷ [])
      × (count_of fp.src t.row_failures < count_of fp.src t.row_total)
      × (count_of fp.dst t.col_failures < count_of fp.dst t.col_total)
      × (v.class ≡ pair_local_failure)
      × (v.confidence ≡ fl.lit 1 0)
      × (v.suspect_nodes ≡ sort_strings (fp.src ∷ fp.dst ∷ []))
unfolding find_pair_local
pair_local-eq-some fl t [] v h = absurd (ground arith)
pair_local-eq-some fl t (fp ∷ []) v h =
    (fp, refl, ground arith, ground arith, ground arith, ground arith, ground arith)
pair_local-eq-some fl t (fp ∷ fp' ∷ l) v h = absurd (ground arith)

module _ (rt : MapOrder) (fl : Floats) (cfg : Config fl.F) (m : Matrix fl.F) where
  abbrev t : Tallies
  t = tally rt fl m (failed_list rt fl cfg m)

  module _ (n : Str) where
    pub isolated-down : isolated_node t n ≡ true → RowDown fl m n × ColDown fl m n
    unfolding isolated_node
    isolated-down h = (
      down fl m (from_node fl m n)
          (ground (arith, row_total_lem rt fl cfg m n, row_failures_lem rt fl cfg m n))
          (ground (arith, row_total_lem rt fl cfg m n)),
      down fl m (to_node fl m n)
          (ground (arith, col_total_lem rt fl cfg m n, col_failures_lem rt fl cfg m n))
          (ground (arith, col_total_lem rt fl cfg m n)),
    )

    pub egress-down : egress_node t n ≡ true → RowDown fl m n × ColUp fl m n
    unfolding egress_node
    egress-down h = (
      down fl m (from_node fl m n)
          (ground (arith, row_total_lem rt fl cfg m n, row_failures_lem rt fl cfg m n))
          (ground (arith, row_total_lem rt fl cfg m n)),
      up fl m (to_node fl m n)
          (ground (arith, col_total_lem rt fl cfg m n, col_failures_lem rt fl cfg m n)),
    )

    pub ingress-down : ingress_node t n ≡ true → ColDown fl m n × RowUp fl m n
    unfolding ingress_node
    ingress-down h = (
      down fl m (to_node fl m n)
          (ground (arith, col_total_lem rt fl cfg m n, col_failures_lem rt fl cfg m n))
          (ground (arith, col_total_lem rt fl cfg m n)),
      up fl m (from_node fl m n)
          (ground (arith, row_total_lem rt fl cfg m n, row_failures_lem rt fl cfg m n)),
    )

  -- The one failed pair, found in the matrix.
  failed_entry :
      (fp : FailedPair)
      → failed_list rt fl cfg m ≡ fp ∷ []
      → Exists fl m (λ e. source_is fp.src e.0 && dest_is fp.dst e.0 && failed fl m e)
  failed_entry fp only =
      let test : FailedPair → Bool = λ q. str_eq q.src fp.src && str_eq q.dst fp.dst in
      let counted = count-failed_list rt fl cfg m test in
      let one : 0 < count_if test (failed_list rt fl cfg m) =
        ground (arith, ap (count_if test) only, str_eq_refl fp.src, str_eq_refl fp.dst) in
      let (e, i, h) =
        mem_of_count_if (failed_as fl (loss_threshold fl cfg) test) m (omega (arith, counted)) in
      (e, i, on_both fp e.1.success (split_arrow e.0) h)

  pub pair_local-evidence :
      (v : Verdict fl.F)
      → find_pair_local fl t (failed_list rt fl cfg m) ≡ some v
      → (v.class ≡ pair_local_failure)
        × (failures fl m ≡ 1)
        × (s : Str) × (d : Str) × (v.suspect_nodes ≡ sort_strings (s ∷ d ∷ []))
        × Exists fl m (λ e. source_is s e.0 && dest_is d e.0 && failed fl m e)
        × Exists fl m (λ e. source_is s e.0 && e.1.success)
        × Exists fl m (λ e. dest_is d e.0 && e.1.success)
  pair_local-evidence v h =
      let (fp, only, row, col, class, conf, suspects) = pair_local-eq-some fl t _ v h in
      let n : failures fl m ≡ 1 = sym (length-failed_list rt fl cfg m) ∙ ap length only in
      (
        class,
        n,
        fp.src,
        fp.dst,
        suspects,
        failed_entry fp only,
        mem_of_count_if_lt (from_node fl m fp.src) (λ e. e.1.success) m
            (omega (arith, row_total_lem rt fl cfg m fp.src, row_failures_lem rt fl cfg m fp.src)),
        mem_of_count_if_lt (to_node fl m fp.dst) (λ e. e.1.success) m
            (omega (arith, col_total_lem rt fl cfg m fp.dst, col_failures_lem rt fl cfg m fp.dst)),
      )
