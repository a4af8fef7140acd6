-- ===== src/Analysis/Classifier/Orders.antt =====
-- What the order in which the loops visit the maps cannot change of the classifier's verdict.
pub mod Steps
pub mod Suspects
use cs331_t011_kubernetes_se.Common.{
  ℕ, suc, ◌+◌, ◌<◌, ◌≤◌, ◌≡◌, ◌≢◌, refl, sym, ap, ap₂, ◌∙◌, Bool, true, false, not, ◌&&◌, Option,
  none, some, List, [], ◌∷◌, Permᴰ, arith, length, any, all, count_if, count_if-le-length, any-perm,
  all-perm, ltb, inl, inr, Bool-cases, if◌then◌else◌,
}
use mathlib.Core.List.Permᴰ
use mathlib.Core.Path.{subst}
use cs331_t011_kubernetes_se.Go.Text.{Str, str, str_eq, str_eq_refl, eq_of_str_eq, contains}
use cs331_t011_kubernetes_se.Go.Maps.{MapOrder, has, count_of}
use cs331_t011_kubernetes_se.Go.Floats.{Floats, FloatLaws, quot, quot_limit}
use cs331_t011_kubernetes_se.Contract.{Matrix, Verdict}
use cs331_t011_kubernetes_se.Analysis.Config.{Config}
use cs331_t011_kubernetes_se.Analysis.Scan.{FailedPair, has_agent_error, loss_threshold}
use cs331_t011_kubernetes_se.Analysis.Tallies.{Tallies}
use cs331_t011_kubernetes_se.Analysis.Evidence.{
  Entry, source_is, dest_is, end_is, failed_pair, degraded_pair,
}
use cs331_t011_kubernetes_se.Analysis.Tallied.{
  failed_list, count-failed_list, length-failed_list, length-degraded, has-nodes_of, row_total_lem,
  col_total_lem, row_failures_lem, col_failures_lem,
}
use cs331_t011_kubernetes_se.Analysis.Hypotheses.{
  confidence_floor_of, find_pair_local, find_isolated, find_egress, find_ingress,
  find_policy_scoped, find_partition, no_hypothesis,
}
use cs331_t011_kubernetes_se.Analysis.Hypotheses.Alike.{Alike, BothAlike}
use cs331_t011_kubernetes_se.Analysis.Hypotheses.Searches.{
  SameCounts, FewFailures, isolated-BothAlike, egress-BothAlike, ingress-BothAlike,
}
use cs331_t011_kubernetes_se.Analysis.Classifier.{
  first_some, hypotheses, empty_verdict, agent_error_verdict, loss_verdict, tally, diagnose, judge,
  buckets, nodes_of, classify,
}
use cs331_t011_kubernetes_se.Analysis.Classifier.Found.{floor_positive}
use cs331_t011_kubernetes_se.Analysis.Classifier.Orders.Suspects.{
  sorted_nodes-same, sorted_degraded-same,
}
use cs331_t011_kubernetes_se.Analysis.Classifier.Orders.Steps.{
  AllAlike, first_some-Alike, one_refl, zero_refl, quot_refl, pair_local-BothAlike,
  policy-BothAlike, partition-BothAlike,
}

-- The same matrix in two orders.
module _ (rt rt' : MapOrder) {fl : Floats} (laws : FloatLaws fl) (cfg : Config fl.F)
    (m : Matrix fl.F) (small : length m + length m < quot_limit) where
  tally-SameCounts :
      SameCounts
        (tally rt fl m (failed_list rt fl cfg m))
        (tally rt' fl m (failed_list rt' fl cfg m))
  unfolding SameCounts
  tally-SameCounts n = (
    row_failures_lem rt fl cfg m n ∙ sym (row_failures_lem rt' fl cfg m n),
    col_failures_lem rt fl cfg m n ∙ sym (col_failures_lem rt' fl cfg m n),
    row_total_lem rt fl cfg m n ∙ sym (row_total_lem rt' fl cfg m n),
    col_total_lem rt fl cfg m n ∙ sym (col_total_lem rt' fl cfg m n),
  )

  tally-FewFailures : (o : MapOrder) → FewFailures (tally o fl m (failed_list o fl cfg m))
  unfolding FewFailures
  tally-FewFailures o n = omega (
    arith,
    row_failures_lem o fl cfg m n,
    col_failures_lem o fl cfg m n,
    count_if-le-length (λ e. source_is n e.0 && not e.1.success) m,
    count_if-le-length (λ e. dest_is n e.0 && not e.1.success) m,
  )

  same_members :
      (k k' : ℕ) (n : Str)
      → has n (rt.visit Str k (nodes_of rt fl m)) ≡ has n (rt'.visit Str k' (nodes_of rt' fl m))
  same_members k k' n =
      any-perm (λ x. str_eq x n) (rt.visit_perm Str k (nodes_of rt fl m))
      ∙ has-nodes_of rt fl cfg m n
      ∙ sym (has-nodes_of rt' fl cfg m n)
      ∙ sym (any-perm (λ x. str_eq x n) (rt'.visit_perm Str k' (nodes_of rt' fl m)))

  same_total : length (failed_list rt' fl cfg m) ≡ length (failed_list rt fl cfg m)
  same_total = length-failed_list rt' fl cfg m ∙ sym (length-failed_list rt fl cfg m)

  -- The steps of one order, with the number of failures apart.
  steps : MapOrder → ℕ → List (Option (Verdict fl.F))
  steps o total =
      let t = tally o fl m (failed_list o fl cfg m) in
      let nodes = nodes_of o fl m in
      let floor = confidence_floor_of fl cfg in
      find_pair_local fl t (failed_list o fl cfg m)
      ∷ find_isolated fl t total floor (o.visit Str 6 nodes)
      ∷ find_egress fl t total floor (o.visit Str 7 nodes)
      ∷ find_ingress fl t total floor (o.visit Str 8 nodes)
      ∷ find_policy_scoped fl total (length m) (o.visit _ 9 m) (o.visit Str 10 nodes)
      ∷ find_partition fl floor total (length m) (o.visit Str 11 nodes)
      ∷ []

  module _ (some_failed : 0 < length (failed_list rt fl cfg m)) where
    total-le : length (failed_list rt fl cfg m) ≤ length m
    total-le = omega (arith, length-failed_list rt fl cfg m, count_if-le-length (failed_pair fl) m)

    total_refl :
        let share = quot fl (length (failed_list rt fl cfg m)) (length m) in
        fl.fle share share ≡ true
    total_refl = let few = total-le in quot_refl laws _ _ (omega arith) (omega arith) (omega arith)

    steps-AllAlike :
        AllAlike fl
          (steps rt (length (failed_list rt fl cfg m)))
          (steps rt' (length (failed_list rt fl cfg m)))
    unfolding steps AllAlike
    steps-AllAlike =
        let few = total-le in
        let below : length (failed_list rt fl cfg m) < quot_limit = omega arith in
        let floor = confidence_floor_of fl cfg in
        let high = floor_positive cfg laws in
        let t = tally rt fl m (failed_list rt fl cfg m) in
        let u = tally rt' fl m (failed_list rt' fl cfg m) in
        let same = tally-SameCounts in
        (
          pair_local-BothAlike laws t u _ _ same (sym same_total)
              (λ p. count-failed_list rt fl cfg m p ∙ sym (count-failed_list rt' fl cfg m p)),
          (
            isolated-BothAlike laws some_failed below floor high t u (tally-FewFailures rt)
                (tally-FewFailures rt') same _ _ (same_members 6 6),
            (
              egress-BothAlike laws some_failed below floor high t u (tally-FewFailures rt)
                  (tally-FewFailures rt') same _ _ (same_members 7 7),
              (
                ingress-BothAlike laws some_failed below floor high t u (tally-FewFailures rt)
                    (tally-FewFailures rt') same _ _ (same_members 8 8),
                (
                  policy-BothAlike laws _ _ _ _ _ _
                      (Permᴰ.trans (rt.visit_perm _ 9 m) (Permᴰ.symm (rt'.visit_perm _ 9 m)))
                      (sorted_nodes-same rt rt' fl cfg m 10 10),
                  (
                    partition-BothAlike laws floor _ _ _ _ total_refl
                        (sorted_nodes-same rt rt' fl cfg m 11 11),
                    tt,
                  ),
                ),
              ),
            ),
          ),
        )

    diagnose-Alike :
        Alike fl
          (diagnose rt fl cfg m (nodes_of rt fl m) (failed_list rt fl cfg m))
          (diagnose rt' fl cfg m (nodes_of rt' fl m) (failed_list rt' fl cfg m))
    unfolding diagnose steps no_hypothesis Alike
    diagnose-Alike =
        let floor = confidence_floor_of fl cfg in
        let total = length (failed_list rt fl cfg m) in
        subst
          (λ b.
            Alike fl (first_some (steps rt total) (no_hypothesis fl floor total (length m)))
              (first_some (steps rt' b) (no_hypothesis fl floor b (length m))))
          (sym same_total)
          (first_some-Alike fl _ _ _ _ steps-AllAlike (refl, total_refl, total_refl, λ _. refl))

  loss_verdict-Alike :
      (xs ys : List Str)
      → (buckets rt fl cfg m).degraded_summaries ≡ xs
      → (buckets rt' fl cfg m).degraded_summaries ≡ ys
      → Alike fl
          (loss_verdict rt fl (loss_threshold fl cfg) (length m) (buckets rt fl cfg m) xs)
          (loss_verdict rt' fl (loss_threshold fl cfg) (length m) (buckets rt' fl cfg m) ys)
  unfolding loss_verdict Alike
  loss_verdict-Alike [] [] e e' = (refl, one_refl laws, one_refl laws, λ _. refl)
  loss_verdict-Alike (x ∷ xs) (y ∷ ys) e e' =
      (refl, one_refl laws, one_refl laws, λ _. sorted_degraded-same rt rt' fl cfg m 4 4)
  loss_verdict-Alike [] (y ∷ ys) e e' =
      let l = ap length e in
      let l' = ap length e' in
      absurd (omega (arith, length-degraded rt fl cfg m, length-degraded rt' fl cfg m))
  loss_verdict-Alike (x ∷ xs) [] e e' =
      let l = ap length e in
      let l' = ap length e' in
      absurd (omega (arith, length-degraded rt fl cfg m, length-degraded rt' fl cfg m))

  judge-Alike :
      (xs ys : List FailedPair)
      → failed_list rt fl cfg m ≡ xs
      → failed_list rt' fl cfg m ≡ ys
      → Alike fl
          (judge rt fl cfg m (nodes_of rt fl m) (buckets rt fl cfg m) xs)
          (judge rt' fl cfg m (nodes_of rt' fl m) (buckets rt' fl cfg m) ys)
  unfolding judge
  judge-Alike [] [] e e' = loss_verdict-Alike _ _ refl refl
  judge-Alike [] (y ∷ ys) e e' =
      let l = ap length e in let l' = ap length e' in absurd (omega (arith, same_total))
  judge-Alike (x ∷ xs) [] e e' =
      let l = ap length e in let l' = ap length e' in absurd (omega (arith, same_total))
  judge-Alike (x ∷ xs) (y ∷ ys) e e' =
      let l = ap length e in
      subst
        (λ l.
          Alike fl (diagnose rt fl cfg m (nodes_of rt fl m) l)
            (diagnose rt' fl cfg m (nodes_of rt' fl m) (y ∷ ys)))
        e
        (subst
          (λ l.
            Alike fl (diagnose rt fl cfg m (nodes_of rt fl m) (failed_list rt fl cfg m))
              (diagnose rt' fl cfg m (nodes_of rt' fl m) l))
          e' (diagnose-Alike (omega arith)))

-- The class of the verdict and its confidence, up to comparison both ways, do not depend on the
-- order in which the loops visit the maps, if the matrix has fewer than 2^25 pairs; nor do the
-- suspects, unless the class is that of a node that is isolated, or fails in one direction.
pub classify-Alike :
    (rt rt' : MapOrder) {fl : Floats} (laws : FloatLaws fl) (cfg : Config fl.F) (m : Matrix fl.F)
    → length m + length m < quot_limit
    → Alike fl (classify rt fl m cfg) (classify rt' fl m cfg)
unfolding classify has_agent_error Alike empty_verdict agent_error_verdict
classify-Alike rt rt' laws cfg [] small = (refl, zero_refl laws, zero_refl laws, λ _. refl)
classify-Alike rt rt' {fl} laws cfg (e ∷ m) small =
    let guard = any-perm (λ (x : Entry fl). x.1.agent_error) (rt.visit_perm _ 2 (e ∷ m)) in
    let guard' = any-perm (λ (x : Entry fl). x.1.agent_error) (rt'.visit_perm _ 2 (e ∷ m)) in
    elim (Bool-cases (any (λ (x : Entry fl). x.1.agent_error) (e ∷ m))) [
      | inl bad ↦ rw (guard ∙ bad, guard' ∙ bad) (refl, zero_refl laws, zero_refl laws, λ _. refl)
      | inr ok ↦
          rw (guard ∙ ok, guard' ∙ ok) (judge-Alike rt rt' laws cfg (e ∷ m) small _ _ refl refl)
    ]
