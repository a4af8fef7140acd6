-- ===== src/Analysis/Classifier/Soundness.antt =====
-- The evidence behind the classifier's verdicts, hypothesis by hypothesis.
use cs331_t011_kubernetes_se.Common.{
  ℕ, ◌≡◌, refl, sym, ap, ◌∙◌, ◌≢◌, inl, inr, none, some, List, [], ◌∷◌, length, all-perm, all_at,
  eq_nil_of_length, Bool-cases,
}
use mathlib.Core.Path.{subst}
use cs331_t011_kubernetes_se.Go.Text.{Str, str, contains}
use cs331_t011_kubernetes_se.Go.Maps.{MapOrder}
use cs331_t011_kubernetes_se.Go.Floats.{Floats, quot, FloatLaws}
use cs331_t011_kubernetes_se.Contract.{Matrix, Verdict, Classification}
use cs331_t011_kubernetes_se.Analysis.Config.{Config}
use cs331_t011_kubernetes_se.Analysis.Scan.{FailedPair, has_agent_error}
use cs331_t011_kubernetes_se.Analysis.Tallies.{Tallies}
use cs331_t011_kubernetes_se.Analysis.Hypotheses.{
  confidence_floor_of, isolated_verdict, egress_verdict, ingress_verdict, find_pair_local,
  find_isolated, find_egress, find_ingress, find_policy_scoped, find_partition, no_hypothesis,
}
use cs331_t011_kubernetes_se.Analysis.Hypotheses.Sound.{
  find_isolated_sound, find_egress_sound, find_ingress_sound,
}
use cs331_t011_kubernetes_se.Analysis.Evidence.{Entry}
use cs331_t011_kubernetes_se.Analysis.Tallied.{failed_list, length-failed_list}
use cs331_t011_kubernetes_se.Analysis.Justified.{
  NoAgentError, failures, failed_share, Because, Justified,
}
use cs331_t011_kubernetes_se.Analysis.Classifier.{
  hypotheses, empty_verdict, agent_error_verdict, tally, diagnose, judge, buckets, nodes_of,
  classify,
}
use cs331_t011_kubernetes_se.Analysis.Classifier.Rows.{
  isolated-down, egress-down, ingress-down, pair_local-evidence,
}
use cs331_t011_kubernetes_se.Analysis.Classifier.Found.{
  first_some_elim, floor_positive, policy-eq-some, partition-eq-some, partition-eq-none,
  no_agent_error, some_agent_error, loss_verdict-Justified,
}

module _ (rt : MapOrder) {fl : Floats} (laws : FloatLaws fl) (cfg : Config fl.F)
    (m : Matrix fl.F) where
  open rt use {visit, visit_perm}

  by_class :
      {c : Classification} (v : Verdict fl.F)
      → v.class ≡ c
      → Because fl m cfg c v
      → Justified fl m cfg v
  by_class v e because = subst (λ c. Because fl m cfg c v) (sym e) because

  total_failed : length (failed_list rt fl cfg m) ≡ failures fl m
  total_failed = length-failed_list rt fl cfg m

  module _ (clean : NoAgentError fl m) (v : Verdict fl.F) where
    abbrev t : Tallies
    t = tally rt fl m (failed_list rt fl cfg m)

    abbrev total : ℕ
    total = length (failed_list rt fl cfg m)

    abbrev floor : fl.F
    floor = confidence_floor_of fl cfg

    pair_local-Justified :
        find_pair_local fl t (failed_list rt fl cfg m) ≡ some v → Justified fl m cfg v
    pair_local-Justified h =
        let (e, n, s, d, suspects, one, row, col) = pair_local-evidence rt fl cfg m v h in
        by_class v e (clean, n, s, d, suspects, one, row, col)

    isolated-Justified :
        (nodes : List Str) → find_isolated fl t total floor nodes ≡ some v → Justified fl m cfg v
    unfolding isolated_verdict
    isolated-Justified nodes h =
        let (n, test, e, _) =
          find_isolated_sound fl t total floor nodes (floor_positive cfg laws) h in
        let (row, col) = isolated-down rt fl cfg m n test in
        by_class v (ap (λ x. x.class) e) (clean, n, ap (λ x. x.suspect_nodes) e, row, col)

    egress-Justified :
        (nodes : List Str) → find_egress fl t total floor nodes ≡ some v → Justified fl m cfg v
    unfolding egress_verdict
    egress-Justified nodes h =
        let (n, test, e, _) =
          find_egress_sound fl t total floor nodes (floor_positive cfg laws) h in
        let (row, col) = egress-down rt fl cfg m n test in
        by_class v (ap (λ x. x.class) e) (clean, n, ap (λ x. x.suspect_nodes) e, row, col)

    ingress-Justified :
        (nodes : List Str) → find_ingress fl t total floor nodes ≡ some v → Justified fl m cfg v
    unfolding ingress_verdict
    ingress-Justified nodes h =
        let (n, test, e, _) =
          find_ingress_sound fl t total floor nodes (floor_positive cfg laws) h in
        let (col, row) = ingress-down rt fl cfg m n test in
        by_class v (ap (λ x. x.class) e) (clean, n, ap (λ x. x.suspect_nodes) e, col, row)

    policy-Justified :
        (nodes : List Str)
        → find_policy_scoped fl total (length m) (visit _ 9 m) nodes ≡ some v
        → Justified fl m cfg v
    policy-Justified nodes h =
        let (e, _, same, refused) = policy-eq-some fl total (length m) (visit _ 9 m) nodes v h in
        by_class v e (
          clean,
          sym total_failed ∙ same,
          λ x i _.
              all_at (λ (y : Entry fl). contains y.1.error (str "refused")) m
                (sym (
                    all-perm (λ (y : Entry fl). contains y.1.error (str "refused"))
                      (visit_perm _ 9 m))
                  ∙ refused)
                x i,
        )

    partition-Justified :
        (nodes : List Str)
        → find_partition fl floor total (length m) nodes ≡ some v
        → Justified fl m cfg v
    partition-Justified nodes h =
        let (e, conf, high) = partition-eq-some fl floor total (length m) nodes v h in
        let same : quot fl total (length m) ≡ failed_share fl m =
          ap (λ n. quot fl n (length m)) total_failed in
        by_class v e (clean, conf ∙ same, sym (ap (fl.fle floor) same) ∙ high)

  no_hypothesis-Justified :
      NoAgentError fl m
      → failed_list rt fl cfg m ≢ []
      → (nodes : List Str)
      → find_partition fl
          (confidence_floor_of fl cfg)
          (length (failed_list rt fl cfg m))
          (length m)
          nodes
        ≡ none
      → Justified fl m cfg (
          no_hypothesis fl
            (confidence_floor_of fl cfg)
            (length (failed_list rt fl cfg m))
            (length m))
  unfolding no_hypothesis
  no_hypothesis-Justified clean some_failed nodes missed =
      let same : quot fl (length (failed_list rt fl cfg m)) (length m) ≡ failed_share fl m =
        ap (λ n. quot fl n (length m)) total_failed in
      inr (
        clean,
        (λ z. some_failed (eq_nil_of_length _ (total_failed ∙ z))),
        same,
        sym (ap (fl.fle (confidence_floor_of fl cfg)) same)
            ∙ partition-eq-none fl _ _ _ nodes missed,
      )

  diagnose-Justified :
      NoAgentError fl m
      → failed_list rt fl cfg m ≢ []
      → (nodes : List Str)
      → Justified fl m cfg (diagnose rt fl cfg m nodes (failed_list rt fl cfg m))
  unfolding diagnose
  diagnose-Justified clean some_failed nodes =
      first_some_elim (Justified fl m cfg) (hypotheses rt fl cfg m nodes (failed_list rt fl cfg m))
        (no_hypothesis fl (confidence_floor_of fl cfg) (length (failed_list rt fl cfg m))
          (length m))
        (
          pair_local-Justified clean,
          (
            λ v. isolated-Justified clean v _,
            (
              λ v. egress-Justified clean v _,
              (
                λ v. ingress-Justified clean v _,
                (λ v. policy-Justified clean v _, (λ v. partition-Justified clean v _, tt)),
              ),
            ),
          ),
        )
        (λ missed. no_hypothesis-Justified clean some_failed _ missed.1.1.1.1.1.0)

  judge-Justified :
      (failed : List FailedPair)
      → failed_list rt fl cfg m ≡ failed
      → m ≢ []
      → NoAgentError fl m
      → (nodes : List Str)
      → Justified fl m cfg (judge rt fl cfg m nodes (buckets rt fl cfg m) failed)
  unfolding judge
  judge-Justified [] same some_entry clean nodes =
      loss_verdict-Justified rt laws cfg m (buckets rt fl cfg m).degraded_summaries refl same
        some_entry clean
  judge-Justified (fp ∷ rest) same some_entry clean nodes =
      subst (λ l. Justified fl m cfg (diagnose rt fl cfg m nodes l)) same
        (diagnose-Justified clean (λ e. cc) nodes)

-- Whatever the order in which the maps are visited, the class of the verdict comes with its
-- evidence in the matrix: which pairs failed or lost too much, which node is down in which
-- direction, that no agent failed, how large the share of failures is.
pub classify-Justified :
    (rt : MapOrder) {fl : Floats} (laws : FloatLaws fl) (cfg : Config fl.F) (m : Matrix fl.F)
    → Justified fl m cfg (classify rt fl m cfg)
unfolding classify empty_verdict agent_error_verdict
classify-Justified rt laws cfg [] = refl
classify-Justified rt {fl} laws cfg (e ∷ m) =
    elim (Bool-cases (has_agent_error fl (rt.visit _ 2 (e ∷ m)))) [
      | inl bad ↦ rw bad (inl (some_agent_error rt laws cfg (e ∷ m) bad, refl))
      | inr ok ↦ rw ok (
          judge-Justified rt laws cfg (e ∷ m) (failed_list rt fl cfg (e ∷ m)) refl (λ nil. cc)
            (no_agent_error rt laws cfg (e ∷ m) ok) (nodes_of rt fl (e ∷ m)))
    ]
