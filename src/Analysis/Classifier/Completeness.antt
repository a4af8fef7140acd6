-- ===== src/Analysis/Classifier/Completeness.antt =====
-- Which matrices are called healthy, degraded or unknown, and how sure a verdict is.
use cs331_t011_kubernetes_se.Common.{
  ◌≡◌, refl, ap, ◌∙◌, ◌≢◌, ◌⊎◌, inl, inr, Bool, true, false, ◌&&◌, List, [], ◌∷◌, arith, ◌==◌,
  if◌then◌else◌, length, any, any_none, any_of_mem, any-perm, count_if, count_if_zero,
  count_if_none, Option, none, some, sym, ◌||◌, eq_nil_of_length, Bool-cases,
}
use cs331_t011_kubernetes_se.Go.Text.{Str, any-sort_strings, str_eq, split_arrow}
use cs331_t011_kubernetes_se.Go.Maps.{MapOrder, has}
use cs331_t011_kubernetes_se.Go.Floats.{Floats, FloatLaws}
use cs331_t011_kubernetes_se.Contract.{
  Matrix, Verdict, Classification, healthy, degraded, unknown, no_data,
}
use cs331_t011_kubernetes_se.Analysis.Config.{Config}
use cs331_t011_kubernetes_se.Analysis.Scan.{
  FailedPair, Buckets, has_agent_error, loss_threshold, is_degraded,
}
use cs331_t011_kubernetes_se.Analysis.Hypotheses.{
  confidence_floor_of, no_hypothesis, isolated_verdict, egress_verdict, ingress_verdict,
}
use cs331_t011_kubernetes_se.Analysis.Hypotheses.Sound.{
  find_isolated_sound, find_egress_sound, find_ingress_sound,
}
use cs331_t011_kubernetes_se.Analysis.Evidence.{
  is_pair, end_is, on_ends, Entry, failed_pair, degraded_pair,
}
use cs331_t011_kubernetes_se.Analysis.Tallied.{
  failed_list, length-failed_list, length-degraded, has-degraded_nodes,
}
use cs331_t011_kubernetes_se.Analysis.Justified.{Every, Exists, NoAgentError}
use cs331_t011_kubernetes_se.Analysis.Classifier.{
  hypotheses, empty_verdict, agent_error_verdict, loss_verdict, diagnose, judge, buckets, classify,
}
use cs331_t011_kubernetes_se.Analysis.Classifier.Rows.{pair_local-eq-some}
use cs331_t011_kubernetes_se.Analysis.Classifier.Found.{
  first_some_elim, floor_positive, policy-eq-some, partition-eq-some,
}

module _ (rt : MapOrder) (fl : Floats) (cfg : Config fl.F) (m : Matrix fl.F) where
  open rt use {visit, visit_perm}

  abbrev pub verdict : Verdict fl.F
  verdict = classify rt fl m cfg

  guard_clean : NoAgentError fl m → has_agent_error fl (visit _ 2 m) ≡ false
  unfolding has_agent_error
  guard_clean clean =
      any-perm (λ (e : Entry fl). e.1.agent_error) (visit_perm _ 2 m)
      ∙ any_none (λ (e : Entry fl). e.1.agent_error) m
          (λ e i. let ok = clean e i refl in ground arith)

  guard_fires : Exists fl m (λ e. e.1.agent_error) → has_agent_error fl (visit _ 2 m) ≡ true
  unfolding has_agent_error
  guard_fires (e, i, h) =
      any-perm (λ (x : Entry fl). x.1.agent_error) (visit_perm _ 2 m)
      ∙ any_of_mem (λ (x : Entry fl). x.1.agent_error) m i h

  none_failed : Every fl m (λ e. is_pair e.0) (λ e. e.1.success) → failed_list rt fl cfg m ≡ []
  none_failed ok = eq_nil_of_length _ (
      length-failed_list rt fl cfg m ∙ count_if_zero (failed_pair fl) m (λ e i. pair_ok e (ok e i)))
    where
      pair_ok :
          (e : Entry fl) → (is_pair e.0 ≡ true → e.1.success ≡ true) → failed_pair fl e ≡ false
      pair_ok e h = ground (arith, h)

  -- Which class the losses of a matrix without failures call for.
  abbrev pub class_of_losses : Classification
  class_of_losses =
      if count_if (degraded_pair fl (loss_threshold fl cfg)) m == 0 then healthy else degraded

  -- The node is an end of a pair with too much loss.
  abbrev pub is_lossy_node : Str → Bool
  is_lossy_node n = any (λ e. end_is n e.0 && is_degraded fl e.1 (loss_threshold fl cfg)) m

  -- A verdict on a matrix without failures.
  abbrev pub OnLosses : Verdict fl.F → Type 0
  OnLosses v =
      (v.class ≡ class_of_losses)
      × (v.confidence ≡ fl.lit 1 0)
      × ((n : Str) → has n v.suspect_nodes ≡ is_lossy_node n)

  none_lossy :
      count_if (degraded_pair fl (loss_threshold fl cfg)) m ≡ 0
      → (n : Str) → is_lossy_node n ≡ false
  none_lossy no_loss n = any_none _ m (λ e i.
      end_quiet (split_arrow e.0) _
        (count_if_none (degraded_pair fl (loss_threshold fl cfg)) m no_loss e i))
    where
      end_quiet :
          (ends : Option (Str × Str)) (b : Bool)
          → (on_ends (λ s d. true) ends && b) ≡ false
          → (on_ends (λ s d. str_eq s n || str_eq d n) ends && b) ≡ false
      end_quiet none b h = refl
      end_quiet (some (s, d)) b h = ground (arith, h)

  loss_verdict-OnLosses :
      (summaries : List Str)
      → length summaries ≡ count_if (degraded_pair fl (loss_threshold fl cfg)) m
      → OnLosses
          (loss_verdict rt fl (loss_threshold fl cfg) (length m) (buckets rt fl cfg m) summaries)
  unfolding loss_verdict
  loss_verdict-OnLosses [] n = (ground arith, refl, λ k. sym (none_lossy (sym n) k))
  loss_verdict-OnLosses (s ∷ r) n = (
    ground arith,
    refl,
    λ k.
        any-sort_strings (λ x. str_eq x k) (visit Str 4 (buckets rt fl cfg m).degraded_nodes)
        ∙ any-perm (λ x. str_eq x k) (visit_perm Str 4 (buckets rt fl cfg m).degraded_nodes)
        ∙ has-degraded_nodes rt fl cfg m k,
  )

  judge-OnLosses :
      failed_list rt fl cfg m ≡ []
      → (nodes : List Str)
      → OnLosses (judge rt fl cfg m nodes (buckets rt fl cfg m) (failed_list rt fl cfg m))
  unfolding judge
  judge-OnLosses e nodes = rw (e, judge) (loss_verdict-OnLosses _ (length-degraded rt fl cfg m))

-- An entry with an agent error refuses every verdict on the data plane.
pub classify_agent_error :
    (rt : MapOrder) (fl : Floats) (cfg : Config fl.F) (m : Matrix fl.F)
    → Exists fl m (λ e. e.1.agent_error)
    → ((classify rt fl m cfg).class ≡ unknown)
      × ((classify rt fl m cfg).confidence ≡ fl.lit 0 0)
      × ((classify rt fl m cfg).suspect_nodes ≡ [])
unfolding classify agent_error_verdict
classify_agent_error rt fl cfg [] (e, i, h) = elim i [ ]
classify_agent_error rt fl cfg (x ∷ m) bad =
    let fires = guard_fires rt fl cfg (x ∷ m) bad in rw fires (refl, refl, refl)

-- A matrix in which every pair succeeded and no agent failed is healthy if every pair's loss is
-- below the threshold and else degraded, with full confidence, and the suspects are exactly the
-- ends of the pairs at or above the threshold.
pub classify_all_succeed :
    (rt : MapOrder) (fl : Floats) (cfg : Config fl.F) (m : Matrix fl.F)
    → m ≢ []
    → NoAgentError fl m
    → Every fl m (λ e. is_pair e.0) (λ e. e.1.success)
    → OnLosses rt fl cfg m (classify rt fl m cfg)
unfolding classify
classify_all_succeed rt fl cfg [] some_entry clean ok = absurd (some_entry refl)
classify_all_succeed rt fl cfg (x ∷ m) some_entry clean ok =
    let quiet = guard_clean rt fl cfg (x ∷ m) clean in
    rw quiet (judge-OnLosses rt fl cfg (x ∷ m) (none_failed rt fl cfg (x ∷ m) ok) _)

module _ (rt : MapOrder) {fl : Floats} (laws : FloatLaws fl) (cfg : Config fl.F) where
  abbrev floor : fl.F
  floor = confidence_floor_of fl cfg

  -- The verdict is no conclusion, or at or above the floor.
  abbrev pub IsSure : Verdict fl.F → Type 0
  IsSure v = (v.class ≡ unknown) ⊎ (v.class ≡ no_data) ⊎ (fl.fle floor v.confidence ≡ true)

  raise : {a b : fl.F} → a ≡ b → fl.fle floor b ≡ true → fl.fle floor a ≡ true
  raise e h = ap (fl.fle floor) e ∙ h

  diagnose-IsSure :
      fl.fle floor (fl.lit 1 0) ≡ true
      → (m : Matrix fl.F) (nodes : List Str) (failed : List FailedPair)
      → IsSure (diagnose rt fl cfg m nodes failed)
  unfolding diagnose isolated_verdict egress_verdict ingress_verdict no_hypothesis
  diagnose-IsSure top m nodes failed =
      let positive = floor_positive cfg laws in
      first_some_elim IsSure (hypotheses rt fl cfg m nodes failed)
        (no_hypothesis fl floor (length failed) (length m))
        (
          λ v h.
              let (_, _, _, _, _, conf, _) = pair_local-eq-some fl _ failed v h in
              inr (inr (raise conf top)),
          (
            λ v h.
                let (n, _, e, high) = find_isolated_sound fl _ _ floor _ positive h in
                inr (inr (raise (ap (λ x. x.confidence) e) high)),
            (
              λ v h.
                  let (n, _, e, high) = find_egress_sound fl _ _ floor _ positive h in
                  inr (inr (raise (ap (λ x. x.confidence) e) high)),
              (
                λ v h.
                    let (n, _, e, high) = find_ingress_sound fl _ _ floor _ positive h in
                    inr (inr (raise (ap (λ x. x.confidence) e) high)),
                (
                  λ v h.
                      let (_, conf, _, _) = policy-eq-some fl _ _ _ _ v h in
                      inr (inr (raise conf top)),
                  (
                    λ v h.
                        let (_, conf, high) = partition-eq-some fl floor _ _ _ v h in
                        inr (inr (raise conf high)),
                    tt,
                  ),
                ),
              ),
            ),
          ),
        )
        (λ _. inl refl)

  judge-IsSure :
      fl.fle floor (fl.lit 1 0) ≡ true
      → (m : Matrix fl.F) (nodes : List Str) (b : Buckets) (failed : List FailedPair)
      → IsSure (judge rt fl cfg m nodes b failed)
  unfolding judge
  judge-IsSure top m nodes b [] = loss_sure b.degraded_summaries
    where
      loss_sure :
          (s : List Str) → IsSure (loss_verdict rt fl (loss_threshold fl cfg) (length m) b s)
      loss_sure [] = inr (inr (unfold loss_verdict in top))
      loss_sure (s ∷ r) = inr (inr (unfold loss_verdict in top))
  judge-IsSure top m nodes b (fp ∷ rest) = diagnose-IsSure top m nodes (fp ∷ rest)

  -- Where the confidence floor is at most 1, every verdict but `unknown` and `no_data` is at or
  -- above the floor.
  pub classify-IsSure :
      (m : Matrix fl.F) → fl.fle floor (fl.lit 1 0) ≡ true → IsSure (classify rt fl m cfg)
  unfolding classify empty_verdict agent_error_verdict
  classify-IsSure [] top = inr (inl refl)
  classify-IsSure (e ∷ m) top = elim (Bool-cases (has_agent_error fl (rt.visit _ 2 (e ∷ m)))) [
    | inl bad ↦ rw bad (inl refl)
    | inr ok ↦ rw ok (judge-IsSure top (e ∷ m) _ _ _)
  ]
