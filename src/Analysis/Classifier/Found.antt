-- ===== src/Analysis/Classifier/Found.antt =====
-- What each step of the classifier that returns a verdict has found.
use cs331_t011_kubernetes_se.Common.{
  ℕ, ◌≡◌, refl, sym, ap, ◌∙◌, ◌≢◌, true, false, Option, none, some, List, [], ◌∷◌, arith, length,
  all, All, count_if_none, any-false, any-perm, mem_of_any, mem_of_count_if,
}
use cs331_t011_kubernetes_se.Go.Text.{Str, str, contains}
use cs331_t011_kubernetes_se.Go.Maps.{MapOrder}
use cs331_t011_kubernetes_se.Go.Floats.{Floats, quot, FloatLaws, eighty-not-le-zero}
use cs331_t011_kubernetes_se.Contract.{Matrix, Verdict, policy_scoped, cluster_partition}
use cs331_t011_kubernetes_se.Analysis.Config.{Config}
use cs331_t011_kubernetes_se.Analysis.Scan.{has_agent_error, loss_threshold}
use cs331_t011_kubernetes_se.Analysis.Hypotheses.{
  confidence_floor_of, find_policy_scoped, find_partition,
}
use cs331_t011_kubernetes_se.Analysis.Evidence.{is_pair, Entry, failed_pair, degraded_pair}
use cs331_t011_kubernetes_se.Analysis.Tallied.{failed_list, length-failed_list, length-degraded}
use cs331_t011_kubernetes_se.Analysis.Justified.{Every, Exists, NoAgentError, failures, Justified}
use cs331_t011_kubernetes_se.Analysis.Classifier.{first_some, loss_verdict, buckets}

-- A property of a verdict that comes from the first step that returns one.
pub first_some_elim {ℓ κ} :
    {A : Type ℓ} (P : A → Type κ) (os : List (Option A)) (rest : A)
    → All (λ o. (v : A) → o ≡ some v → P v) os
    → (All (λ o. o ≡ none) os → P rest)
    → P (first_some os rest)
first_some_elim P [] rest found next = next tt
first_some_elim P (none ∷ os) rest found next =
    first_some_elim P os rest found.1 (λ missed. next (refl, missed))
first_some_elim P (some v ∷ os) rest found next = found.0 v refl

pub floor_positive :
    {fl : Floats} (cfg : Config fl.F)
    → FloatLaws fl
    → fl.fle (confidence_floor_of fl cfg) (fl.lit 0 0) ≡ false
unfolding confidence_floor_of
floor_positive {fl} cfg laws = ground (arith, eighty-not-le-zero laws)

pub policy-eq-some :
    (fl : Floats) (total pairs : ℕ) (m : List (Entry fl)) (nodes : List Str) (v : Verdict fl.F)
    → find_policy_scoped fl total pairs m nodes ≡ some v
    → (v.class ≡ policy_scoped)
      × (v.confidence ≡ fl.lit 1 0)
      × (total ≡ pairs)
      × (all (λ e. contains e.1.error (str "refused")) m ≡ true)
unfolding find_policy_scoped
policy-eq-some fl total pairs m nodes v h = (ground arith, ground arith, ground arith, ground arith)

pub partition-eq-some :
    (fl : Floats) (floor : fl.F) (total pairs : ℕ) (nodes : List Str) (v : Verdict fl.F)
    → find_partition fl floor total pairs nodes ≡ some v
    → (v.class ≡ cluster_partition)
      × (v.confidence ≡ quot fl total pairs)
      × (fl.fle floor (quot fl total pairs) ≡ true)
unfolding find_partition
partition-eq-some fl floor total pairs nodes v h = (ground arith, ground arith, ground arith)

pub partition-eq-none :
    (fl : Floats) (floor : fl.F) (total pairs : ℕ) (nodes : List Str)
    → find_partition fl floor total pairs nodes ≡ none
    → fl.fle floor (quot fl total pairs) ≡ false
unfolding find_partition
partition-eq-none fl floor total pairs nodes h = ground arith

module _ (rt : MapOrder) {fl : Floats} (laws : FloatLaws fl) (cfg : Config fl.F)
    (m : Matrix fl.F) where
  open rt use {visit, visit_perm}

  pub no_agent_error : has_agent_error fl (visit _ 2 m) ≡ false → NoAgentError fl m
  unfolding has_agent_error
  no_agent_error h e i _ =
      let clean =
        any-false (λ (x : Entry fl). x.1.agent_error) m
          (sym (any-perm (λ (x : Entry fl). x.1.agent_error) (visit_perm _ 2 m)) ∙ h) e i in
      ground arith

  pub some_agent_error :
      has_agent_error fl (visit _ 2 m) ≡ true → Exists fl m (λ e. e.1.agent_error)
  unfolding has_agent_error
  some_agent_error h =
      mem_of_any (λ (x : Entry fl). x.1.agent_error) m
        (sym (any-perm (λ (x : Entry fl). x.1.agent_error) (visit_perm _ 2 m)) ∙ h)

  all_succeed : failed_list rt fl cfg m ≡ [] → Every fl m (λ e. is_pair e.0) (λ e. e.1.success)
  all_succeed none_failed e i pair =
      let zero_failed : failures fl m ≡ 0 =
        sym (length-failed_list rt fl cfg m) ∙ ap length none_failed in
      let ok = count_if_none (failed_pair fl) m zero_failed e i in ground arith

  pub loss_verdict-Justified :
      (summaries : List Str)
      → (buckets rt fl cfg m).degraded_summaries ≡ summaries
      → failed_list rt fl cfg m ≡ []
      → m ≢ []
      → NoAgentError fl m
      → Justified fl m cfg
          (loss_verdict rt fl (loss_threshold fl cfg) (length m) (buckets rt fl cfg m) summaries)
  unfolding loss_verdict
  loss_verdict-Justified [] same none_failed some_entry clean = (
    some_entry,
    clean,
    all_succeed none_failed,
    count_if_none (degraded_pair fl (loss_threshold fl cfg)) m
        (sym (length-degraded rt fl cfg m) ∙ ap length same),
  )
  loss_verdict-Justified (s ∷ r) same none_failed some_entry clean = (
    clean,
    all_succeed none_failed,
    mem_of_count_if (degraded_pair fl (loss_threshold fl cfg)) m
        (let n = ap length same in omega (arith, length-degraded rt fl cfg m)),
  )
