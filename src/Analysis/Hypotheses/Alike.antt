-- ===== src/Analysis/Hypotheses/Alike.antt =====
-- The hypotheses on a node in two orders of the maps: the verdicts have the same class and
-- confidence.
use cs331_t011_kubernetes_se.Common.{
  ℕ, ◌<◌, ◌≡◌, sym, ap, ◌∙◌, inl, inr, true, false, Bool, Option, none, some, List, Bool-cases,
  clash,
}
use mathlib.Core.Path.{subst}
use cs331_t011_kubernetes_se.Go.Text.{Str}
use cs331_t011_kubernetes_se.Go.Maps.{has}
use cs331_t011_kubernetes_se.Go.Floats.{Floats, FloatLaws, quot_limit}
use cs331_t011_kubernetes_se.Contract.{
  Verdict, Classification, node_isolated, node_egress_failure, node_ingress_failure,
}
use cs331_t011_kubernetes_se.Analysis.Hypotheses.{zero_verdict, above_floor}
use cs331_t011_kubernetes_se.Analysis.Hypotheses.Best.{
  Ranked, Search, IsSearch, best, best-from, best-IsTop, IsTop,
}

-- Does a verdict of the class name one node, the first that the loop over the nodes found?
unfoldable pub names_node : Classification → Bool
names_node node_isolated = true
names_node node_egress_failure = true
names_node node_ingress_failure = true
names_node _ = false

-- Two verdicts of the same class, with confidences that are each at most the other, and with the
-- same suspects unless the class names one node.
unfoldable pub Alike : (fl : Floats) → Verdict fl.F → Verdict fl.F → Type 0
Alike fl v w =
    (v.class ≡ w.class)
    × (fl.fle v.confidence w.confidence ≡ true)
    × (fl.fle w.confidence v.confidence ≡ true)
    × (names_node v.class ≡ false → v.suspect_nodes ≡ w.suspect_nodes)

unfoldable pub BothAlike : (fl : Floats) → Option (Verdict fl.F) → Option (Verdict fl.F) → Type 0
BothAlike fl none none = Unit
BothAlike fl none (some w) = ⊥
BothAlike fl (some v) none = ⊥
BothAlike fl (some v) (some w) = Alike fl v w

module _ {fl : Floats} (laws : FloatLaws fl) {b : ℕ} (positive : 0 < b) (small : b < quot_limit)
    (floor : fl.F) (high : fl.fle floor (fl.lit 0 0) ≡ false)
    (zero_ranked : Ranked laws b (fl.lit 0 0)) where
  abbrev zero_start : Verdict fl.F × fl.F
  zero_start = (zero_verdict fl, fl.lit 0 0)

  -- What the loop found, where it reaches the floor.
  best-above :
      {c : Classification} (s : Search fl)
      → IsSearch laws positive small c s
      → (nodes : List Str) → fl.fle floor (best s nodes zero_start).1 ≡ true
      → ((best s nodes zero_start).0.class ≡ c)
        × ((best s nodes zero_start).0.confidence ≡ (best s nodes zero_start).1)
        × ((n : Str) × (has n nodes ≡ true)
            × (s.test n ≡ true)
            × ((best s nodes zero_start).1 ≡ s.conf n))
  best-above s good nodes reached = elim (best-from laws positive small s good nodes zero_start) [
    | inl same ↦ absurd (clash reached (ap (λ f. fl.fle floor f.1) same ∙ high))
    | inr (n, member, passed, same) ↦ (
      ap (λ f. f.0.class) same ∙ good.1 n (s.conf n),
      ap (λ f. f.0.confidence) same ∙ good.2 n (s.conf n) ∙ sym (ap (λ f. f.1) same),
      (n, member, passed, ap (λ f. f.1) same),
    )
  ]

  -- Two searches that agree on every node, over lists with the same members.
  module _ {c : Classification} (s s' : Search fl) (good : IsSearch laws positive small c s)
      (good' : IsSearch laws positive small c s')
      (same : (n : Str) → (s.test n ≡ s'.test n) × (s.conf n ≡ s'.conf n)) (nodes nodes' : List Str)
      (members : (n : Str) → has n nodes ≡ has n nodes') where
    best_le :
        fl.fle floor (best s nodes zero_start).1 ≡ true
        → fl.fle (best s nodes zero_start).1 (best s' nodes' zero_start).1 ≡ true
    unfolding IsTop
    best_le reached =
        let (_, _, origin) = best-above s good nodes reached in
        let (n, member, passed, found) = origin in
        let (_, top) = best-IsTop laws positive small s' good' nodes' zero_start zero_ranked in
        subst (λ x. fl.fle x (best s' nodes' zero_start).1 ≡ true) (sym (found ∙ (same n).1))
          (top n (sym (members n) ∙ member) (sym (same n).0 ∙ passed))

  pub searches-BothAlike :
      {c : Classification} (s s' : Search fl)
      → IsSearch laws positive small c s
      → IsSearch laws positive small c s'
      → ((n : Str) → (s.test n ≡ s'.test n) × (s.conf n ≡ s'.conf n))
      → (nodes nodes' : List Str) → ((n : Str) → has n nodes ≡ has n nodes')
      → names_node c ≡ true
      → BothAlike fl
          (above_floor fl floor (best s nodes zero_start))
          (above_floor fl floor (best s' nodes' zero_start))
  unfolding above_floor BothAlike Alike
  searches-BothAlike s s' good good' same nodes nodes' members one_node =
      let back : (n : Str) → (s'.test n ≡ s.test n) × (s'.conf n ≡ s.conf n) =
        λ n. (sym (same n).0, sym (same n).1) in
      let up = best_le s s' good good' same nodes nodes' members in
      let down = best_le s' s good' good back nodes' nodes (λ n. sym (members n)) in
      elim (Bool-cases (fl.fle floor (best s nodes zero_start).1)) [
        | inl e ↦ elim (Bool-cases (fl.fle floor (best s' nodes' zero_start).1)) [
          | inl e' ↦
              let (class, conf, _) = best-above s good nodes e in
              let (class', conf', _) = best-above s' good' nodes' e' in
              rw (e, e')
                (
                  class ∙ sym class',
                  rw (conf, conf') (up e),
                  rw (conf, conf') (down e'),
                  λ other. absurd (clash one_node (sym (ap names_node class) ∙ other)),
                )
          | inr e' ↦ absurd (clash (laws.le_trans _ _ _ e (up e)) e')
        ]
        | inr e ↦ elim (Bool-cases (fl.fle floor (best s' nodes' zero_start).1)) [
          | inl e' ↦ absurd (clash (laws.le_trans _ _ _ e' (down e')) e)
          | inr e' ↦ rw (e, e') tt
        ]
      ]
