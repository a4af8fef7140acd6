-- ===== src/Analysis/Hypotheses/Sound.antt =====
-- The conditions behind each hypothesis that yields a verdict.
use cs331_t011_kubernetes_se.Common.{
  ℕ, ◌≡◌, refl, sym, ap, ◌∙◌, ◌⊎◌, inl, inr, Bool, true, false, ◌&&◌, some, List, [], ◌∷◌, arith,
  Bool-cases, clash,
}
use cs331_t011_kubernetes_se.Go.Text.{Str}
use cs331_t011_kubernetes_se.Go.Floats.{Floats}
use cs331_t011_kubernetes_se.Contract.{Verdict}
use cs331_t011_kubernetes_se.Analysis.Tallies.{Tallies}
use cs331_t011_kubernetes_se.Analysis.Hypotheses.{
  isolated_node, egress_node, ingress_node, zero_verdict, best_node, above_floor, isolated_conf,
  isolated_verdict, egress_conf, egress_verdict, ingress_conf, ingress_verdict, find_isolated,
  find_egress, find_ingress,
}

abbrev floor_test : (fl : Floats) → fl.F → Verdict fl.F × fl.F → Bool
floor_test fl floor b = fl.fle floor b.1

above_floor-eq-some :
    (fl : Floats) (floor : fl.F) (b : Verdict fl.F × fl.F) {v : Verdict fl.F}
    → above_floor fl floor b ≡ some v
    → (v ≡ b.0) × (fl.fle floor b.1 ≡ true)
unfolding above_floor
above_floor-eq-some fl floor b h = elim (Bool-cases (fl.fle floor b.1)) [
  | inl e ↦ (ground arith, e)
  | inr e ↦ absurd (ground arith)
]

module _ (fl : Floats) where
  module _ (test : Str → Bool) (conf : Str → fl.F) (verdict : Str → fl.F → Verdict fl.F) where
    -- The best is the one at the start or that of a node that passes the test.
    pub best_node-cases :
        (nodes : List Str) (best : Verdict fl.F × fl.F)
        → (best_node fl test conf verdict nodes best ≡ best)
          ⊎ ((n : Str) × (test n ≡ true)
              × (best_node fl test conf verdict nodes best ≡ (verdict n (conf n), conf n)))
    unfolding best_node
    best_node-cases [] best = inl refl
    best_node-cases (n ∷ nodes) best = elim (Bool-cases (test n && fl.flt best.1 (conf n))) [
      | inl e ↦ rw e (elim (best_node-cases nodes (verdict n (conf n), conf n)) [
        | inl same ↦ inr (n, ground arith, same)
        | inr found ↦ inr found
      ])
      | inr e ↦ rw e (best_node-cases nodes best)
    ]

    best : List Str → Verdict fl.F × fl.F
    best nodes = best_node fl test conf verdict nodes (zero_verdict fl, fl.lit 0 0)

    pub above_floor_sound :
        (floor : fl.F) (nodes : List Str) {v : Verdict fl.F}
        → fl.fle floor (fl.lit 0 0) ≡ false
        → above_floor fl floor (best_node fl test conf verdict nodes (zero_verdict fl, fl.lit 0 0))
          ≡ some v
        → (n : Str) × (test n ≡ true) × (v ≡ verdict n (conf n)) × (fl.fle floor (conf n) ≡ true)
    unfolding best
    above_floor_sound floor nodes {v} positive h =
        let (is_best, high) = above_floor-eq-some fl floor (best nodes) h in
        elim (best_node-cases nodes (zero_verdict fl, fl.lit 0 0)) [
          | inl same ↦ absurd (clash high (ap (floor_test fl floor) same ∙ positive))
          | inr (n, passed, found) ↦ (
            n,
            passed,
            is_best ∙ ap (λ b. b.0) found,
            sym (ap (floor_test fl floor) found) ∙ high,
          )
        ]

module _ (fl : Floats) (t : Tallies) (total : ℕ) (floor : fl.F) (nodes : List Str)
    {v : Verdict fl.F} where
  pub find_isolated_sound :
      fl.fle floor (fl.lit 0 0) ≡ false
      → find_isolated fl t total floor nodes ≡ some v
      → (n : Str) × (isolated_node t n ≡ true)
        × (v ≡ isolated_verdict fl t total n (isolated_conf fl t total n))
        × (fl.fle floor (isolated_conf fl t total n) ≡ true)
  unfolding find_isolated
  find_isolated_sound positive h = above_floor_sound fl _ _ _ floor nodes positive h

  pub find_egress_sound :
      fl.fle floor (fl.lit 0 0) ≡ false
      → find_egress fl t total floor nodes ≡ some v
      → (n : Str) × (egress_node t n ≡ true)
        × (v ≡ egress_verdict fl t total n (egress_conf fl t total n))
        × (fl.fle floor (egress_conf fl t total n) ≡ true)
  unfolding find_egress
  find_egress_sound positive h = above_floor_sound fl _ _ _ floor nodes positive h

  pub find_ingress_sound :
      fl.fle floor (fl.lit 0 0) ≡ false
      → find_ingress fl t total floor nodes ≡ some v
      → (n : Str) × (ingress_node t n ≡ true)
        × (v ≡ ingress_verdict fl t total n (ingress_conf fl t total n))
        × (fl.fle floor (ingress_conf fl t total n) ≡ true)
  unfolding find_ingress
  find_ingress_sound positive h = above_floor_sound fl _ _ _ floor nodes positive h
