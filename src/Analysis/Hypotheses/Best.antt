-- ===== src/Analysis/Hypotheses/Best.antt =====
-- The loop that the three node hypotheses share finds a greatest confidence.
use cs331_t011_kubernetes_se.Common.{
  ℕ, ◌<◌, ◌≤◌, ◌≡◌, refl, sym, ap, ◌⊎◌, inl, inr, Bool, true, false, ◌&&◌, List, [], ◌∷◌, arith,
  leb, leb→le, Bool-cases, if◌then◌else◌,
}
use mathlib.Core.Path.{subst}
use native.Mathlib.Nat.{mul-le-mul_right}
use cs331_t011_kubernetes_se.Go.Text.{Str, str_eq, str_eq_iff, str_eq_refl}
use cs331_t011_kubernetes_se.Go.Maps.{has}
use cs331_t011_kubernetes_se.Go.Floats.{Floats, FloatLaws, quot, quot_limit}
use cs331_t011_kubernetes_se.Contract.{Verdict, Classification}
use cs331_t011_kubernetes_se.Analysis.Hypotheses.{best_node}

module _ {fl : Floats} (laws : FloatLaws fl) where
  -- A number that compares as the quotient of small numbers with the given denominator.
  abbrev pub Ranked : ℕ → fl.F → Type 0
  Ranked b x =
      (k : ℕ) × (k < quot_limit) × (fl.fle x (quot fl k b) ≡ true) × (fl.fle (quot fl k b) x ≡ true)

  module _ {b : ℕ} (positive : 0 < b) (small : b < quot_limit) where
    ranks_le : {x y : fl.F} (p : Ranked b x) (q : Ranked b y) → p.0 ≤ q.0 → fl.fle x y ≡ true
    ranks_le (k, k_small, down, _) (j, j_small, _, up) h = laws.le_trans _ _ _ down (
        laws.le_trans _ _ _
          ((laws.quot_le k b j b positive positive k_small small j_small small).1
            (mul-le-mul_right b h))
          up)

    pub rank_refl : {x : fl.F} → Ranked b x → fl.fle x x ≡ true
    rank_refl p = ranks_le p p (omega arith)

    pub rank_total : {x y : fl.F} → Ranked b x → Ranked b y → fl.fle x y ≡ false → fl.fle y x ≡ true
    rank_total p q h = elim (Bool-cases (leb p.0 q.0)) [
      | inl e ↦ let up = ranks_le p q (leb→le _ _ e) in ground arith
      | inr e ↦ ranks_le q p (ground arith)
    ]

    pub le_of_not_lt :
        {x y : fl.F} → Ranked b x → Ranked b y → fl.flt x y ≡ false → fl.fle y x ≡ true
    le_of_not_lt {x} {y} p q h = elim (Bool-cases (fl.fle y x)) [
      | inl e ↦ e
      | inr e ↦ let less = (laws.lt_iff x y).1 (rank_total q p e, e) in ground arith
    ]

-- What a hypothesis loops with: its test of a node, the confidence, and the verdict.
pub record Search (fl : Floats) : Type 0 where
  pub test : Str → Bool
  pub conf : Str → fl.F
  pub verdict : Str → fl.F → Verdict fl.F

unfoldable pub best :
    {fl : Floats} → Search fl → List Str → Verdict fl.F × fl.F → Verdict fl.F × fl.F
best {fl} s nodes start = best_node fl s.test s.conf s.verdict nodes start

module _ {fl : Floats} (laws : FloatLaws fl) {b : ℕ} (positive : 0 < b)
    (small : b < quot_limit) where
  -- The confidences are ranked, and the verdicts are of one class and hold the confidence.
  abbrev pub IsSearch : Classification → Search fl → Type 0
  IsSearch c s =
      ((n : Str) → s.test n ≡ true → Ranked laws b (s.conf n))
      × ((n : Str) (x : fl.F) → (s.verdict n x).class ≡ c)
      × ((n : Str) (x : fl.F) → (s.verdict n x).confidence ≡ x)

  module _ {c : Classification} (s : Search fl) (good : IsSearch c s) where
    best-step :
        (j : Str) (nodes : List Str) (start : Verdict fl.F × fl.F) {passes : Bool}
        → (s.test j && fl.flt start.1 (s.conf j)) ≡ passes
        → best s (j ∷ nodes) start
          ≡ best s nodes (if passes then (s.verdict j (s.conf j), s.conf j) else start)
    unfolding best best_node
    best-step j nodes start e =
        ap (λ p. best s nodes (if p then (s.verdict j (s.conf j), s.conf j) else start)) e

    unfoldable pub IsTop : List Str → Verdict fl.F × fl.F → Verdict fl.F × fl.F → Type 0
    IsTop nodes start found =
        (fl.fle start.1 found.1 ≡ true)
        × ((n : Str) → has n nodes ≡ true → s.test n ≡ true → fl.fle (s.conf n) found.1 ≡ true)

    -- The confidence found is at least that of the start and of each node that passes the test.
    pub best-IsTop :
        (nodes : List Str) (start : Verdict fl.F × fl.F)
        → Ranked laws b start.1
        → IsTop nodes start (best s nodes start)
    unfolding best best_node IsTop
    best-IsTop [] start ranked =
        (rank_refl laws positive small ranked, λ n member. absurd (ground arith))
    best-IsTop (j ∷ nodes) start ranked =
        elim (Bool-cases (s.test j && fl.flt start.1 (s.conf j))) [
          | inl e ↦
              let passed : s.test j ≡ true = ground arith in
              let (up, rest) =
                best-IsTop nodes (s.verdict j (s.conf j), s.conf j) (good.0 j passed) in
              let above = ((laws.lt_iff start.1 (s.conf j)).0 (ground arith)).0 in
              subst (IsTop (j ∷ nodes) start) (sym (best-step j nodes start e))
                (laws.le_trans _ _ _ above up, at_head (λ _. up) rest)
          | inr e ↦
              let (up, rest) = best-IsTop nodes start ranked in
              subst (IsTop (j ∷ nodes) start) (sym (best-step j nodes start e)) (
                up,
                at_head
                    (λ passed.
                      laws.le_trans _ _ _
                        (le_of_not_lt laws positive small ranked (good.0 j passed) (ground arith))
                        up)
                    rest,
              )
        ]
      where
        at_head :
            {x : fl.F}
            → (s.test j ≡ true → fl.fle (s.conf j) x ≡ true)
            → ((n : Str) → has n nodes ≡ true → s.test n ≡ true → fl.fle (s.conf n) x ≡ true)
            → (n : Str) → has n (j ∷ nodes) ≡ true
            → s.test n ≡ true
            → fl.fle (s.conf n) x ≡ true
        at_head {x} here rest n h passed = elim (Bool-cases (str_eq j n)) [
          | inl e ↦
              let same = (str_eq_iff j n).0 e in
              subst (λ k. s.test k ≡ true → fl.fle (s.conf k) x ≡ true) same here passed
          | inr e ↦ rest n (ground arith) passed
        ]

    -- The pair found is the start or comes from a node that passes the test.
    pub best-from :
        (nodes : List Str) (start : Verdict fl.F × fl.F)
        → (best s nodes start ≡ start)
          ⊎ ((n : Str) × (has n nodes ≡ true)
              × (s.test n ≡ true)
              × (best s nodes start ≡ (s.verdict n (s.conf n), s.conf n)))
    unfolding best best_node
    best-from [] start = inl refl
    best-from (j ∷ nodes) start = elim (Bool-cases (s.test j && fl.flt start.1 (s.conf j))) [
      | inl e ↦ rw e (elim (best-from nodes (s.verdict j (s.conf j), s.conf j)) [
        | inl same ↦ inr (j, ground (arith, str_eq_refl j), ground arith, same)
        | inr (n, member, passed, same) ↦ inr (n, ground arith, passed, same)
      ])
      | inr e ↦ rw e (elim (best-from nodes start) [
        | inl same ↦ inl same
        | inr (n, member, passed, same) ↦ inr (n, ground arith, passed, same)
      ])
    ]
