-- ===== src/Go/Floats.antt =====
-- Go's `float64`: the operations that the code uses, as a parameter.
use cs331_t011_kubernetes_se.Common.{
  ℕ, ◌*◌, ◌<◌, ◌≤◌, ◌≡◌, ◌↔◌, Bool, true, false, arith, Bool-cases, inl, inr,
}
use cs331_t011_kubernetes_se.Common.Int.{ℤ, pos}
use cs331_t011_kubernetes_se.Go.Text.{Str}

pub record Floats : Type 1 where
  pub F : Type 0
  -- `float64(n)`
  pub of_int : ℤ → F
  -- the constant n / 10 ^ k, as in `0.05` for `lit 5 2`
  pub lit : ℕ → ℕ → F
  pub fadd : F → F → F
  pub fmul : F → F → F
  pub fdiv : F → F → F
  pub fsqrt : F → F
  -- `a < b` and `a <= b`; both are false where an operand is not a number
  pub flt : F → F → Bool
  pub fle : F → F → Bool
  -- `%.kf`
  pub format : ℕ → F → Str

-- `float64(a) / float64(b)`
abbrev pub quot : (fl : Floats) → ℕ → ℕ → fl.F
quot fl a b = fl.fdiv (fl.of_int (pos a)) (fl.of_int (pos b))

-- Quotients of numbers below this limit are compared exactly: they differ by more than the two
-- roundings.
abbrev pub quot_limit : ℕ
quot_limit = 67_108_864

-- What the code relies on of IEEE 754 doubles. The comparisons order the numbers, and division of
-- small integers rounds correctly, as do the constants.
pub record FloatLaws (fl : Floats) : Type 0 where
  pub le_trans : (a b c : fl.F) → fl.fle a b ≡ true → fl.fle b c ≡ true → fl.fle a c ≡ true
  pub lt_iff : (a b : fl.F) → (fl.flt a b ≡ true) ↔ ((fl.fle a b ≡ true) × (fl.fle b a ≡ false))
  pub quot_le :
      (a b c d : ℕ)
      → 0 < b
      → 0 < d
      → a < quot_limit
      → b < quot_limit
      → c < quot_limit
      → d < quot_limit
      → (fl.fle (quot fl a b) (quot fl c d) ≡ true) ↔ (a * d ≤ c * b)
  pub lit_zero :
      (fl.fle (fl.lit 0 0) (quot fl 0 1) ≡ true) × (fl.fle (quot fl 0 1) (fl.lit 0 0) ≡ true)
  pub lit_one :
      (fl.fle (fl.lit 1 0) (quot fl 1 1) ≡ true) × (fl.fle (quot fl 1 1) (fl.lit 1 0) ≡ true)
  pub lit_eighty :
      (fl.fle (fl.lit 80 2) (quot fl 4 5) ≡ true) × (fl.fle (quot fl 4 5) (fl.lit 80 2) ≡ true)
  pub lit_five :
      (fl.fle (fl.lit 5 2) (quot fl 1 20) ≡ true) × (fl.fle (quot fl 1 20) (fl.lit 5 2) ≡ true)
  pub lit_thousand : fl.lit 1000 0 ≡ fl.of_int (pos 1000)

module _ {fl : Floats} (laws : FloatLaws fl) where
  -- 0.80 is not at or below 0.
  pub eighty-not-le-zero : fl.fle (fl.lit 80 2) (fl.lit 0 0) ≡ false
  eighty-not-le-zero = elim (Bool-cases (fl.fle (fl.lit 80 2) (fl.lit 0 0))) [
    | inr e ↦ e
    | inl e ↦
        let up = laws.le_trans _ _ _ laws.lit_eighty.1 (laws.le_trans _ _ _ e laws.lit_zero.0) in
        let bad =
          (laws.quot_le 4 5 0 1 (omega arith) (omega arith) (omega arith) (omega arith)
              (omega arith) (omega arith)).0
            up in
        absurd (omega arith)
  ]

  -- A share short of the whole is below 1.
  pub share-lt-one : (a n : ℕ) → a < n → n < quot_limit → fl.flt (quot fl a n) (fl.lit 1 0) ≡ true
  share-lt-one a n less small =
      let whole =
        laws.quot_le a n 1 1 (omega arith) (omega arith) (omega arith) (omega arith) (omega arith)
          (omega arith) in
      let back =
        laws.quot_le 1 1 a n (omega arith) (omega arith) (omega arith) (omega arith) (omega arith)
          (omega arith) in
      (laws.lt_iff _ _).1 (
        laws.le_trans _ _ _ (whole.1 (omega arith)) laws.lit_one.1,
        elim (Bool-cases (fl.fle (fl.lit 1 0) (quot fl a n))) [
          | inr e ↦ e
          | inl e ↦ let up = back.0 (laws.le_trans _ _ _ laws.lit_one.1 e) in absurd (omega arith)
        ],
      )

  -- 0.05 is not at or below a share of none.
  pub five-not-le-none :
      (n : ℕ) → 0 < n → n < quot_limit → fl.fle (fl.lit 5 2) (quot fl 0 n) ≡ false
  five-not-le-none n some small = elim (Bool-cases (fl.fle (fl.lit 5 2) (quot fl 0 n))) [
    | inr e ↦ e
    | inl e ↦
        let up = laws.le_trans _ _ _ laws.lit_five.1 e in
        let bad =
          (laws.quot_le 1 20 0 n (omega arith) some (omega arith) (omega arith) (omega arith)
              small).0
            up in
        absurd (omega arith)
  ]
