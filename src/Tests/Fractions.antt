-- ===== src/Tests/Fractions.antt =====
-- Fractions in place of `float64`: an arithmetic in which what the theorems rely on holds.
use mathlib.Core.Path.{◌≡◌, refl, ap, ◌∙◌}
use native.Mathlib.Nat.{mul-one, mul-le-mul_right, le_of_mul-le-mul_right}
use cs331_t011_kubernetes_se.Common.{
  ℕ, suc, ◌+◌, ◌-◌, ◌*◌, ◌^◌, ◌≤◌, ◌<◌, ◌↔◌, Bool, true, false, not, ◌&&◌, [], arith, leb, leb→le,
  le→leb,
}
use cs331_t011_kubernetes_se.Common.Int.{pos_part}
use cs331_t011_kubernetes_se.Go.Floats.{Floats, FloatLaws, quot, quot_limit}

-- `(a, b)` is a / (b + 1).
abbrev pub Fraction : Type 0
Fraction = ℕ × ℕ

abbrev pub frac_le : Fraction → Fraction → Bool
frac_le x y = leb (x.0 * suc y.1) (y.0 * suc x.1)

-- There is no root among them; the tests use none.
abbrev pub fractions : Floats
fractions = record {
  F = Fraction;
  of_int = λ n. (pos_part n, 0);
  lit = λ n k. (n, 10 ^ k - 1);
  fadd = λ x y. (x.0 * suc y.1 + y.0 * suc x.1, suc x.1 * suc y.1 - 1);
  fmul = λ x y. (x.0 * y.0, suc x.1 * suc y.1 - 1);
  fdiv = λ x y. (x.0 * suc y.1, suc x.1 * y.0 - 1);
  fsqrt = λ x. x;
  flt = λ x y. frac_le x y && not (frac_le y x);
  fle = frac_le;
  format = λ k x. [];
}

pub frac_trans : (x y z : Fraction) → frac_le x y ≡ true → frac_le y z ≡ true → frac_le x z ≡ true
frac_trans (a, b) (c, d) (e, f) h k =
    let first = mul-le-mul_right (suc f) (leb→le (a * suc d) (c * suc b) h) in
    let second = mul-le-mul_right (suc b) (leb→le (c * suc f) (e * suc d) k) in
    let both : a * suc f * suc d ≤ e * suc b * suc d = omega arith in
    le→leb _ _ (le_of_mul-le-mul_right {k = suc d} both (omega arith))

pub frac_lt :
    (x y : Fraction)
    → (frac_le x y && not (frac_le y x) ≡ true) ↔ ((frac_le x y ≡ true) × (frac_le y x ≡ false))
frac_lt x y = (λ h. (ground arith, ground arith), λ (h, k). ground arith)

suc_pred : (n : ℕ) → 0 < n → suc (1 * n - 1) ≡ n
suc_pred n h = omega arith

pub frac_quot :
    (a b c d : ℕ)
    → 0 < b
    → 0 < d
    → a < quot_limit
    → b < quot_limit
    → c < quot_limit
    → d < quot_limit
    → (frac_le (quot fractions a b) (quot fractions c d) ≡ true) ↔ (a * d ≤ c * b)
frac_quot a b c d hb hd _ _ _ _ =
    let left : a * 1 * suc (1 * d - 1) ≡ a * d =
      ap (λ t. a * 1 * t) (suc_pred d hd) ∙ ap (λ t. t * d) (mul-one a) in
    let right : c * 1 * suc (1 * b - 1) ≡ c * b =
      ap (λ t. c * 1 * t) (suc_pred b hb) ∙ ap (λ t. t * b) (mul-one c) in
    (λ h. let up = leb→le _ _ h in omega arith, λ h. le→leb _ _ (omega arith))

abbrev pub fraction_laws : FloatLaws fractions
fraction_laws = record {
  le_trans = frac_trans;
  lt_iff = frac_lt;
  quot_le = frac_quot;
  lit_zero = (refl, refl);
  lit_one = (refl, refl);
  lit_eighty = (refl, refl);
  lit_five = (refl, refl);
  lit_thousand = refl;
}
