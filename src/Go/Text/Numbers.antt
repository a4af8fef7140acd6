-- ===== src/Go/Text/Numbers.antt =====
-- Numbers are read back from their decimal texts.
use cs331_t011_kubernetes_se.Common.{
  ℕ, ◌+◌, ◌-◌, ◌*◌, ◌/◌, ◌%◌, ◌<◌, ◌≡◌, refl, ap, ap₂, ◌∙◌, true, false, ◌&&◌, none, some, [], ◌∷◌,
  arith, ltb, ◌==◌, if◌then◌else◌, all, Bool,
}
use cs331_t011_kubernetes_se.Common.Int.{pos, int_limit}
use cs331_t011_kubernetes_se.Common.Order.{lt_wf}
use mathlib.Core.WellFounded.{Acc}
use mathlib.Core.Option
use native.Mathlib.Decide.{dec_lt}
use mathlib.Core.Logic.{dite}
use cs331_t011_kubernetes_se.Go.Text.{Str, digits_acc, decimal, read_digits, read_number, atoi}

-- A text that begins with a digit.
abbrev pub BeginsWithDigit : Str → Type 0
BeginsWithDigit [] = ⊥
BeginsWithDigit (c ∷ s) = (47 < c) × (c < 58)

read_digits-digit :
    (m d : ℕ) (s : Str) → d < 10 → read_digits m ((48 + d) ∷ s) ≡ read_digits (m * 10 + d) s
unfolding read_digits
read_digits-digit m d s h =
    let same : 48 + d - 48 ≡ d = omega arith in
    let digit : (ltb 47 (48 + d) && ltb (48 + d) 58) ≡ true = ground arith in
    ap₂ (λ b k. if b then read_digits (m * 10 + k) s else none) digit same

-- A text from which a number is read on from 0 as from the given one, with a digit in front.
Reads : ℕ → Str → Str → Type 0
Reads n rest s = (read_digits 0 s ≡ read_digits n rest) × BeginsWithDigit s

dite-elim {ℓ κ} :
    {P : Type ℓ} {C : Type κ} (Q : C → Type 0) (d : Dec P) (f : P → C) (g : (¬ P) → C)
    → ((h : P) → Q (f h))
    → ((h : ¬ P) → Q (g h))
    → Q (dite d f g)
dite-elim Q (yes h) f g on_yes on_no = on_yes h
dite-elim Q (no h) f g on_yes on_no = on_no h

digits_acc-Reads : (n : ℕ) (a : Acc ◌<◌ n) (rest : Str) → Reads n rest (digits_acc n a rest)
unfolding digits_acc Reads
digits_acc-Reads n (Acc.intro _ smaller) rest =
    dite-elim (Reads n rest) (dec_lt 9 n) _ _
      (λ h.
        let (same, begins) =
          digits_acc-Reads (n / 10) (smaller (n / 10) (omega arith)) ((48 + n % 10) ∷ rest) in
        (
          same
              ∙ read_digits-digit (n / 10) (n % 10) rest (omega arith)
              ∙ ap (λ k. read_digits k rest) (omega arith),
          begins,
        ))
      (λ h. (
        read_digits-digit 0 n rest (omega arith) ∙ ap (λ k. read_digits k rest) (omega arith),
        (omega arith, omega arith),
      ))

decimal-Reads : (n : ℕ) → Reads n [] (decimal n)
unfolding decimal
decimal-Reads n = digits_acc-Reads n (lt_wf.apply n) []

read_number-Reads : (n c : ℕ) (s : Str) → Reads n [] (c ∷ s) → read_number (c ∷ s) ≡ some n
unfolding Reads read_number read_digits
read_number-Reads n c s (same, begins) = same

atoi_of_digits :
    (n : ℕ) (s : Str) → n < int_limit → Reads n [] s → BeginsWithDigit s → atoi s ≡ some (pos n)
unfolding atoi Option.bind
atoi_of_digits n [] small reads begins = absurd begins
atoi_of_digits n (c ∷ s) small reads begins =
    let no_minus : (c == b'-') ≡ false = ground arith in
    let no_plus : (c == b'+') ≡ false = ground arith in
    let fits : ltb n int_limit ≡ true = ground arith in
    rw (no_minus, no_plus, read_number-Reads n c s reads, fits) refl

pub decimal-BeginsWithDigit : (n : ℕ) → BeginsWithDigit (decimal n)
unfolding Reads
decimal-BeginsWithDigit n = (decimal-Reads n).1

-- A number that fits an `int` is read back from its decimal text.
pub atoi-decimal : (n : ℕ) → n < int_limit → atoi (decimal n) ≡ some (pos n)
atoi-decimal n small =
    atoi_of_digits n (decimal n) small (decimal-Reads n) (decimal-BeginsWithDigit n)

digits_acc-all :
    (p : ℕ → Bool)
    → ((d : ℕ) → d < 10 → p (48 + d) ≡ true)
    → (n : ℕ) (a : Acc ◌<◌ n) (rest : Str) → all p rest ≡ true
    → all p (digits_acc n a rest) ≡ true
unfolding digits_acc
digits_acc-all p digit n (Acc.intro _ smaller) rest h =
    dite-elim (λ s. all p s ≡ true) (dec_lt 9 n) _ _
      (λ k.
        digits_acc-all p digit (n / 10) (smaller (n / 10) (omega arith)) ((48 + n % 10) ∷ rest)
          (rw (digit (n % 10) (omega arith)) h))
      (λ k. rw (digit n (omega arith)) h)

-- What holds of every digit holds of every byte of a decimal text.
pub decimal-all :
    (p : ℕ → Bool) → ((d : ℕ) → d < 10 → p (48 + d) ≡ true) → (n : ℕ) → all p (decimal n) ≡ true
unfolding decimal
decimal-all p digit n = digits_acc-all p digit n (lt_wf.apply n) [] refl
