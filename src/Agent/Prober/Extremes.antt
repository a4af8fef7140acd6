-- ===== src/Agent/Prober/Extremes.antt =====
-- The least and the greatest of some times, and their average.
use native.Mathlib.Nat.{mul_comm, le-div_iff_mul-le, div-le_of_le-mul}
use cs331_t011_kubernetes_se.Common.{
  ℕ, suc, ◌+◌, ◌*◌, ◌/◌, ◌≤◌, ◌<◌, ◌≡◌, refl, ap, ◌∙◌, List, [], ◌∷◌, ◌++◌, map, arith, ltb, length,
  All, if◌then◌else◌,
}
use cs331_t011_kubernetes_se.Common.Int.{pos, ltb_ℤ}
use cs331_t011_kubernetes_se.Agent.Prober.{smallest, largest}

-- Times below 2^26 microseconds, that is 67 seconds, in nanoseconds.
abbrev pub time_limit : ℕ
time_limit = 67_108_864_000

abbrev pub sum : List ℕ → ℕ
sum [] = 0
sum (t ∷ ts) = t + sum ts

pub sum-append : (xs ys : List ℕ) → sum (xs ++ ys) ≡ sum xs + sum ys
sum-append [] ys = omega arith
sum-append (x ∷ xs) ys = omega (arith, sum-append xs ys)

pub sum-le : (ts : List ℕ) → All (λ t. t < time_limit) ts → sum ts ≤ length ts * time_limit
sum-le [] h = omega arith
sum-le (t ∷ ts) h = omega (arith, sum-le ts h.1)

-- The loops for the extremes, on natural numbers.
abbrev pub least : ℕ → List ℕ → ℕ
least m [] = m
least m (t ∷ ts) = least (if ltb t m then t else m) ts

abbrev pub most : ℕ → List ℕ → ℕ
most m [] = m
most m (t ∷ ts) = most (if ltb m t then t else m) ts

pub smallest-pos : (m : ℕ) (ts : List ℕ) → smallest (pos m) (map pos ts) ≡ pos (least m ts)
unfolding smallest
smallest-pos m [] = refl
smallest-pos m (t ∷ ts) =
    ap (λ z. smallest z (map pos ts)) (choice m t) ∙ smallest-pos (if ltb t m then t else m) ts
  where
    choice :
        (m t : ℕ)
        → (if ltb_ℤ (pos t) (pos m) then pos t else pos m) ≡ pos (if ltb t m then t else m)
    choice m t = ground arith

pub largest-pos : (m : ℕ) (ts : List ℕ) → largest (pos m) (map pos ts) ≡ pos (most m ts)
unfolding largest
largest-pos m [] = refl
largest-pos m (t ∷ ts) =
    ap (λ z. largest z (map pos ts)) (choice m t) ∙ largest-pos (if ltb m t then t else m) ts
  where
    choice :
        (m t : ℕ)
        → (if ltb_ℤ (pos m) (pos t) then pos t else pos m) ≡ pos (if ltb m t then t else m)
    choice m t = ground arith

one_more_low : (l n s t : ℕ) → l ≤ t → n * l ≤ s → suc n * l ≤ t + s
one_more_low l n s t h k = grind arith

one_more_high : (g n s t : ℕ) → t ≤ g → s ≤ n * g → t + s ≤ suc n * g
one_more_high g n s t h k = grind arith

-- The extremes bound the first time, and the sum by as many copies of themselves.
pub least_bounds : (m : ℕ) (ts : List ℕ) → (least m ts ≤ m) × (length ts * least m ts ≤ sum ts)
least_bounds m [] = (omega arith, omega arith)
least_bounds m (t ∷ ts) =
    let (low, all_low) = least_bounds (if ltb t m then t else m) ts in
    (ground arith, one_more_low _ (length ts) (sum ts) t (ground arith) all_low)

pub most_bounds : (m : ℕ) (ts : List ℕ) → (m ≤ most m ts) × (sum ts ≤ length ts * most m ts)
most_bounds m [] = (omega arith, omega arith)
most_bounds m (t ∷ ts) =
    let (high, all_high) = most_bounds (if ltb m t then t else m) ts in
    (ground arith, one_more_high _ (length ts) (sum ts) t (ground arith) all_high)

pub div_between :
    (l s n g : ℕ)
    → 0 < n
    → n * l ≤ s
    → s ≤ n * g
    → (l / 1000 ≤ s / n / 1000) × (s / n / 1000 ≤ g / 1000)
div_between l s n g positive low high =
    let below : l ≤ s / n = (le-div_iff_mul-le positive).1 (omega (arith, mul_comm l n)) in
    let above : s / n ≤ g = div-le_of_le-mul n high in (omega arith, omega arith)

pub short-most :
    (m : ℕ) (ts : List ℕ) → m < time_limit → All (λ t. t < time_limit) ts → most m ts < time_limit
short-most m [] h hs = h
short-most m (t ∷ ts) h hs = short-most (if ltb m t then t else m) ts (ground arith) hs.1
