-- ===== src/Common/Lists.antt =====
-- Lists measured by native numbers, predicates on their members, and what an order of visiting
-- cannot change.
use Prim.Native.Nat.{ℕ, zero, suc, ◌+◌, ◌≤◌, ◌<◌}
use mathlib.Core.Path.{◌≡◌, refl, sym, ap, ◌∙◌, subst}
use mathlib.Core.Logic.{inl, inr}
use mathlib.Core.Bool.{Bool, true, false, not, ◌&&◌, ◌||◌}
use mathlib.Core.List.{List, [], ◌∷◌, ◌++◌, Memᴰ, Permᴰ}
use native.Mathlib.Omega.{arith}
use cs331_t011_kubernetes_se.Common.Tests.{if◌then◌else◌, Bool-cases}

module _ {ℓ} {A : Type ℓ} where
  abbrev pub length : List A → ℕ
  length [] = 0
  length (x ∷ xs) = suc (length xs)

  abbrev pub take : ℕ → List A → List A
  take zero xs = []
  take (suc n) [] = []
  take (suc n) (x ∷ xs) = x ∷ take n xs

  pub length-append : (xs ys : List A) → length (xs ++ ys) ≡ length xs + length ys
  length-append [] ys = omega arith
  length-append (x ∷ xs) ys = omega (arith, length-append xs ys)

  abbrev pub All {κ} : (A → Type κ) → List A → Type κ
  All P [] = Unit
  All P (x ∷ xs) = P x × All P xs

  -- How many members pass the test.
  abbrev pub count_if : (A → Bool) → List A → ℕ
  count_if p [] = 0
  count_if p (x ∷ xs) = (if p x then 1 else 0) + count_if p xs

  abbrev pub any : (A → Bool) → List A → Bool
  any p [] = false
  any p (x ∷ xs) = p x || any p xs

  abbrev pub all : (A → Bool) → List A → Bool
  all p [] = true
  all p (x ∷ xs) = p x && all p xs

module _ {ℓ} {A : Type ℓ} where
  pub All-Memᴰ {κ} : (P : A → Type κ) (xs : List A) → ((x : A) → Memᴰ x xs → P x) → All P xs
  All-Memᴰ P [] h = tt
  All-Memᴰ P (x ∷ xs) h = (h x (Memᴰ.head refl), All-Memᴰ P xs (λ y m. h y (Memᴰ.tail m)))

  pub All_at {κ} : (P : A → Type κ) (xs : List A) {x : A} → All P xs → Memᴰ x xs → P x
  All_at P [] h m = elim m [ ]
  All_at P (y ∷ xs) h (Memᴰ.head e) = subst P (sym e) h.0
  All_at P (y ∷ xs) h (Memᴰ.tail m) = All_at P xs h.1 m

  pub count_if-le-length : (p : A → Bool) (xs : List A) → count_if p xs ≤ length xs
  count_if-le-length p [] = omega arith
  count_if-le-length p (x ∷ xs) = ground (arith, count_if-le-length p xs)

  pub count_if-append :
      (p : A → Bool) (xs ys : List A) → count_if p (xs ++ ys) ≡ count_if p xs + count_if p ys
  count_if-append p [] ys = omega arith
  count_if-append p (x ∷ xs) ys = ground (arith, count_if-append p xs ys)

  pub count_if-congr :
      (p q : A → Bool) (xs : List A) → ((x : A) → p x ≡ q x) → count_if p xs ≡ count_if q xs
  count_if-congr p q [] h = refl
  count_if-congr p q (x ∷ xs) h = ground (arith, h x, count_if-congr p q xs h)

  pub count_if-congr_mem :
      (p q : A → Bool) (xs : List A)
      → ((x : A) → Memᴰ x xs → p x ≡ q x)
      → count_if p xs ≡ count_if q xs
  count_if-congr_mem p q [] h = refl
  count_if-congr_mem p q (x ∷ xs) h =
      let rest = count_if-congr_mem p q xs (λ y m. h y (Memᴰ.tail m)) in
      ground (arith, h x (Memᴰ.head refl))

  pub count_if-true : (xs : List A) → count_if (λ x. true) xs ≡ length xs
  count_if-true [] = refl
  count_if-true (x ∷ xs) = ground (arith, count_if-true xs)

  pub count_if_none :
      (p : A → Bool) (xs : List A) → count_if p xs ≡ 0 → (x : A) → Memᴰ x xs → p x ≡ false
  count_if_none p [] h x m = elim m [ ]
  count_if_none p (y ∷ xs) h x (Memᴰ.head e) = subst (λ z. p z ≡ false) (sym e) (ground arith)
  count_if_none p (y ∷ xs) h x (Memᴰ.tail m) = count_if_none p xs (ground arith) x m

  pub count_if_pos :
      (p : A → Bool) (xs : List A) {x : A} → Memᴰ x xs → p x ≡ true → 0 < count_if p xs
  count_if_pos p [] m h = elim m [ ]
  count_if_pos p (y ∷ xs) {x} (Memᴰ.head e) h =
      let q : p y ≡ true = subst (λ z. p z ≡ true) e h in ground arith
  count_if_pos p (y ∷ xs) (Memᴰ.tail m) h = let rest = count_if_pos p xs m h in ground arith

  pub any-false :
      (p : A → Bool) (xs : List A) → any p xs ≡ false → (x : A) → Memᴰ x xs → p x ≡ false
  any-false p [] h x m = elim m [ ]
  any-false p (y ∷ xs) h x (Memᴰ.head e) = subst (λ z. p z ≡ false) (sym e) (ground arith)
  any-false p (y ∷ xs) h x (Memᴰ.tail m) = any-false p xs (ground arith) x m

  pub any_of_mem : (p : A → Bool) (xs : List A) {x : A} → Memᴰ x xs → p x ≡ true → any p xs ≡ true
  any_of_mem p [] m h = elim m [ ]
  any_of_mem p (y ∷ xs) {x} (Memᴰ.head e) h =
      let q : p y ≡ true = subst (λ z. p z ≡ true) e h in ground arith
  any_of_mem p (y ∷ xs) (Memᴰ.tail m) h = let rest = any_of_mem p xs m h in ground arith

  pub mem_of_any :
      (p : A → Bool) (xs : List A) → any p xs ≡ true → (x : A) × Memᴰ x xs × (p x ≡ true)
  mem_of_any p [] h = absurd (ground arith)
  mem_of_any p (y ∷ xs) h = elim (Bool-cases (p y)) [
    | inl e ↦ (y, Memᴰ.head refl, e)
    | inr e ↦ let (x, m, q) = mem_of_any p xs (ground arith) in (x, Memᴰ.tail m, q)
  ]

  -- Where as many members pass both tests as pass the first, each that passes the first passes
  -- the second.
  pub count_if-le : (p q : A → Bool) (xs : List A) → count_if (λ x. p x && q x) xs ≤ count_if p xs
  count_if-le p q [] = omega arith
  count_if-le p q (x ∷ xs) = ground (arith, count_if-le p q xs)

  pub count_if_full :
      (p q : A → Bool) (xs : List A)
      → count_if (λ x. p x && q x) xs ≡ count_if p xs
      → (x : A) → Memᴰ x xs
      → p x ≡ true
      → q x ≡ true
  count_if_full p q [] h x m e = elim m [ ]
  count_if_full p q (y ∷ xs) h x (Memᴰ.head i) e =
      subst (λ z. q z ≡ true) (sym i)
        (let e' : p y ≡ true = subst (λ z. p z ≡ true) i e in ground (arith, count_if-le p q xs))
  count_if_full p q (y ∷ xs) h x (Memᴰ.tail m) e =
      count_if_full p q xs (ground (arith, count_if-le p q xs)) x m e

  pub mem_of_count_if :
      (p : A → Bool) (xs : List A) → 0 < count_if p xs → (x : A) × Memᴰ x xs × (p x ≡ true)
  mem_of_count_if p [] h = absurd (omega arith)
  mem_of_count_if p (y ∷ xs) h = elim (Bool-cases (p y)) [
    | inl e ↦ (y, Memᴰ.head refl, e)
    | inr e ↦ let (x, m, q) = mem_of_count_if p xs (ground arith) in (x, Memᴰ.tail m, q)
  ]

  -- What a permutation keeps.
  pub mem-perm : {xs ys : List A} {x : A} → Permᴰ xs ys → Memᴰ x xs → Memᴰ x ys
  mem-perm Permᴰ.nil m = m
  mem-perm (Permᴰ.cons e p) (Memᴰ.head i) = Memᴰ.head (i ∙ e)
  mem-perm (Permᴰ.cons e p) (Memᴰ.tail m) = Memᴰ.tail (mem-perm p m)
  mem-perm (Permᴰ.swap e f) (Memᴰ.head i) = Memᴰ.tail (Memᴰ.head (i ∙ e))
  mem-perm (Permᴰ.swap e f) (Memᴰ.tail (Memᴰ.head i)) = Memᴰ.head (i ∙ f)
  mem-perm (Permᴰ.swap e f) (Memᴰ.tail (Memᴰ.tail m)) = Memᴰ.tail (Memᴰ.tail m)
  mem-perm (Permᴰ.trans p q) m = mem-perm q (mem-perm p m)

  pub count_if-perm : (p : A → Bool) {xs ys : List A} → Permᴰ xs ys → count_if p xs ≡ count_if p ys
  count_if-perm p Permᴰ.nil = refl
  count_if-perm p (Permᴰ.cons e d) = let same = ap p e in ground (arith, count_if-perm p d)
  count_if-perm p (Permᴰ.swap e f) = let same = ap p e in let same' = ap p f in ground arith
  count_if-perm p (Permᴰ.trans d d') = count_if-perm p d ∙ count_if-perm p d'

  pub length-perm : {xs ys : List A} → Permᴰ xs ys → length xs ≡ length ys
  length-perm Permᴰ.nil = refl
  length-perm (Permᴰ.cons e d) = ap suc (length-perm d)
  length-perm (Permᴰ.swap e f) = refl
  length-perm (Permᴰ.trans d d') = length-perm d ∙ length-perm d'

  pub any-perm : (p : A → Bool) {xs ys : List A} → Permᴰ xs ys → any p xs ≡ any p ys
  any-perm p Permᴰ.nil = refl
  any-perm p (Permᴰ.cons e d) = let same = ap p e in ground (arith, any-perm p d)
  any-perm p (Permᴰ.swap e f) = let same = ap p e in let same' = ap p f in ground arith
  any-perm p (Permᴰ.trans d d') = any-perm p d ∙ any-perm p d'

  pub all-perm : (p : A → Bool) {xs ys : List A} → Permᴰ xs ys → all p xs ≡ all p ys
  all-perm p Permᴰ.nil = refl
  all-perm p (Permᴰ.cons e d) = let same = ap p e in ground (arith, all-perm p d)
  all-perm p (Permᴰ.swap e f) = let same = ap p e in let same' = ap p f in ground arith
  all-perm p (Permᴰ.trans d d') = all-perm p d ∙ all-perm p d'

  pub all_at : (p : A → Bool) (xs : List A) → all p xs ≡ true → (x : A) → Memᴰ x xs → p x ≡ true
  all_at p [] h x m = elim m [ ]
  all_at p (y ∷ xs) h x (Memᴰ.head e) = subst (λ z. p z ≡ true) (sym e) (ground arith)
  all_at p (y ∷ xs) h x (Memᴰ.tail m) = all_at p xs (ground arith) x m

  -- Where fewer members pass both tests than pass the first, one passes the first alone.
  pub mem_of_count_if_lt :
      (p q : A → Bool) (xs : List A)
      → count_if (λ x. p x && not (q x)) xs < count_if p xs
      → (x : A) × Memᴰ x xs × ((p x && q x) ≡ true)
  mem_of_count_if_lt p q [] h = absurd (omega arith)
  mem_of_count_if_lt p q (y ∷ xs) h = elim (Bool-cases (p y && q y)) [
    | inl e ↦ (y, Memᴰ.head refl, e)
    | inr e ↦ let (x, m, both) = mem_of_count_if_lt p q xs (ground arith) in (x, Memᴰ.tail m, both)
  ]

  pub any_none :
      (p : A → Bool) (xs : List A) → ((x : A) → Memᴰ x xs → p x ≡ false) → any p xs ≡ false
  any_none p [] h = refl
  any_none p (y ∷ xs) h =
      let rest = any_none p xs (λ x m. h x (Memᴰ.tail m)) in ground (arith, h y (Memᴰ.head refl))

  pub count_if_zero :
      (p : A → Bool) (xs : List A) → ((x : A) → Memᴰ x xs → p x ≡ false) → count_if p xs ≡ 0
  count_if_zero p [] h = refl
  count_if_zero p (y ∷ xs) h =
      let rest = count_if_zero p xs (λ x m. h x (Memᴰ.tail m)) in
      ground (arith, h y (Memᴰ.head refl))

  pub eq_nil_of_length : (xs : List A) → length xs ≡ 0 → xs ≡ []
  eq_nil_of_length [] h = refl
  eq_nil_of_length (x ∷ xs) h = absurd (omega arith)
