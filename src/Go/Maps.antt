-- ===== src/Go/Maps.antt =====
-- Go maps with string keys as association lists, and the order in which `range` visits them.
pub mod Sets
use cs331_t011_kubernetes_se.Common.{
  ℕ, ◌+◌, ◌≡◌, refl, sym, ◌∙◌, Bool, true, false, ◌||◌, Option, none, some, List, [], ◌∷◌, Memᴰ,
  Permᴰ, arith, if◌then◌else◌, any, any-perm, any-false, Bool-cases, inl, inr,
}
use cs331_t011_kubernetes_se.Go.Text.{Str, str_eq, str_eq_iff, str_eq_refl}
use mathlib.Core.Option
use mathlib.Core.Path.{subst}

abbrev pub GoMap {ℓ} : Type ℓ → Type ℓ
GoMap V = List (Str × V)

-- The language leaves the order of a `range` over a map open, and lets it differ from one loop to
-- the next: `visit` is that order for each loop, numbered by its place. A loop meets every entry
-- once.
pub record MapOrder : Type 1 where
  pub visit : (A : Type 0) → ℕ → List A → List A
  pub visit_perm : (A : Type 0) (place : ℕ) (xs : List A) → Permᴰ (visit A place xs) xs

pub str_eq_sym : (s t : Str) → str_eq s t ≡ str_eq t s
str_eq_sym s t = ground (arith, str_eq_iff s t, str_eq_iff t s)

module _ {ℓ} {V : Type ℓ} where
  -- `v, ok := m[k]`
  unfoldable pub get? : Str → GoMap V → Option V
  get? k [] = none
  get? k ((j, v) ∷ m) = if str_eq j k then some v else get? k m

  -- `m[k] = v`
  unfoldable pub put : Str → V → GoMap V → GoMap V
  put k v [] = (k, v) ∷ []
  put k v ((j, w) ∷ m) = if str_eq j k then (j, v) ∷ m else (j, w) ∷ put k v m

  abbrev pub has_key : Str → GoMap V → Bool
  has_key k m = any (λ e. str_eq e.0 k) m

  -- No key stands twice.
  abbrev pub IsMap : GoMap V → Type 0
  IsMap [] = Unit
  IsMap (e ∷ m) = (has_key e.0 m ≡ false) × IsMap m

module _ {ℓ} {V : Type ℓ} where
  pub get?-put :
      (k j : Str) (v : V) (m : GoMap V)
      → get? j (put k v m) ≡ (if str_eq k j then some v else get? j m)
  unfolding get? put
  get?-put k j v [] = refl
  get?-put k j v ((i, w) ∷ m) =
      ground (arith, str_eq_iff k j, str_eq_iff i k, str_eq_iff i j, get?-put k j v m)

  pub get?-none : (k : Str) (m : GoMap V) → has_key k m ≡ false → get? k m ≡ none
  unfolding get?
  get?-none k [] h = refl
  get?-none k ((j, v) ∷ m) h = ground (arith, get?-none k m)

  has_key-put :
      (k j : Str) (v : V) (m : GoMap V) → has_key j (put k v m) ≡ (str_eq k j || has_key j m)
  unfolding put
  has_key-put k j v [] = refl
  has_key-put k j v ((i, w) ∷ m) =
      ground (arith, str_eq_iff k j, str_eq_iff i k, str_eq_iff i j, has_key-put k j v m)

  pub put-IsMap : (k : Str) (v : V) (m : GoMap V) → IsMap m → IsMap (put k v m)
  unfolding put
  put-IsMap k v [] h = (refl, tt)
  put-IsMap k v ((j, w) ∷ m) h = by_test (str_eq j k) refl (put-IsMap k v m h.1)
    where
      by_test :
          (b : Bool)
          → str_eq j k ≡ b
          → IsMap (put k v m)
          → IsMap (if b then (j, v) ∷ m else (j, w) ∷ put k v m)
      by_test true e rest = h
      by_test false e rest = (ground (arith, has_key-put k j v m, str_eq_sym k j, h.0), rest)

  pub IsMap-perm : {xs ys : GoMap V} → Permᴰ xs ys → IsMap xs → IsMap ys
  IsMap-perm Permᴰ.nil h = tt
  IsMap-perm (Permᴰ.cons {a = x} {b = y} {l₂ = ys} e p) h = (
    subst (λ z. has_key z.0 ys ≡ false) e (sym (any-perm (λ z. str_eq z.0 x.0) p) ∙ h.0),
    IsMap-perm p h.1,
  )
  IsMap-perm (Permᴰ.swap {a = x} {b = y} {a' = x'} {b' = y'} {l = l} e f) h =
      subst (λ z. IsMap (z ∷ y' ∷ l)) f
        (subst (λ z. IsMap (y ∷ z ∷ l)) e (ground (arith, str_eq_sym x.0 y.0)))
  IsMap-perm (Permᴰ.trans p q) h = IsMap-perm q (IsMap-perm p h)

  -- On a map, what a key holds does not depend on the order of the entries.
  pub get?-perm : (k : Str) {xs ys : GoMap V} → Permᴰ xs ys → IsMap xs → get? k xs ≡ get? k ys
  unfolding get?
  get?-perm k Permᴰ.nil h = refl
  get?-perm k (Permᴰ.cons {a = x} {b = y} {l₁ = xs} {l₂ = ys} e p) h =
      subst (λ z. get? k (x ∷ xs) ≡ get? k (z ∷ ys)) e (ground (arith, get?-perm k p h.1))
  get?-perm k (Permᴰ.swap {a = x} {b = y} {a' = x'} {b' = y'} {l = l} e f) h =
      subst (λ z. get? k (x ∷ y ∷ l) ≡ get? k (z ∷ y' ∷ l)) f
        (subst (λ z. get? k (x ∷ y ∷ l) ≡ get? k (y ∷ z ∷ l)) e
          (ground (arith, str_eq_iff x.0 k, str_eq_iff y.0 k, str_eq_iff y.0 x.0)))
  get?-perm k (Permᴰ.trans p q) h = get?-perm k p h ∙ get?-perm k q (IsMap-perm p h)

  pub get?_of_mem : (k : Str) (v : V) (m : GoMap V) → IsMap m → Memᴰ (k, v) m → get? k m ≡ some v
  unfolding get?
  get?_of_mem k v [] h i = elim i [ ]
  get?_of_mem k v (e ∷ m) h (Memᴰ.head i) =
      subst (λ z. get? k (z ∷ m) ≡ some v) i (ground (arith, str_eq_refl k))
  get?_of_mem k v (e ∷ m) h (Memᴰ.tail i) =
      let apart = any-false (λ z. str_eq z.0 e.0) m h.0 (k, v) i in
      ground (arith, str_eq_sym e.0 k, get?_of_mem k v m h.1 i)

  pub mem_of_get? : (k : Str) (v : V) (m : GoMap V) → get? k m ≡ some v → Memᴰ (k, v) m
  unfolding get?
  mem_of_get? k v [] h = absurd (ground arith)
  mem_of_get? k v ((j, w) ∷ m) h = elim (Bool-cases (str_eq j k)) [
    | inl e ↦ Memᴰ.head (ground (arith, str_eq_iff j k))
    | inr e ↦ Memᴰ.tail (mem_of_get? k v m (ground arith))
  ]

-- `m[k]` of a map of counts: 0 where the key is missing.
abbrev pub count_of : Str → GoMap ℕ → ℕ
count_of k m = Option.get_or (get? k m) 0

-- `m[k]++`. The counts are of a matrix's pairs, so they stay far below 2^63.
unfoldable pub incr : Str → GoMap ℕ → GoMap ℕ
incr k m = put k (count_of k m + 1) m

pub count_of-incr :
    (k j : Str) (m : GoMap ℕ) → count_of j (incr k m) ≡ (if str_eq k j then 1 else 0) + count_of j m
unfolding incr
count_of-incr k j m = ground (arith, get?-put k j (count_of k m + 1) m, str_eq_iff k j)

abbrev pub has : Str → List Str → Bool
has k s = any (λ x. str_eq x k) s

-- `s[k] = struct{}{}`
unfoldable pub add : Str → List Str → List Str
add k [] = k ∷ []
add k (j ∷ s) = if str_eq j k then j ∷ s else j ∷ add k s

pub has-add : (k j : Str) (s : List Str) → has j (add k s) ≡ (str_eq k j || has j s)
unfolding add
has-add k j [] = refl
has-add k j (i ∷ s) = ground (arith, str_eq_iff k j, str_eq_iff i k, str_eq_iff i j, has-add k j s)
