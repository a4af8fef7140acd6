-- ===== src/Go/Text/Sorted.antt =====
-- Sorting forgets the order of a list.
use cs331_t011_kubernetes_se.Common.{
  ◌≡◌, refl, sym, ap, ap₂, ◌∙◌, inl, inr, true, false, List, [], ◌∷◌, Permᴰ, arith, if◌then◌else◌,
  Bool-cases,
}
use mathlib.Core.Path.{subst}
use cs331_t011_kubernetes_se.Go.Text.{Str, str_lt, insert_sorted, sort_strings}

-- The order is a strict linear order.
str_lt_asymm : (s t : Str) → str_lt s t ≡ true → str_lt t s ≡ false
unfolding str_lt
str_lt_asymm [] [] h = refl
str_lt_asymm [] (d ∷ t) h = refl
str_lt_asymm (c ∷ s) [] h = absurd (ground arith)
str_lt_asymm (c ∷ s) (d ∷ t) h = ground (arith, str_lt_asymm s t)

str_lt_connex : (s t : Str) → str_lt s t ≡ false → str_lt t s ≡ false → s ≡ t
unfolding str_lt
str_lt_connex [] [] h k = refl
str_lt_connex [] (d ∷ t) h k = absurd (ground arith)
str_lt_connex (c ∷ s) [] h k = absurd (ground arith)
str_lt_connex (c ∷ s) (d ∷ t) h k = ground (arith, str_lt_connex s t)

str_lt_trans : (s t u : Str) → str_lt s t ≡ true → str_lt t u ≡ true → str_lt s u ≡ true
unfolding str_lt
str_lt_trans s t [] h k = absurd (ground arith)
str_lt_trans s [] (e ∷ u) h k = absurd (ground arith)
str_lt_trans [] (d ∷ t) (e ∷ u) h k = refl
str_lt_trans (c ∷ s) (d ∷ t) (e ∷ u) h k = ground (arith, str_lt_trans s t u)

-- At or above, and then above.
le_lt_trans : (a t b : Str) → str_lt t a ≡ false → str_lt t b ≡ true → str_lt a b ≡ true
le_lt_trans a t b h k = elim (Bool-cases (str_lt a t)) [
  | inl e ↦ str_lt_trans a t b e k
  | inr e ↦ subst (λ x. str_lt x b ≡ true) (str_lt_connex t a h e) k
]

-- In front of a list, two texts stand in their order.
front_comm :
    (a b : Str) (l : List Str)
    → (if str_lt b a then b ∷ a ∷ l else a ∷ b ∷ l) ≡ (if str_lt a b then a ∷ b ∷ l else b ∷ a ∷ l)
front_comm a b l = ground (arith, str_lt_asymm a b, str_lt_connex a b)

insert_behind :
    (s t : Str) (r : List Str) → str_lt t s ≡ true → insert_sorted s (t ∷ r) ≡ t ∷ insert_sorted s r
unfolding insert_sorted
insert_behind s t r h = rw h refl

insert_in_front :
    (s t : Str) (r : List Str) → str_lt t s ≡ false → insert_sorted s (t ∷ r) ≡ s ∷ t ∷ r
unfolding insert_sorted
insert_in_front s t r h = rw h refl

-- One goes behind the head and the other in front of it.
insert_around :
    (a b t : Str) (r : List Str)
    → str_lt t a ≡ true
    → str_lt t b ≡ false
    → insert_sorted a (insert_sorted b (t ∷ r)) ≡ insert_sorted b (insert_sorted a (t ∷ r))
insert_around a b t r p q =
    ap (insert_sorted a) (insert_in_front b t r q)
    ∙ insert_behind a b (t ∷ r) (le_lt_trans b t a q p)
    ∙ ap (λ l. b ∷ l) (insert_behind a t r p)
    ∙ sym (insert_in_front b t (insert_sorted a r) q)
    ∙ ap (insert_sorted b) (sym (insert_behind a t r p))

insert_before :
    (a b t : Str) (r : List Str)
    → str_lt t a ≡ false
    → str_lt t b ≡ false
    → insert_sorted a (insert_sorted b (t ∷ r))
      ≡ (if str_lt b a then b ∷ a ∷ t ∷ r else a ∷ b ∷ t ∷ r)
insert_before a b t r p q =
    ap (insert_sorted a) (insert_in_front b t r q)
    ∙ unfold insert_sorted in
      ap (λ l. if str_lt b a then b ∷ l else a ∷ b ∷ t ∷ r) (insert_in_front a t r p)

insert_sorted_comm :
    (a b : Str) (r : List Str)
    → insert_sorted a (insert_sorted b r) ≡ insert_sorted b (insert_sorted a r)
insert_sorted_comm a b [] = unfold insert_sorted in front_comm a b []
insert_sorted_comm a b (t ∷ r) = elim (Bool-cases (str_lt t a)) [
  | inl p ↦ elim (Bool-cases (str_lt t b)) [
    | inl q ↦
        ap (insert_sorted a) (insert_behind b t r q)
        ∙ insert_behind a t (insert_sorted b r) p
        ∙ ap (λ l. t ∷ l) (insert_sorted_comm a b r)
        ∙ sym (insert_behind b t (insert_sorted a r) q)
        ∙ ap (insert_sorted b) (sym (insert_behind a t r p))
    | inr q ↦ insert_around a b t r p q
  ]
  | inr p ↦ elim (Bool-cases (str_lt t b)) [
    | inl q ↦ sym (insert_around b a t r q p)
    | inr q ↦ insert_before a b t r p q ∙ front_comm a b (t ∷ r) ∙ sym (insert_before b a t r q p)
  ]
]

-- Lists that are one another reordered are sorted alike.
pub sort_strings-permuted : {xs ys : List Str} → Permᴰ xs ys → sort_strings xs ≡ sort_strings ys
unfolding sort_strings
sort_strings-permuted Permᴰ.nil = refl
sort_strings-permuted (Permᴰ.cons e p) = ap₂ insert_sorted e (sort_strings-permuted p)
sort_strings-permuted (Permᴰ.swap {a = a} {b = b} {l = l} e f) =
    insert_sorted_comm a b (sort_strings l)
    ∙ ap₂ (λ x y. insert_sorted x (insert_sorted y (sort_strings l))) f e
sort_strings-permuted (Permᴰ.trans p q) = sort_strings-permuted p ∙ sort_strings-permuted q
