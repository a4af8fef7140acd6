-- ===== src/Go/Maps/Sets.antt =====
-- Sets of texts as lists without a text twice: two with the same members are one another
-- reordered.
use cs331_t011_kubernetes_se.Common.{
  ◌≡◌, refl, inl, inr, Bool, true, false, not, ◌&&◌, List, [], ◌∷◌, Permᴰ, arith, if◌then◌else◌,
  Bool-cases,
}
use mathlib.Core.List.Permᴰ
use mathlib.Core.Path.{subst}
use cs331_t011_kubernetes_se.Go.Text.{Str, str_eq, str_eq_iff, str_eq_refl, sort_strings}
use cs331_t011_kubernetes_se.Go.Text.Sorted.{sort_strings-permuted}
use cs331_t011_kubernetes_se.Go.Maps.{has, add, has-add, str_eq_sym}

abbrev pub IsDistinct : List Str → Type 0
IsDistinct [] = Unit
IsDistinct (x ∷ xs) = (has x xs ≡ false) × IsDistinct xs

pub add-IsDistinct : (k : Str) (s : List Str) → IsDistinct s → IsDistinct (add k s)
unfolding add
add-IsDistinct k [] h = (refl, tt)
add-IsDistinct k (j ∷ s) h = by_test (str_eq j k) refl (add-IsDistinct k s h.1)
  where
    by_test :
        (b : Bool)
        → str_eq j k ≡ b
        → IsDistinct (add k s)
        → IsDistinct (if b then j ∷ s else j ∷ add k s)
    by_test true e rest = h
    by_test false e rest = (ground (arith, has-add k j s, str_eq_sym k j, h.0), rest)

remove : Str → List Str → List Str
remove x [] = []
remove x (y ∷ ys) = if str_eq y x then ys else y ∷ remove x ys

-- A member in front of the others.
remove-perm : (x : Str) (ys : List Str) → has x ys ≡ true → Permᴰ ys (x ∷ remove x ys)
unfolding remove
remove-perm x [] h = absurd (ground arith)
remove-perm x (y ∷ ys) h = elim (Bool-cases (str_eq y x)) [
  | inl e ↦ rw e (Permᴰ.cons ((str_eq_iff y x).0 e) (Permᴰ.refl ys))
  | inr e ↦
      let member : has x ys ≡ true = ground arith in
      rw e (Permᴰ.trans (Permᴰ.cons refl (remove-perm x ys member)) (Permᴰ.swap refl refl))
]

has_equal : (y n : Str) (ys : List Str) → has y ys ≡ false → str_eq y n ≡ true → has n ys ≡ false
has_equal y n ys h e = subst (λ z. has z ys ≡ false) ((str_eq_iff y n).0 e) h

has-remove :
    (x n : Str) (ys : List Str)
    → IsDistinct ys
    → has n (remove x ys) ≡ (has n ys && not (str_eq x n))
unfolding remove
has-remove x n [] h = refl
has-remove x n (y ∷ ys) h = ground (
  arith,
  has-remove x n ys h.1,
  has_equal y n ys h.0,
  str_eq_iff y x,
  str_eq_iff x n,
  str_eq_iff y n,
)

remove-IsDistinct : (x : Str) (ys : List Str) → IsDistinct ys → IsDistinct (remove x ys)
unfolding remove
remove-IsDistinct x [] h = tt
remove-IsDistinct x (y ∷ ys) h = elim (Bool-cases (str_eq y x)) [
  | inl e ↦ rw e h.1
  | inr e ↦ rw e (ground (arith, has-remove x y ys h.1, h.0), remove-IsDistinct x ys h.1)
]

same_members-perm :
    (xs ys : List Str)
    → IsDistinct xs
    → IsDistinct ys
    → ((n : Str) → has n xs ≡ has n ys)
    → Permᴰ xs ys
same_members-perm [] [] h k same = Permᴰ.nil
same_members-perm [] (y ∷ ys) h k same = absurd (ground (arith, same y, str_eq_refl y))
same_members-perm (x ∷ xs) ys h k same =
    let member : has x ys ≡ true = ground (arith, same x, str_eq_refl x) in
    let rest : (n : Str) → has n xs ≡ has n (remove x ys) =
      λ n. ground (arith, same n, has-remove x n ys k, has_equal x n xs h.0) in
    Permᴰ.trans
      (Permᴰ.cons refl
        (same_members-perm xs (remove x ys) h.1 (remove-IsDistinct x ys k) (λ n. rest n)))
      (Permᴰ.symm (remove-perm x ys member))

-- Two sets with the same members are sorted alike.
pub sort_strings-same :
    (xs ys : List Str)
    → IsDistinct xs
    → IsDistinct ys
    → ((n : Str) → has n xs ≡ has n ys)
    → sort_strings xs ≡ sort_strings ys
sort_strings-same xs ys h k same = sort_strings-permuted (same_members-perm xs ys h k same)
