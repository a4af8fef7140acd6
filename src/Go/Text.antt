-- ===== src/Go/Text.antt =====
-- Go strings as lists of bytes, with what the code uses of the packages `strings`, `sort` and
-- `fmt`.
pub mod Numbers
pub mod Arrows
pub mod Sorted
use Prim.Native.Char.{code}
use Prim.Native.String.{String}
use cs331_t011_kubernetes_se.Common.{
  ℕ, zero, suc, ◌+◌, ◌-◌, ◌*◌, ◌/◌, ◌%◌, ◌<◌, ◌≡◌, refl, ap, ◌↔◌, Bool, true, false, ◌&&◌, ◌||◌,
  Option, none, some, List, [], ◌∷◌, ◌++◌, Permᴰ, arith, ltb, leb, ◌==◌, if◌then◌else◌, any,
}
use cs331_t011_kubernetes_se.Common.Int.{ℤ, pos, negsuc, int_limit}
use cs331_t011_kubernetes_se.Common.Order.{lt_wf}
use mathlib.Core.WellFounded.{Acc}
use mathlib.Core.Option
use mathlib.Core.List.{reverse}
use mathlib.Core.List.Permᴰ
use native.Mathlib.Decide.{dec_lt}
use mathlib.Core.Logic.{dite}

abbrev pub Str : Type 0
Str = List ℕ

-- A literal; the source's literals are ASCII.
unfoldable pub str : String → Str
str String.[] = []
str (String.◌∷◌ c s) = code c ∷ str s

-- `a == b`
unfoldable pub str_eq : Str → Str → Bool
str_eq [] [] = true
str_eq [] (d ∷ t) = false
str_eq (c ∷ s) [] = false
str_eq (c ∷ s) (d ∷ t) = c == d && str_eq s t

pub str_eq_refl : (s : Str) → str_eq s s ≡ true
unfolding str_eq
str_eq_refl [] = refl
str_eq_refl (c ∷ s) = ground (arith, str_eq_refl s)

pub eq_of_str_eq : (s t : Str) → str_eq s t ≡ true → s ≡ t
unfolding str_eq
eq_of_str_eq [] [] h = refl
eq_of_str_eq [] (d ∷ t) h = ground arith
eq_of_str_eq (c ∷ s) [] h = ground arith
eq_of_str_eq (c ∷ s) (d ∷ t) h = ground (arith, eq_of_str_eq s t)

pub str_eq_iff : (s t : Str) → (str_eq s t ≡ true) ↔ (s ≡ t)
str_eq_iff s t = (eq_of_str_eq s t, λ e. ground (arith, str_eq_refl s, ap (str_eq s) e))

abbrev pub is_empty : Str → Bool
is_empty [] = true
is_empty (c ∷ s) = false

-- The order of `<` on strings, as `sort.Strings` compares them.
unfoldable pub str_lt : Str → Str → Bool
str_lt s [] = false
str_lt [] (d ∷ t) = true
str_lt (c ∷ s) (d ∷ t) = if c == d then str_lt s t else ltb c d

unfoldable pub has_prefix : Str → Str → Bool
has_prefix s [] = true
has_prefix [] (p ∷ ps) = false
has_prefix (c ∷ s) (p ∷ ps) = c == p && has_prefix s ps

-- `strings.Contains(s, sub)`
unfoldable pub contains : Str → Str → Bool
contains [] sub = has_prefix [] sub
contains (c ∷ s) sub = has_prefix (c ∷ s) sub || contains s sub

-- `strings.SplitN(key, "->", 2)`, where it has two parts: the texts before and after the first
-- arrow. `none` stands for a key that has none.
unfoldable pub split_arrow : Str → Option (Str × Str)
split_arrow [] = none
split_arrow (c ∷ []) = none
split_arrow (c ∷ d ∷ s) =
    let rest = split_arrow (d ∷ s) in
    if c == b'-' && d == b'>' then some ([], s) else Option.map (λ p. (c ∷ p.0, p.1)) rest

-- `strings.Split(s, ",")`: the text of the first part so far is handed on reversed.
split_from : Str → Str → List Str
split_from part [] = reverse part ∷ []
split_from part (c ∷ s) =
    let here = split_from [] s in
    let on = split_from (c ∷ part) s in if c == b',' then reverse part ∷ here else on

unfoldable pub split_on_comma : Str → List Str
unfolding split_from
split_on_comma s = split_from [] s

-- The white space of ASCII, which `strings.TrimSpace` removes at both ends.
unfoldable pub is_space : ℕ → Bool
is_space c = c == 32 || (ltb 8 c && ltb c 14)

unfoldable pub trim_left : Str → Str
trim_left [] = []
trim_left (c ∷ s) = let rest = trim_left s in if is_space c then rest else c ∷ s

unfoldable pub trim_space : Str → Str
trim_space s = reverse (trim_left (reverse (trim_left s)))

-- `strings.ToLower` on ASCII.
unfoldable pub to_lower : Str → Str
to_lower [] = []
to_lower (c ∷ s) = (if ltb 64 c && ltb c 91 then c + 32 else c) ∷ to_lower s

-- `strings.Join(parts, ", ")`
unfoldable pub join_commas : List Str → Str
unfolding str
join_commas [] = []
join_commas (s ∷ []) = s
join_commas (s ∷ t ∷ r) = s ++ str ", " ++ join_commas (t ∷ r)

insert_sorted : Str → List Str → List Str
insert_sorted s [] = s ∷ []
insert_sorted s (t ∷ r) = if str_lt t s then t ∷ insert_sorted s r else s ∷ t ∷ r

-- `sort.Strings`: equal strings are one, so any sorting yields the same list.
unfoldable pub sort_strings : List Str → List Str
unfolding insert_sorted str_lt
sort_strings [] = []
sort_strings (s ∷ r) = insert_sorted s (sort_strings r)

insert_sorted-perm : (s : Str) (r : List Str) → Permᴰ (insert_sorted s r) (s ∷ r)
unfolding insert_sorted
insert_sorted-perm s [] = Permᴰ.refl _
insert_sorted-perm s (t ∷ r) = step (str_lt t s) (insert_sorted-perm s r)
  where
    step :
        (b : Bool)
        → Permᴰ (insert_sorted s r) (s ∷ r)
        → Permᴰ (if b then t ∷ insert_sorted s r else s ∷ t ∷ r) (s ∷ t ∷ r)
    step true rest = Permᴰ.trans (Permᴰ.cons refl rest) (Permᴰ.swap refl refl)
    step false rest = Permᴰ.refl _

-- Sorting reorders.
pub sort_strings-perm : (r : List Str) → Permᴰ (sort_strings r) r
unfolding sort_strings
sort_strings-perm [] = Permᴰ.nil
sort_strings-perm (s ∷ r) =
    Permᴰ.trans (insert_sorted-perm s (sort_strings r)) (Permᴰ.cons refl (sort_strings-perm r))

any-insert_sorted :
    (p : Str → Bool) (s : Str) (r : List Str) → any p (insert_sorted s r) ≡ (p s || any p r)
unfolding insert_sorted
any-insert_sorted p s [] = refl
any-insert_sorted p s (t ∷ r) = ground (arith, any-insert_sorted p s r)

-- Sorting keeps the members.
pub any-sort_strings : (p : Str → Bool) (r : List Str) → any p (sort_strings r) ≡ any p r
unfolding sort_strings
any-sort_strings p [] = refl
any-sort_strings p (s ∷ r) =
    ground (arith, any-insert_sorted p s (sort_strings r), any-sort_strings p r)

pub digits_acc : (n : ℕ) → Acc ◌<◌ n → Str → Str
digits_acc n (Acc.intro _ smaller) acc =
    dite (dec_lt 9 n)
      (λ h. digits_acc (n / 10) (smaller (n / 10) (omega arith)) ((48 + n % 10) ∷ acc))
      (λ _. (48 + n) ∷ acc)

-- `%d` of a number that is not negative.
unfoldable pub decimal : ℕ → Str
unfolding digits_acc lt_wf dec_lt
decimal n = digits_acc n (lt_wf.apply n) []

-- The digits of `strconv.Atoi`, with the number read so far; an error if one is no digit.
pub read_digits : ℕ → Str → Option ℕ
read_digits n [] = some n
read_digits n (c ∷ s) =
    let rest = read_digits (n * 10 + (c - 48)) s in if ltb 47 c && ltb c 58 then rest else none

unfoldable pub read_number : Str → Option ℕ
unfolding read_digits
read_number [] = none
read_number (c ∷ s) = read_digits 0 (c ∷ s)

-- `-n` as an integer.
unfoldable pub negate : ℕ → ℤ
negate zero = pos 0
negate (suc n) = negsuc n

-- `strconv.Atoi`: a sign is optional, and a number that does not fit an `int` is an error.
unfoldable pub atoi : Str → Option ℤ
unfolding read_number negate
atoi [] = none
atoi (c ∷ s) =
    if c == b'-'
    then Option.bind (read_number s) (λ n. if leb n int_limit then some (negate n) else none)
    else Option.bind (read_number (if c == b'+' then s else c ∷ s))
        (λ n. if ltb n int_limit then some (pos n) else none)
