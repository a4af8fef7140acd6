-- ===== src/Go/Text/Arrows.antt =====
-- The two parts of a key are read back from it.
use cs331_t011_kubernetes_se.Common.{
  ◌≡◌, refl, sym, ap, ◌∙◌, Bool, true, false, ◌&&◌, Option, none, some, [], ◌∷◌, ◌++◌, arith, ◌==◌,
  if◌then◌else◌,
}
use mathlib.Core.List.{append_assoc}
use mathlib.Core.Option
use cs331_t011_kubernetes_se.Go.Text.{Str, str, split_arrow}

none-if-map {ℓ κ} :
    {A : Type ℓ} {B : Type κ} (hit : Bool) (a : A) (f : B → A) (rest : Option B)
    → (if hit then some a else Option.map f rest) ≡ none
    → (hit ≡ false) × (rest ≡ none)
none-if-map true a f rest h = absurd (ground arith)
none-if-map false a f none h = (refl, refl)
none-if-map false a f (some p) h = absurd (ground arith)

-- A source without an arrow is cut off at the arrow behind it.
split_arrow-append :
    (s d : Str) → split_arrow s ≡ none → split_arrow (s ++ (str "->" ++ d)) ≡ some (s, d)
unfolding split_arrow str
split_arrow-append [] d h = refl
split_arrow-append (c ∷ []) d h = ground arith
split_arrow-append (c ∷ e ∷ s) d h =
    let (miss, next) = none-if-map (c == b'-' && e == b'>') _ _ (split_arrow (e ∷ s)) h in
    rw (miss, split_arrow-append (e ∷ s) d next) refl

pub split_arrow-key :
    (s d : Str) → split_arrow s ≡ none → split_arrow (s ++ str "->" ++ d) ≡ some (s, d)
split_arrow-key s d h = ap split_arrow (append_assoc s (str "->") d) ∙ split_arrow-append s d h

-- Two keys of sources without an arrow are equal only if their parts are.
pub key-injective :
    (s d s' d' : Str)
    → split_arrow s ≡ none
    → split_arrow s' ≡ none
    → s ++ str "->" ++ d ≡ s' ++ str "->" ++ d'
    → (s ≡ s') × (d ≡ d')
key-injective s d s' d' h h' same =
    let ends = sym (split_arrow-key s d h) ∙ ap split_arrow same ∙ split_arrow-key s' d' h' in
    let pairs = ap (λ o. Option.get_or o (s, d)) ends in (ap (λ p. p.0) pairs, ap (λ p. p.1) pairs)
