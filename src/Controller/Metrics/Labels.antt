-- ===== src/Controller/Metrics/Labels.antt =====
-- Label values: what a reader of the text format makes of them.
use cs331_t011_kubernetes_se.Common.{
  ℕ, ◌≡◌, ◌≢◌, refl, ap, ◌∙◌, Bool, true, false, ◌||◌, Option, none, some, [], ◌∷◌, ◌++◌, arith,
  ◌==◌, All, if◌then◌else◌,
}
use mathlib.Core.List.{append_assoc}
use mathlib.Core.Option
use cs331_t011_kubernetes_se.Go.Text.{Str}
use cs331_t011_kubernetes_se.Controller.Metrics.{replace_byte, prom_label}

-- The reader of a quoted value in the text format, behind the opening quote: the value, and the
-- text behind the closing quote. A backslash hides a quote, a backslash or an `n` for a line feed;
-- a line feed itself ends no value. The first argument is whether a backslash stands before.
unfoldable pub read_label : Bool → Str → Option (Str × Str)
read_label hidden [] = none
read_label true (c ∷ s) =
    let rest = read_label false s in
    if c == b'\\' || c == b'"'
    then Option.map (λ p. (c ∷ p.0, p.1)) rest
    else if c == b'n'
    then Option.map (λ p. (10 ∷ p.0, p.1)) rest
    else none
read_label false (c ∷ s) =
    let escaped = read_label true s in
    let rest = read_label false s in
    if c == b'"'
    then some ([], s)
    else if c == 10
    then none
    else if c == b'\\'
    then escaped
    else Option.map (λ p. (c ∷ p.0, p.1)) rest

-- What one byte of a value becomes.
escaped_byte : ℕ → Str
escaped_byte c =
    if c == b'\\' then b'\\' ∷ b'\\' ∷ [] else if c == b'"' then b'\\' ∷ b'"' ∷ [] else c ∷ []

escape : Str → Str
escape [] = []
escape (c ∷ s) = escaped_byte c ++ escape s

prom_label-escape : (s : Str) → prom_label s ≡ escape s
unfolding prom_label replace_byte escape escaped_byte
prom_label-escape [] = refl
prom_label-escape (c ∷ s) = ground (arith, prom_label-escape s)

read_label-escaped_byte :
    (c : ℕ) (s : Str)
    → c ≢ 10
    → read_label false (escaped_byte c ++ s) ≡ Option.map (λ p. (c ∷ p.0, p.1)) (read_label false s)
unfolding read_label escaped_byte
read_label-escaped_byte c s h = ground arith

read_label-escape :
    (s rest : Str)
    → All (λ c. c ≢ 10) s
    → read_label false (escape s ++ b'"' ∷ rest) ≡ some (s, rest)
unfolding escape
read_label-escape [] rest h = unfold read_label in refl
read_label-escape (c ∷ s) rest h =
    ap (read_label false) (append_assoc (escaped_byte c) (escape s) (b'"' ∷ rest))
    ∙ read_label-escaped_byte c (escape s ++ b'"' ∷ rest) h.0
    ∙ ap (Option.map (λ p. (c ∷ p.0, p.1))) (read_label-escape s rest h.1)

-- A value without line feeds is read back from its label as it was, up to the closing quote that
-- stands behind it, whatever quotes and backslashes it holds.
pub read_label-prom_label :
    (s rest : Str)
    → All (λ c. c ≢ 10) s
    → read_label false (prom_label s ++ b'"' ∷ rest) ≡ some (s, rest)
read_label-prom_label s rest h =
    ap (λ t. read_label false (t ++ b'"' ∷ rest)) (prom_label-escape s) ∙ read_label-escape s rest h
