-- ===== src/Analysis/Classifier/Orders/Steps.antt =====
-- The steps of the classifier that no loop over nodes is behind, in two orders of the maps.
use cs331_t011_kubernetes_se.Common.{
  ℕ, ◌<◌, ◌≡◌, refl, sym, Bool, true, false, ◌&&◌, Option, none, some, List, [], ◌∷◌, Permᴰ, arith,
  length, count_if, all-perm, ltb, if◌then◌else◌,
}
use cs331_t011_kubernetes_se.Go.Text.{
  Str, sort_strings, str, str_eq, str_eq_refl, eq_of_str_eq, contains,
}
use cs331_t011_kubernetes_se.Go.Maps.{count_of}
use cs331_t011_kubernetes_se.Go.Floats.{Floats, FloatLaws, quot, quot_limit}
use cs331_t011_kubernetes_se.Contract.{Verdict}
use cs331_t011_kubernetes_se.Analysis.Scan.{FailedPair}
use cs331_t011_kubernetes_se.Analysis.Tallies.{Tallies}
use cs331_t011_kubernetes_se.Analysis.Evidence.{Entry}
use cs331_t011_kubernetes_se.Analysis.Hypotheses.{
  find_pair_local, find_policy_scoped, find_partition,
}
use cs331_t011_kubernetes_se.Analysis.Hypotheses.Alike.{Alike, BothAlike}
use cs331_t011_kubernetes_se.Analysis.Hypotheses.Searches.{SameCounts}
use cs331_t011_kubernetes_se.Analysis.Classifier.{first_some}

-- The verdicts of two rows of steps that go along.
unfoldable pub AllAlike :
    (fl : Floats) → List (Option (Verdict fl.F)) → List (Option (Verdict fl.F)) → Type 0
AllAlike fl [] [] = Unit
AllAlike fl [] (o ∷ os) = ⊥
AllAlike fl (o ∷ os) [] = ⊥
AllAlike fl (o ∷ os) (o' ∷ os') = BothAlike fl o o' × AllAlike fl os os'

pub first_some-Alike :
    (fl : Floats) (os os' : List (Option (Verdict fl.F))) (rest rest' : Verdict fl.F)
    → AllAlike fl os os'
    → Alike fl rest rest'
    → Alike fl (first_some os rest) (first_some os' rest')
unfolding AllAlike BothAlike
first_some-Alike fl [] [] rest rest' h last = last
first_some-Alike fl [] (o ∷ os) rest rest' h last = absurd h
first_some-Alike fl (o ∷ os) [] rest rest' h last = absurd h
first_some-Alike fl (none ∷ os) (none ∷ os') rest rest' h last =
    first_some-Alike fl os os' rest rest' h.1 last
first_some-Alike fl (none ∷ os) (some w ∷ os') rest rest' h last = absurd h.0
first_some-Alike fl (some v ∷ os) (none ∷ os') rest rest' h last = absurd h.0
first_some-Alike fl (some v ∷ os) (some w ∷ os') rest rest' h last = h.0

-- Two lists of one failed pair on which every test counts alike have the same ends.
single-ends :
    (x y : FailedPair)
    → ((p : FailedPair → Bool) → count_if p (x ∷ []) ≡ count_if p (y ∷ []))
    → (x.src ≡ y.src) × (x.dst ≡ y.dst)
single-ends x y same = (
  sym (
      eq_of_str_eq y.src x.src
        (ground (arith, same (λ fp. str_eq fp.src x.src), str_eq_refl x.src))),
  sym (
      eq_of_str_eq y.dst x.dst
        (ground (arith, same (λ fp. str_eq fp.dst x.dst), str_eq_refl x.dst))),
)

if-BothAlike :
    (fl : Floats) (b : Bool) (v w : Verdict fl.F)
    → Alike fl v w
    → BothAlike fl (if b then some v else none) (if b then some w else none)
unfolding BothAlike
if-BothAlike fl true v w h = h
if-BothAlike fl false v w h = tt

module _ {fl : Floats} (laws : FloatLaws fl) where
  pub one_refl : fl.fle (fl.lit 1 0) (fl.lit 1 0) ≡ true
  one_refl = laws.le_trans _ _ _ laws.lit_one.0 laws.lit_one.1

  pub zero_refl : fl.fle (fl.lit 0 0) (fl.lit 0 0) ≡ true
  zero_refl = laws.le_trans _ _ _ laws.lit_zero.0 laws.lit_zero.1

  pub quot_refl :
      (k b : ℕ)
      → 0 < b
      → k < quot_limit
      → b < quot_limit
      → fl.fle (quot fl k b) (quot fl k b) ≡ true
  quot_refl k b positive few small =
      (laws.quot_le k b k b positive positive few small few small).1 (omega arith)

  pub pair_local-BothAlike :
      (t u : Tallies) (xs ys : List FailedPair)
      → SameCounts t u
      → length xs ≡ length ys
      → ((p : FailedPair → Bool) → count_if p xs ≡ count_if p ys)
      → BothAlike fl (find_pair_local fl t xs) (find_pair_local fl u ys)
  unfolding find_pair_local BothAlike Alike SameCounts
  pair_local-BothAlike t u [] [] counts long same = tt
  pair_local-BothAlike t u [] (y ∷ ys) counts long same = absurd (omega arith)
  pair_local-BothAlike t u (x ∷ xs) [] counts long same = absurd (omega arith)
  pair_local-BothAlike t u (x ∷ x' ∷ xs) (y ∷ []) counts long same = absurd (omega arith)
  pair_local-BothAlike t u (x ∷ []) (y ∷ y' ∷ ys) counts long same = absurd (omega arith)
  pair_local-BothAlike t u (x ∷ x' ∷ xs) (y ∷ y' ∷ ys) counts long same = tt
  pair_local-BothAlike t u (x ∷ []) (y ∷ []) counts long same =
      let (src, dst) = single-ends x y same in
      let (rf, _, rt, _) = counts y.src in
      let (_, cf, _, ct) = counts y.dst in
      rw (src, dst, rf, rt, cf, ct)
        (if-BothAlike fl
          (ltb (count_of y.src u.row_failures) (count_of y.src u.row_total)
            && ltb (count_of y.dst u.col_failures) (count_of y.dst u.col_total))
          _ _ (refl, one_refl, one_refl, λ _. refl))

  pub policy-BothAlike :
      (total pairs : ℕ) (m m' : List (Entry fl)) (nodes nodes' : List Str)
      → Permᴰ m m'
      → sort_strings nodes ≡ sort_strings nodes'
      → BothAlike fl
          (find_policy_scoped fl total pairs m nodes)
          (find_policy_scoped fl total pairs m' nodes')
  unfolding find_policy_scoped Alike
  policy-BothAlike total pairs m m' nodes nodes' p sorted =
      rw (all-perm (λ (e : Entry fl). contains e.1.error (str "refused")) p)
        (if-BothAlike fl _ _ _ (refl, one_refl, one_refl, λ _. sorted))

  pub partition-BothAlike :
      (floor : fl.F) (total pairs : ℕ) (nodes nodes' : List Str)
      → fl.fle (quot fl total pairs) (quot fl total pairs) ≡ true
      → sort_strings nodes ≡ sort_strings nodes'
      → BothAlike fl
          (find_partition fl floor total pairs nodes)
          (find_partition fl floor total pairs nodes')
  unfolding find_partition Alike
  partition-BothAlike floor total pairs nodes nodes' same sorted =
      if-BothAlike fl _ _ _ (refl, same, same, λ _. sorted)
