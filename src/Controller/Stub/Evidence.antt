-- ===== src/Controller/Stub/Evidence.antt =====
-- The evidence behind the verdicts of the small classifier.
use cs331_t011_kubernetes_se.Common.{
  ◌+◌, ◌≡◌, ◌⊎◌, inl, inr, refl, sym, ap, ◌∙◌, Bool, true, false, not, ◌&&◌, Option, none, some,
  List, [], ◌∷◌, Memᴰ, arith, count_if, count_if_full, mem_of_count_if, Bool-cases, Option-cases,
  if◌then◌else◌,
}
use cs331_t011_kubernetes_se.Go.Text.{Str, str_eq, split_arrow}
use cs331_t011_kubernetes_se.Go.Maps.{get?}
use cs331_t011_kubernetes_se.Go.Floats.{Floats}
use cs331_t011_kubernetes_se.Contract.{ProbeResult, Matrix, Verdict}
use cs331_t011_kubernetes_se.Controller.Stub.{
  pair_key, Observed, nothing_observed, all_lost, probe_failed, observe, observe_node, lost_verdict,
  find_lost, pair_verdict, find_single,
}

abbrev pub on_result {ℓ} : {A : Type ℓ} → (A → Bool) → Option A → Bool
on_result test none = false
on_result test (some r) = test r

module _ (fl : Floats) (m : Matrix fl.F) where
  -- The pairs of a node in one direction: `key` is the key of the pair with another node.
  module _ (key : Str → Str) (node : Str) where
    -- The pair with the other node is in the matrix.
    abbrev pub measured : Str → Bool
    measured peer = not (str_eq node peer) && on_result (λ r. true) (get? (key peer) m)

    abbrev pub measured_lost : Str → Bool
    measured_lost peer = on_result (probe_failed fl) (get? (key peer) m)

    -- There is such a pair, and each of them failed or lost a probe.
    abbrev pub DirectionLost : List Str → Type 0
    DirectionLost nodes =
        ((peer : Str) × Memᴰ peer nodes × (measured peer ≡ true))
        × ((peer : Str) → Memᴰ peer nodes → measured peer ≡ true → measured_lost peer ≡ true)

    observe_each : List Str → Observed → Observed
    observe_each [] o = o
    observe_each (peer ∷ rest) o =
        observe_each rest (if str_eq node peer then o else observe fl (get? (key peer) m) o)

    observe-counts :
        (same : Bool) (r : Option (ProbeResult fl.F)) (o : Observed)
        → ((if same then o else observe fl r o).failures
            ≡ (if not same && on_result (λ r. true) r && on_result (probe_failed fl) r
                then 1
                else 0)
              + o.failures)
          × ((if same then o else observe fl r o).total
              ≡ (if not same && on_result (λ r. true) r then 1 else 0) + o.total)
    unfolding observe
    observe-counts true r o = (omega arith, omega arith)
    observe-counts false none o = (omega arith, omega arith)
    observe-counts false (some r) o = (ground arith, omega arith)

    observe_each-counts :
        (peers : List Str) (o : Observed)
        → ((observe_each peers o).failures
            ≡ count_if (λ p. measured p && measured_lost p) peers + o.failures)
          × ((observe_each peers o).total ≡ count_if measured peers + o.total)
    unfolding observe_each
    observe_each-counts [] o = (omega arith, omega arith)
    observe_each-counts (peer ∷ rest) o =
        let here = observe-counts (str_eq node peer) (get? (key peer) m) o in
        let (f, t) =
          observe_each-counts rest
            (if str_eq node peer then o else observe fl (get? (key peer) m) o) in
        (ground (arith, f, here.0), ground (arith, t, here.1))

    all_lost-DirectionLost :
        (peers : List Str)
        → all_lost (observe_each peers nothing_observed) ≡ true
        → DirectionLost peers
    unfolding all_lost
    all_lost-DirectionLost peers h =
        let (f, t) = observe_each-counts peers nothing_observed in
        (
          mem_of_count_if measured peers (ground arith),
          count_if_full measured measured_lost peers (ground arith),
        )

  observe_node-each :
      (node : Str) (peers : List Str) (out into : Observed)
      → observe_node fl m node peers out into ≡ (
        observe_each (pair_key node) node peers out,
        observe_each (λ peer. pair_key peer node) node peers into,
      )
  unfolding observe_node observe_each
  observe_node-each node [] out into = refl
  observe_node-each node (peer ∷ rest) out into = observe_node-each node rest _ _

  -- The node lost everything it sent or everything sent to it.
  abbrev pub NodeLost : List Str → Str → Type 0
  NodeLost nodes node =
      DirectionLost (pair_key node) node nodes
      ⊎ DirectionLost (λ peer. pair_key peer node) node nodes

  pub find_lost-eq-some :
      (nodes rest : List Str) (v : Verdict fl.F)
      → find_lost fl m nodes rest ≡ some v
      → (n : Str) × (lost_verdict fl n ≡ v) × NodeLost nodes n
  unfolding find_lost
  find_lost-eq-some nodes [] v h = absurd (ground arith)
  find_lost-eq-some nodes (node ∷ rest) v h =
      let found = observe_node fl m node nodes nothing_observed nothing_observed in
      let each = observe_node-each node nodes nothing_observed nothing_observed in
      elim (Bool-cases (all_lost found.0)) [
        | inl e ↦ (
          node,
          ground arith,
          inl (
              all_lost-DirectionLost (pair_key node) node nodes
                (sym (ap (λ f. all_lost f.0) each) ∙ e)),
        )
        | inr e ↦ elim (Bool-cases (all_lost found.1)) [
          | inl e' ↦ (
            node,
            ground arith,
            inr (
                all_lost-DirectionLost (λ peer. pair_key peer node) node nodes
                  (sym (ap (λ f. all_lost f.1) each) ∙ e')),
          )
          | inr e' ↦ find_lost-eq-some nodes rest v (ground arith)
        ]
      ]

-- The verdict names the ends of an entry that did not succeed.
abbrev pub NamesFailed : (fl : Floats) → Matrix fl.F → Verdict fl.F → Type 0
NamesFailed fl es v =
    (e : Str × ProbeResult fl.F) × Memᴰ e es
    × (e.1.success ≡ false)
    × (ends : Str × Str) × (split_arrow e.0 ≡ some ends)
    × (pair_verdict fl e.0 ends ≡ v)

NamesFailed-later :
    (fl : Floats) (e : Str × ProbeResult fl.F) (es : Matrix fl.F) (v : Verdict fl.F)
    → NamesFailed fl es v
    → NamesFailed fl (e ∷ es) v
NamesFailed-later fl e es v (x, member, bad, ends, split, same) =
    (x, Memᴰ.tail member, bad, ends, split, same)

pub find_single-eq-some :
    (fl : Floats) (es : Matrix fl.F) (v : Verdict fl.F)
    → find_single fl es ≡ some v
    → NamesFailed fl es v
unfolding find_single
find_single-eq-some fl [] v h = absurd (ground arith)
find_single-eq-some fl (e ∷ es) v h = elim (Bool-cases e.1.success) [
  | inl ok ↦ NamesFailed-later fl e es v (find_single-eq-some fl es v (ground arith))
  | inr bad ↦ elim (Option-cases (split_arrow e.0)) [
    | inl whole ↦ NamesFailed-later fl e es v (find_single-eq-some fl es v (ground arith))
    | inr (ends, split) ↦ (e, Memᴰ.head refl, bad, ends, split, ground arith)
  ]
]
