-- ===== src/Analysis/Hypotheses/Searches.antt =====
-- The loops of the three node hypotheses as searches, on tallies that hold the same counts.
use cs331_t011_kubernetes_se.Common.{
  ℕ, ◌+◌, ◌<◌, ◌≡◌, refl, false, List, arith, inl, inr, Bool-cases, if◌then◌else◌,
}
use cs331_t011_kubernetes_se.Go.Text.{Str}
use cs331_t011_kubernetes_se.Go.Maps.{count_of, has}
use cs331_t011_kubernetes_se.Go.Floats.{Floats, FloatLaws, quot, quot_limit}
use cs331_t011_kubernetes_se.Contract.{node_isolated, node_egress_failure, node_ingress_failure}
use cs331_t011_kubernetes_se.Analysis.Tallies.{Tallies}
use cs331_t011_kubernetes_se.Analysis.Hypotheses.{
  isolated_node, egress_node, ingress_node, isolated_conf, isolated_verdict, egress_conf,
  egress_verdict, ingress_conf, ingress_verdict, find_isolated, find_egress, find_ingress,
}
use cs331_t011_kubernetes_se.Analysis.Hypotheses.Best.{Ranked, Search, IsSearch, best}
use cs331_t011_kubernetes_se.Analysis.Hypotheses.Alike.{names_node, BothAlike, searches-BothAlike}

-- The four counts of every node are the same.
unfoldable pub SameCounts : Tallies → Tallies → Type 0
SameCounts t u =
    (n : Str)
    → (count_of n t.row_failures ≡ count_of n u.row_failures)
      × (count_of n t.col_failures ≡ count_of n u.col_failures)
      × (count_of n t.row_total ≡ count_of n u.row_total)
      × (count_of n t.col_total ≡ count_of n u.col_total)

-- The failures of a node are few enough for their quotients to be exact in their order.
unfoldable pub FewFailures : Tallies → Type 0
FewFailures t = (n : Str) → count_of n t.row_failures + count_of n t.col_failures < quot_limit

module _ {fl : Floats} (laws : FloatLaws fl) {b : ℕ} (positive : 0 < b)
    (small : b < quot_limit) where
  quot-Ranked : (k : ℕ) → k < quot_limit → Ranked laws b (quot fl k b)
  quot-Ranked k few =
      let same = (laws.quot_le k b k b positive positive few small few small).1 (omega arith) in
      (k, few, same, same)

  pub zero-Ranked : Ranked laws b (fl.lit 0 0)
  zero-Ranked =
      let down =
        laws.quot_le 0 1 0 b (omega arith) positive (omega arith) (omega arith) (omega arith)
          small in
      let up =
        laws.quot_le 0 b 0 1 positive (omega arith) (omega arith) small (omega arith)
          (omega arith) in
      (
        0,
        omega arith,
        laws.le_trans _ _ _ laws.lit_zero.0 (down.1 (omega arith)),
        laws.le_trans _ _ _ (up.1 (omega arith)) laws.lit_zero.1,
      )

  one-Ranked : Ranked laws b (fl.lit 1 0)
  one-Ranked =
      let down =
        laws.quot_le 1 1 b b (omega arith) positive (omega arith) (omega arith) small small in
      let up =
        laws.quot_le b b 1 1 positive (omega arith) small small (omega arith) (omega arith) in
      (
        b,
        small,
        laws.le_trans _ _ _ laws.lit_one.0 (down.1 (omega arith)),
        laws.le_trans _ _ _ (up.1 (omega arith)) laws.lit_one.1,
      )

  module _ (t : Tallies) (few : FewFailures t) where
    isolated : Search fl
    isolated = record {
      test = isolated_node t;
      conf = isolated_conf fl t b;
      verdict = isolated_verdict fl t b;
    }

    egress : Search fl
    egress = record {
      test = egress_node t;
      conf = egress_conf fl t b;
      verdict = egress_verdict fl t b;
    }

    ingress : Search fl
    ingress = record {
      test = ingress_node t;
      conf = ingress_conf fl t b;
      verdict = ingress_verdict fl t b;
    }

    isolated-IsSearch : IsSearch laws positive small node_isolated isolated
    unfolding isolated isolated_conf isolated_verdict FewFailures
    isolated-IsSearch = (λ n _. capped _ (quot-Ranked _ (few n)), λ n x. refl, λ n x. refl)
      where
        capped :
            (x : fl.F)
            → Ranked laws b x
            → Ranked laws b (if fl.flt (fl.lit 1 0) x then fl.lit 1 0 else x)
        capped x ranked = elim (Bool-cases (fl.flt (fl.lit 1 0) x)) [
          | inl e ↦ rw e one-Ranked
          | inr e ↦ rw e ranked
        ]

    egress-IsSearch : IsSearch laws positive small node_egress_failure egress
    unfolding egress egress_conf egress_verdict FewFailures
    egress-IsSearch =
        (λ n _. quot-Ranked _ (let f = few n in omega arith), λ n x. refl, λ n x. refl)

    ingress-IsSearch : IsSearch laws positive small node_ingress_failure ingress
    unfolding ingress ingress_conf ingress_verdict FewFailures
    ingress-IsSearch =
        (λ n _. quot-Ranked _ (let f = few n in omega arith), λ n x. refl, λ n x. refl)

  module _ (floor : fl.F) (high : fl.fle floor (fl.lit 0 0) ≡ false) (t u : Tallies)
      (few : FewFailures t) (few' : FewFailures u) (same : SameCounts t u) (nodes nodes' : List Str)
      (members : (n : Str) → has n nodes ≡ has n nodes') where
    pub isolated-BothAlike :
        BothAlike fl (find_isolated fl t b floor nodes) (find_isolated fl u b floor nodes')
    unfolding find_isolated isolated best isolated_node isolated_conf SameCounts
    isolated-BothAlike =
        searches-BothAlike laws positive small floor high zero-Ranked (isolated t few)
          (isolated u few') (isolated-IsSearch t few) (isolated-IsSearch u few')
          (λ n. let (rf, cf, rt, ct) = same n in (rw (rf, cf, rt, ct) refl, rw (rf, cf) refl)) nodes
          nodes' members (unfold names_node in refl)

    pub egress-BothAlike :
        BothAlike fl (find_egress fl t b floor nodes) (find_egress fl u b floor nodes')
    unfolding find_egress egress best egress_node egress_conf SameCounts
    egress-BothAlike =
        searches-BothAlike laws positive small floor high zero-Ranked (egress t few) (egress u few')
          (egress-IsSearch t few) (egress-IsSearch u few')
          (λ n. let (rf, cf, rt, ct) = same n in (rw (rf, cf, rt, ct) refl, rw rf refl)) nodes
          nodes' members (unfold names_node in refl)

    pub ingress-BothAlike :
        BothAlike fl (find_ingress fl t b floor nodes) (find_ingress fl u b floor nodes')
    unfolding find_ingress ingress best ingress_node ingress_conf SameCounts
    ingress-BothAlike =
        searches-BothAlike laws positive small floor high zero-Ranked (ingress t few)
          (ingress u few') (ingress-IsSearch t few) (ingress-IsSearch u few')
          (λ n. let (rf, cf, rt, ct) = same n in (rw (rf, cf, rt, ct) refl, rw cf refl)) nodes
          nodes' members (unfold names_node in refl)
