-- ===== src/Controller/Stub/Backed.antt =====
-- What a verdict of the small classifier claims of the matrix.
use cs331_t011_kubernetes_se.Common.{
  ℕ, ◌-◌, ◌*◌, ◌≡◌, ◌≢◌, ◌⊎◌, inl, inr, refl, sym, ◌∙◌, Bool, true, false, Option, none, some, List,
  [], ◌∷◌, Memᴰ, arith, ◌==◌, length, count_if, count_if-perm, count_if_full, count_if_none,
  count_if-true, mem-perm, Bool-cases, if◌then◌else◌,
}
use mathlib.Core.Path.{subst}
use cs331_t011_kubernetes_se.Go.Text.{Str}
use cs331_t011_kubernetes_se.Go.Maps.{MapOrder}
use cs331_t011_kubernetes_se.Go.Floats.{Floats}
use cs331_t011_kubernetes_se.Contract.{
  ProbeResult, Matrix, Classification, healthy, pair_local_failure, node_ingress_failure,
  node_egress_failure, node_isolated, cluster_partition, policy_scoped, unknown, no_data, degraded,
  other, Verdict,
}
use cs331_t011_kubernetes_se.Analysis.Classifier.{first_some}
use cs331_t011_kubernetes_se.Controller.Stub.{
  probe_failed, lost_verdict, find_lost, pair_verdict, find_single, plain_verdict, ambiguous,
  matrix_nodes, judge_observed, stub_classifier,
}
use cs331_t011_kubernetes_se.Controller.Stub.Evidence.{
  NodeLost, NamesFailed, find_lost-eq-some, find_single-eq-some,
}

module _ (fl : Floats) (m : Matrix fl.F) (nodes : List Str) where
  -- How many entries failed or lost a probe, and how many pairs the nodes have.
  abbrev pub bad_entries : ℕ
  bad_entries = count_if (λ e. probe_failed fl e.1) m

  abbrev pub pairs : ℕ
  pairs = length nodes * (length nodes - 1)

  abbrev pub Each : Bool → Type 0
  Each b = (e : Str × ProbeResult fl.F) → Memᴰ e m → probe_failed fl e.1 ≡ b

  abbrev pub Claims : Classification → Verdict fl.F → Type 0
  Claims healthy v = (length m ≡ pairs) × Each false
  Claims cluster_partition v = (length m ≡ pairs) × Each true
  Claims node_isolated v =
      (length m ≡ pairs) × (n : Str) × (v.suspect_nodes ≡ n ∷ []) × NodeLost fl m nodes n
  Claims pair_local_failure v = (length m ≡ pairs) × (bad_entries ≡ 1) × NamesFailed fl m v
  Claims unknown v =
      (v.confidence ≡ fl.lit 0 0)
      × (v.suspect_nodes ≡ [])
      × ((length nodes ≡ 0)
          ⊎ (length m ≢ pairs)
          ⊎ ((length m ≡ pairs) × (bad_entries ≢ 0) × (bad_entries ≢ pairs)))
  Claims node_ingress_failure v = ⊥
  Claims node_egress_failure v = ⊥
  Claims policy_scoped v = ⊥
  Claims no_data v = ⊥
  Claims degraded v = ⊥
  Claims (other s) v = ⊥

  abbrev pub Backed : Verdict fl.F → Type 0
  Backed v = Claims v.class v

  every_bad : bad_entries ≡ length m → Each true
  every_bad h e i =
      count_if_full (λ x. true) (λ x. probe_failed fl x.1) m (h ∙ sym (count_if-true m)) e i refl

  module _ (rt : MapOrder) where
    open rt use {visit, visit_perm}

    single-Backed :
        length m ≡ pairs
        → bad_entries ≢ 0
        → bad_entries ≢ pairs
        → (o : Option (Verdict fl.F))
        → (if bad_entries == 1 then find_single fl (visit _ 16 m) else none) ≡ o
        → Backed (first_some (o ∷ []) (ambiguous fl))
    unfolding ambiguous plain_verdict pair_verdict
    single-Backed complete some_bad some_good none h =
        (refl, refl, inr (inr (complete, some_bad, some_good)))
    single-Backed complete some_bad some_good (some v) h =
        let (e, member, bad, ends, split, same) =
          find_single-eq-some fl (visit _ 16 m) v (ground arith) in
        subst Backed same
          (complete, ground arith, (e, mem-perm (visit_perm _ 16 m) member, bad, ends, split, refl))

    lost-Backed :
        length m ≡ pairs
        → bad_entries ≢ 0
        → bad_entries ≢ pairs
        → (o : Option (Verdict fl.F)) → find_lost fl m nodes nodes ≡ o
        → Backed (
            first_some
              (o ∷ (if bad_entries == 1 then find_single fl (visit _ 16 m) else none) ∷ [])
              (ambiguous fl))
    unfolding lost_verdict
    lost-Backed complete some_bad some_good none h =
        single-Backed complete some_bad some_good _ refl
    lost-Backed complete some_bad some_good (some v) h =
        let (n, same, lost) = find_lost-eq-some fl m nodes nodes v h in
        subst Backed same (complete, n, refl, lost)

    judge_observed-Backed : Backed (judge_observed fl rt m nodes bad_entries)
    unfolding judge_observed plain_verdict
    judge_observed-Backed = elim (Bool-cases (length m == pairs)) [
      | inr e ↦ rw e (refl, refl, inr (inl (λ complete. ground arith)))
      | inl e ↦
          let complete : length m ≡ pairs = ground arith in
          elim (Bool-cases (bad_entries == 0)) [
            | inl e' ↦
                rw (e, e') (complete, count_if_none (λ x. probe_failed fl x.1) m (ground arith))
            | inr e' ↦ elim (Bool-cases (bad_entries == pairs)) [
              | inl e'' ↦ rw (e, e', e'') (complete, every_bad (ground arith))
              | inr e'' ↦
                  rw (e, e', e'')
                    (lost-Backed complete (λ z. ground arith) (λ z. ground arith) _ refl)
            ]
          ]
    ]

-- Whatever the order of the maps, the class of the small classifier's verdict is backed by the
-- matrix: it is one of five; all but `unknown` need as many results as the nodes have pairs;
-- `healthy` means that no probe was lost, a partition that every pair lost some, isolation that
-- each measured pair out of the suspect or each into it lost some, and there is one, a local failure
-- that one pair lost probes and that the suspects are the ends of a failed one; `unknown` has
-- confidence 0, names nobody, and means that there are no nodes, that the number of results is
-- another, or that some but not all pairs lost probes. A result that carries an agent error counts
-- like any other.
pub stub_classifier-Backed :
    (fl : Floats) (rt : MapOrder) (m : Matrix fl.F)
    → Backed fl m (matrix_nodes fl rt m) (stub_classifier fl rt m)
unfolding stub_classifier plain_verdict
stub_classifier-Backed fl rt m = elim (Bool-cases (length (matrix_nodes fl rt m) == 0)) [
  | inl e ↦ rw e (refl, refl, inl (ground arith))
  | inr e ↦
      rw
        (
          e,
          count_if-perm (λ (x : Str × ProbeResult fl.F). probe_failed fl x.1)
              (rt.visit_perm _ 15 m),
        )
        (judge_observed-Backed fl m (matrix_nodes fl rt m) rt)
]
