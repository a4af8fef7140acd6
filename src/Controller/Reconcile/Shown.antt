-- ===== src/Controller/Reconcile/Shown.antt =====
-- The verdict and the counts of the status that goes with it.
use cs331_t011_kubernetes_se.Common.{
  ℕ, ◌+◌, ◌<◌, ◌≡◌, ◌≢◌, ◌⊎◌, inl, inr, sym, ap, ap₂, ◌∙◌, Bool, true, false, not, ◌&&◌, Memᴰ,
  arith, length, count_if, count_if_zero, eq_nil_of_length, count_if_pos, count_if-congr_mem,
  if◌then◌else◌,
}
use cs331_t011_kubernetes_se.Go.Text.{Str}
use cs331_t011_kubernetes_se.Go.Maps.{MapOrder, IsMap}
use cs331_t011_kubernetes_se.Go.Floats.{Floats, FloatLaws, quot}
use cs331_t011_kubernetes_se.Contract.{
  Matrix, Classification, healthy, pair_local_failure, node_ingress_failure, node_egress_failure,
  node_isolated, cluster_partition, policy_scoped, unknown, no_data, degraded, other, Verdict,
}
use cs331_t011_kubernetes_se.Analysis.Config.{
  Config, default_config, default_degraded_loss_threshold,
}
use cs331_t011_kubernetes_se.Analysis.Scan.{loss_threshold, is_degraded}
use cs331_t011_kubernetes_se.Analysis.Hypotheses.{confidence_floor_of}
use cs331_t011_kubernetes_se.Analysis.Evidence.{is_pair, Entry, failed_pair, degraded_pair}
use cs331_t011_kubernetes_se.Analysis.Justified.{Exists, Every, failures, Because}
use cs331_t011_kubernetes_se.Analysis.Classifier.{classify}
use cs331_t011_kubernetes_se.Analysis.Classifier.Soundness.{classify-Justified}
use cs331_t011_kubernetes_se.Controller.Round.{NetworkHealthCheckSpec}
use cs331_t011_kubernetes_se.Controller.Reconcile.{config_for}
use cs331_t011_kubernetes_se.Controller.Status.{
  pair_state_healthy, pair_state_degraded, pair_state_failed, Resource, Summary, pair_state,
  build_network_health_check_status,
}
use cs331_t011_kubernetes_se.Controller.Status.Totals.{is_degraded_level, status_totals}

-- What the counts of a status are for a verdict of each class.
module _ (fl : Floats) (floor : fl.F) (s : Summary) (total : ℕ) where
  abbrev pub Shows : Classification → fl.F → Type 0
  Shows healthy confidence =
      (s.healthy_pairs ≡ total) × (s.degraded_count ≡ 0) × (s.failed_pairs ≡ 0) × (total ≢ 0)
  Shows degraded confidence = (s.failed_pairs ≡ 0) × (0 < s.degraded_count)
  Shows no_data confidence = total ≡ 0
  Shows pair_local_failure confidence = s.failed_pairs ≡ 1
  Shows node_isolated confidence = 0 < s.failed_pairs
  Shows node_egress_failure confidence = 0 < s.failed_pairs
  Shows node_ingress_failure confidence = 0 < s.failed_pairs
  Shows policy_scoped confidence = s.failed_pairs ≡ total
  Shows cluster_partition confidence =
      (confidence ≡ quot fl s.failed_pairs total)
      × (fl.fle floor (quot fl s.failed_pairs total) ≡ true)
  Shows unknown confidence =
      (confidence ≡ fl.lit 0 0)
      ⊎ ((0 < s.failed_pairs) × (confidence ≡ quot fl s.failed_pairs total))
  Shows (other t) confidence = ⊥

module _ (fl : Floats) where
  -- The operator's configuration leaves the threshold on losses at its default.
  pub loss_threshold-config_for :
      (spec : NetworkHealthCheckSpec)
      → loss_threshold fl (config_for fl spec) ≡ default_degraded_loss_threshold fl
  unfolding loss_threshold config_for default_config
  loss_threshold-config_for spec = ground arith

  module _ (m : Matrix fl.F) (pairs : (e : Entry fl) → Memᴰ e m → is_pair e.0 ≡ true) where
    failures-pairs : failures fl m ≡ count_if (λ e. not e.1.success) m
    failures-pairs =
        count_if-congr_mem (failed_pair fl) (λ e. not e.1.success) m
          (λ e i. let pair = pairs e i in ground arith)

    degraded-pairs :
        (spec : NetworkHealthCheckSpec)
        → count_if (degraded_pair fl (loss_threshold fl (config_for fl spec))) m
          ≡ count_if (λ e. is_degraded_level (pair_state fl e.1)) m
    unfolding pair_state is_degraded
    degraded-pairs spec =
        count_if-congr_mem (degraded_pair fl (loss_threshold fl (config_for fl spec)))
          (λ e. is_degraded_level (pair_state fl e.1)) m
          (λ e i.
            let pair = pairs e i in
            let threshold = loss_threshold-config_for spec in
            by_tests (is_pair e.0) e.1.success _ _ pair
              (ap (λ t. fl.fle t e.1.loss_rate) threshold))
      where
        by_tests :
            (p ok low low' : Bool)
            → p ≡ true
            → low ≡ low'
            → (p && (ok && low))
              ≡ is_degraded_level (
                  if not ok
                  then pair_state_failed
                  else if low'
                  then pair_state_degraded
                  else pair_state_healthy)
        by_tests p ok true true h same = ground arith
        by_tests p ok false false h same = ground arith
        by_tests p ok true false h same = absurd (ground arith)
        by_tests p ok false true h same = absurd (ground arith)

    some_failed : Exists fl m (λ e. not e.1.success) → 0 < failures fl m
    some_failed (e, i, bad) =
        omega (arith, count_if_pos (λ x. not x.1.success) m i bad, failures-pairs)

    -- Every entry that passes the test failed, and there is one.
    down :
        (p : Entry fl → Bool)
        → Every fl m p (λ e. not e.1.success)
        → Exists fl m p
        → 0 < failures fl m
    down p every (e, i, h) = some_failed (e, i, every e i h)

  module _ (m : Matrix fl.F) (spec : NetworkHealthCheckSpec)
      (pairs : (e : Entry fl) → Memᴰ e m → is_pair e.0 ≡ true) where
    abbrev cfg : Config fl.F
    cfg = config_for fl spec

    shows :
        (s : Summary) (total : ℕ)
        → total ≡ length m
        → s.failed_pairs ≡ failures fl m
        → s.degraded_count ≡ count_if (degraded_pair fl (loss_threshold fl cfg)) m
        → s.healthy_pairs + s.degraded_count + s.failed_pairs ≡ total
        → (c : Classification) (v : Verdict fl.F) → Because fl m cfg c v
        → Shows fl (confidence_floor_of fl cfg) s total c v.confidence
    shows s total all f d sum healthy v (some_entry, clean, ok, low) =
        let no_failed =
          failures-pairs m pairs
          ∙ count_if_zero (λ e. not e.1.success) m
              (λ e i. let good = ok e i (pairs e i) in ground arith) in
        let no_loss = count_if_zero (degraded_pair fl (loss_threshold fl cfg)) m low in
        (
          omega arith,
          omega arith,
          omega arith,
          λ none_at_all. some_entry (eq_nil_of_length m (sym all ∙ none_at_all)),
        )
    shows s total all f d sum degraded v (clean, ok, (e, i, low)) =
        let no_failed =
          failures-pairs m pairs
          ∙ count_if_zero (λ e. not e.1.success) m
              (λ e i. let good = ok e i (pairs e i) in ground arith) in
        let some_loss = count_if_pos (degraded_pair fl (loss_threshold fl cfg)) m i low in
        (omega arith, omega arith)
    shows s total all f d sum no_data v empty = all ∙ ap length empty
    shows s total all f d sum pair_local_failure v because = f ∙ because.1
    shows s total all f d sum node_isolated v (clean, n, suspects, (every, some), col) =
        let bad = down m pairs _ every some in omega arith
    shows s total all f d sum node_egress_failure v (clean, n, suspects, (every, some), col) =
        let bad = down m pairs _ every some in omega arith
    shows s total all f d sum node_ingress_failure v (clean, n, suspects, (every, some), row) =
        let bad = down m pairs _ every some in omega arith
    shows s total all f d sum policy_scoped v (clean, every, refused) = f ∙ every ∙ sym all
    shows s total all f d sum cluster_partition v (clean, share, high) =
        let same : quot fl s.failed_pairs total ≡ quot fl (failures fl m) (length m) =
          ap₂ (quot fl) f all in
        (share ∙ sym same, ap (fl.fle (confidence_floor_of fl cfg)) same ∙ high)
    shows s total all f d sum unknown v (inl (bad, zero)) = inl zero
    shows s total all f d sum unknown v (inr (clean, some, share, low)) =
        let same : quot fl s.failed_pairs total ≡ quot fl (failures fl m) (length m) =
          ap₂ (quot fl) f all in
        inr (omega arith, share ∙ sym same)
    shows s total all f d sum (other t) v because = absurd because

-- The status of a round agrees with its verdict, whatever the orders in which the two visit the
-- matrix, if no key repeats and every key has two parts: a healthy verdict stands with counts in
-- which every pair is healthy and there is one, a degraded one with no failed and some degraded
-- pair, a failure of one pair with one failed pair, a failed node with some failed pair, a policy
-- failure with none but failed pairs, a partition or an unknown cause with the share of failed pairs
-- as its confidence, unless that is 0.
pub classify-Shows :
    (rt rt' : MapOrder) {fl : Floats} (laws : FloatLaws fl) (spec : NetworkHealthCheckSpec)
    (m : Matrix fl.F) (resource : Resource) (now later : Str)
    → IsMap m
    → ((e : Entry fl) → Memᴰ e m → is_pair e.0 ≡ true)
    → let verdict = classify rt fl m (config_for fl spec) in
      let status = build_network_health_check_status fl rt' resource now later verdict m in
      Shows fl
        (confidence_floor_of fl (config_for fl spec))
        status.reachability_summary
        status.reachability_total
        verdict.class
        verdict.confidence
classify-Shows rt rt' {fl} laws spec m resource now later unique pairs =
    let verdict = classify rt fl m (config_for fl spec) in
    let (total, h, d, f, sum) = status_totals fl m rt' resource now later verdict unique in
    let status = build_network_health_check_status fl rt' resource now later verdict m in
    shows fl m spec pairs status.reachability_summary status.reachability_total total
      (f ∙ sym (failures-pairs fl m pairs)) (d ∙ sym (degraded-pairs fl m pairs spec)) sum
      verdict.class verdict (classify-Justified rt laws (config_for fl spec) m)
