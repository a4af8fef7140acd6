-- ===== src/Analysis/Counts.antt =====
-- The loops of the classifier that count, against the counts of the evidence.
use cs331_t011_kubernetes_se.Common.{
  ◌+◌, ◌≡◌, refl, ◌∙◌, Bool, true, not, ◌&&◌, ◌||◌, Option, none, some, List, [], ◌∷◌, arith,
  if◌then◌else◌, length, length-append, any, count_if, count_if-append,
}
use cs331_t011_kubernetes_se.Go.Text.{Str, str_eq, split_arrow}
use cs331_t011_kubernetes_se.Go.Maps.{count_of, incr, count_of-incr, has, add, has-add}
use cs331_t011_kubernetes_se.Go.Floats.{Floats}
use cs331_t011_kubernetes_se.Contract.{ProbeResult}
use cs331_t011_kubernetes_se.Analysis.Scan.{
  FailedPair, Buckets, add_ends, collect_nodes, is_degraded, bucket_pair, fill_buckets,
  describe_loss,
}
use cs331_t011_kubernetes_se.Analysis.Tallies.{Tallies, count_ends, count_pairs, count_failed}
use cs331_t011_kubernetes_se.Analysis.Evidence.{
  on_ends, source_is, dest_is, end_is, Entry, degraded_pair,
}

has-add_ends :
    (n : Str) (o : Option (Str × Str)) (nodes : List Str)
    → has n (add_ends o nodes) ≡ (on_ends (λ s d. str_eq s n || str_eq d n) o || has n nodes)
unfolding add_ends
has-add_ends n none nodes = refl
has-add_ends n (some (s, d)) nodes = ground (arith, has-add d n (add s nodes), has-add s n nodes)

-- The set of nodes holds the ends of the pairs.
pub has-collect_nodes {ℓ} :
    {V : Type ℓ} (n : Str) (m : List (Str × V)) (nodes : List Str)
    → has n (collect_nodes m nodes) ≡ (any (λ e. end_is n e.0) m || has n nodes)
unfolding collect_nodes
has-collect_nodes n [] nodes = refl
has-collect_nodes n (e ∷ m) nodes = ground (
  arith,
  has-collect_nodes n m (add_ends (split_arrow e.0) nodes),
  has-add_ends n (split_arrow e.0) nodes,
)

module _ (fl : Floats) (threshold : fl.F) where
  -- A test of a failed pair, on the entry that it comes from.
  abbrev pub failed_as : (FailedPair → Bool) → Entry fl → Bool
  failed_as p e =
      on_ends (λ s d. not e.1.success && p (record { key = e.0; src = s; dst = d }))
        (split_arrow e.0)

  count-bucket_pair :
      (p : FailedPair → Bool) (key : Str) (r : ProbeResult fl.F) (o : Option (Str × Str))
      (b : Buckets)
      → count_if p (bucket_pair fl threshold key r o b).failed
        ≡ count_if p b.failed
          + (if on_ends (λ s d. not r.success && p (record { key = key; src = s; dst = d })) o
              then 1
              else 0)
  unfolding bucket_pair
  count-bucket_pair p key r none b = omega arith
  count-bucket_pair p key r (some (s, d)) b =
      ground (arith, count_if-append p b.failed (record { key = key; src = s; dst = d } ∷ []))

  pub count-fill_buckets :
      (p : FailedPair → Bool) (m : List (Entry fl)) (b : Buckets)
      → count_if p (fill_buckets fl threshold m b).failed
        ≡ count_if p b.failed + count_if (failed_as p) m
  unfolding fill_buckets
  count-fill_buckets p [] b = omega arith
  count-fill_buckets p ((key, r) ∷ m) b = omega (
    arith,
    count-fill_buckets p m (bucket_pair fl threshold key r (split_arrow key) b),
    count-bucket_pair p key r (split_arrow key) b,
  )

  degraded-bucket_pair :
      (key : Str) (r : ProbeResult fl.F) (o : Option (Str × Str)) (b : Buckets)
      → length (bucket_pair fl threshold key r o b).degraded_summaries
        ≡ length b.degraded_summaries
          + (if on_ends (λ s d. true) o && is_degraded fl r threshold then 1 else 0)
  unfolding bucket_pair is_degraded
  degraded-bucket_pair key r none b = omega arith
  degraded-bucket_pair key r (some (s, d)) b =
      ground (arith, length-append b.degraded_summaries (describe_loss fl key r ∷ []))

  pub degraded-fill_buckets :
      (m : List (Entry fl)) (b : Buckets)
      → length (fill_buckets fl threshold m b).degraded_summaries
        ≡ length b.degraded_summaries + count_if (degraded_pair fl threshold) m
  unfolding fill_buckets
  degraded-fill_buckets [] b = omega arith
  degraded-fill_buckets ((key, r) ∷ m) b = omega (
    arith,
    degraded-fill_buckets m (bucket_pair fl threshold key r (split_arrow key) b),
    degraded-bucket_pair key r (split_arrow key) b,
  )

  has-bucket_pair :
      (n key : Str) (r : ProbeResult fl.F) (o : Option (Str × Str)) (b : Buckets)
      → has n (bucket_pair fl threshold key r o b).degraded_nodes ≡ (
          on_ends (λ s d. str_eq s n || str_eq d n) o && is_degraded fl r threshold
          || has n b.degraded_nodes)
  unfolding bucket_pair is_degraded
  has-bucket_pair n key r none b = refl
  has-bucket_pair n key r (some (s, d)) b =
      ground (arith, has-add d n (add s b.degraded_nodes), has-add s n b.degraded_nodes)

  -- The set of degraded nodes holds the ends of the degraded pairs.
  pub has-fill_buckets :
      (n : Str) (m : List (Entry fl)) (b : Buckets)
      → has n (fill_buckets fl threshold m b).degraded_nodes
        ≡ (any (λ e. end_is n e.0 && is_degraded fl e.1 threshold) m || has n b.degraded_nodes)
  unfolding fill_buckets
  has-fill_buckets n [] b = refl
  has-fill_buckets n ((key, r) ∷ m) b = ground (
    arith,
    has-fill_buckets n m (bucket_pair fl threshold key r (split_arrow key) b),
    has-bucket_pair n key r (split_arrow key) b,
  )

-- The four counts of step 5.
module _ (n : Str) where
  count-count_ends :
      (o : Option (Str × Str)) (t : Tallies)
      → (count_of n (count_ends o t).row_total
          ≡ (if on_ends (λ s d. str_eq s n) o then 1 else 0) + count_of n t.row_total)
        × (count_of n (count_ends o t).col_total
            ≡ (if on_ends (λ s d. str_eq d n) o then 1 else 0) + count_of n t.col_total)
        × ((count_ends o t).row_failures ≡ t.row_failures)
        × ((count_ends o t).col_failures ≡ t.col_failures)
  unfolding count_ends
  count-count_ends none t = (omega arith, omega arith, refl, refl)
  count-count_ends (some (s, d)) t =
      (count_of-incr s n t.row_total, count_of-incr d n t.col_total, refl, refl)

  pub count-count_pairs {ℓ} :
      {V : Type ℓ} (m : List (Str × V)) (t : Tallies)
      → (count_of n (count_pairs m t).row_total
          ≡ count_if (λ e. source_is n e.0) m + count_of n t.row_total)
        × (count_of n (count_pairs m t).col_total
            ≡ count_if (λ e. dest_is n e.0) m + count_of n t.col_total)
        × ((count_pairs m t).row_failures ≡ t.row_failures)
        × ((count_pairs m t).col_failures ≡ t.col_failures)
  unfolding count_pairs
  count-count_pairs [] t = (omega arith, omega arith, refl, refl)
  count-count_pairs (e ∷ m) t =
      let (r, c, rf, cf) = count-count_ends (split_arrow e.0) t in
      let (r', c', rf', cf') = count-count_pairs m (count_ends (split_arrow e.0) t) in
      (omega arith, omega arith, rf' ∙ rf, cf' ∙ cf)

  pub count-count_failed :
      (failed : List FailedPair) (t : Tallies)
      → (count_of n (count_failed failed t).row_failures
          ≡ count_if (λ fp. str_eq fp.src n) failed + count_of n t.row_failures)
        × (count_of n (count_failed failed t).col_failures
            ≡ count_if (λ fp. str_eq fp.dst n) failed + count_of n t.col_failures)
        × ((count_failed failed t).row_total ≡ t.row_total)
        × ((count_failed failed t).col_total ≡ t.col_total)
  unfolding count_failed
  count-count_failed [] t = (omega arith, omega arith, refl, refl)
  count-count_failed (fp ∷ rest) t =
      let t' = record t {
        row_failures = incr fp.src t.row_failures;
        col_failures = incr fp.dst t.col_failures;
      } in
      let (r, c, rt, ct) = count-count_failed rest t' in
      (
        omega (arith, r, count_of-incr fp.src n t.row_failures),
        omega (arith, c, count_of-incr fp.dst n t.col_failures),
        rt,
        ct,
      )
