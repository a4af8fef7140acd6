-- ===== src/Controller/Status/Totals.antt =====
-- The totals of the status and the lengths of its lists.
use cs331_t011_kubernetes_se.Common.{
  ℕ, zero, suc, ◌+◌, ◌≤◌, ◌≡◌, refl, sym, ap, ap₂, ◌∙◌, Bool, true, false, not, some, List, [], ◌∷◌,
  Memᴰ, Permᴰ, arith, ltb, length, map, take, count_if, count_if-perm, length-perm, length-append,
  if◌then◌else◌,
}
use mathlib.Core.List.Permᴰ
use mathlib.Core.Option
use Prim.Native.Nat.{min}
use cs331_t011_kubernetes_se.Go.Text.{Str, sort_strings-perm}
use cs331_t011_kubernetes_se.Go.Maps.{MapOrder, IsMap, get?, get?_of_mem}
use cs331_t011_kubernetes_se.Go.Floats.{Floats}
use cs331_t011_kubernetes_se.Contract.{ProbeResult, Matrix, Verdict}
use cs331_t011_kubernetes_se.Controller.Status.{
  PairLevel, pair_state_healthy, pair_state_degraded, pair_state_failed, Summary, no_summary,
  max_status_entries, max_degraded_pairs, Resource, pair_state, zero_result, result_at,
  sorted_matrix_keys, count_pair, summarize, matrix_to_status_entries,
  build_network_health_check_status,
}

abbrev pub is_failed : PairLevel → Bool
is_failed pair_state_failed = true
is_failed _ = false

abbrev pub is_degraded_level : PairLevel → Bool
is_degraded_level pair_state_degraded = true
is_degraded_level _ = false

abbrev pub is_healthy_level : PairLevel → Bool
is_healthy_level pair_state_healthy = true
is_healthy_level _ = false

module _ {ℓ κ} {A : Type ℓ} {B : Type κ} where
  pub length-map : (f : A → B) (xs : List A) → length (map f xs) ≡ length xs
  length-map f [] = refl
  length-map f (x ∷ xs) = ap suc (length-map f xs)

ltb-min : (limit n : ℕ) → ltb limit n ≡ ltb (min limit n) n
ltb-min limit n = ground arith

module _ {ℓ} {A : Type ℓ} where
  length-take : (n : ℕ) (xs : List A) → length (take n xs) ≡ min n (length xs)
  length-take zero xs = omega arith
  length-take (suc n) [] = omega arith
  length-take (suc n) (x ∷ xs) = let rest = length-take n xs in omega arith

module _ (fl : Floats) (m : Matrix fl.F) where
  unfoldable pub count_of_level : (PairLevel → Bool) → List Str → ℕ
  count_of_level p keys = count_if (λ k. p (pair_state fl (result_at fl m k))) keys

  count_pair-counts :
      (key : Str) (l : PairLevel) (s : Summary)
      → ((count_pair fl key l s).healthy_pairs
          ≡ s.healthy_pairs + (if is_healthy_level l then 1 else 0))
        × ((count_pair fl key l s).degraded_count
            ≡ s.degraded_count + (if is_degraded_level l then 1 else 0))
        × ((count_pair fl key l s).failed_pairs ≡ s.failed_pairs + (if is_failed l then 1 else 0))
  unfolding count_pair
  count_pair-counts key pair_state_healthy s = (omega arith, omega arith, omega arith)
  count_pair-counts key pair_state_degraded s = (omega arith, omega arith, omega arith)
  count_pair-counts key pair_state_failed s = (omega arith, omega arith, omega arith)

  summarize-counts :
      (keys : List Str) (s : Summary)
      → ((summarize fl m keys s).healthy_pairs
          ≡ s.healthy_pairs + count_of_level is_healthy_level keys)
        × ((summarize fl m keys s).degraded_count
            ≡ s.degraded_count + count_of_level is_degraded_level keys)
        × ((summarize fl m keys s).failed_pairs ≡ s.failed_pairs + count_of_level is_failed keys)
  unfolding summarize count_of_level
  summarize-counts [] s = (omega arith, omega arith, omega arith)
  summarize-counts (key ∷ keys) s =
      let l = pair_state fl (result_at fl m key) in
      let (h, d, f) = count_pair-counts key l s in
      let (h', d', f') = summarize-counts keys (count_pair fl key l s) in
      (omega arith, omega arith, omega arith)

  -- Over the keys of a map the lookups meet every result once.
  count_keys :
      (p : PairLevel → Bool) (es : Matrix fl.F)
      → ((e : Str × ProbeResult fl.F) → Memᴰ e es → get? e.0 m ≡ some e.1)
      → count_of_level p (map (λ e. e.0) es) ≡ count_if (λ e. p (pair_state fl e.1)) es
  unfolding count_of_level result_at
  count_keys p [] found = refl
  count_keys p (e ∷ es) found =
      ap₂ (λ o n. (if p (pair_state fl (Option.get_or o (zero_result fl))) then 1 else 0) + n)
        (found e (Memᴰ.head refl)) (count_keys p es (λ x i. found x (Memᴰ.tail i)))

  -- The three levels split the pairs.
  levels_sum :
      (es : Matrix fl.F)
      → count_if (λ e. is_healthy_level (pair_state fl e.1)) es
          + count_if (λ e. is_degraded_level (pair_state fl e.1)) es
          + count_if (λ e. is_failed (pair_state fl e.1)) es
        ≡ length es
  levels_sum [] = refl
  levels_sum (e ∷ es) = let rest = levels_sum es in by_level (pair_state fl e.1) _ _ _ _ rest
    where
      by_level :
          (l : PairLevel) (a b c n : ℕ)
          → a + b + c ≡ n
          → ((if is_healthy_level l then 1 else 0) + a)
              + ((if is_degraded_level l then 1 else 0) + b)
              + ((if is_failed l then 1 else 0) + c)
            ≡ suc n
      by_level pair_state_healthy a b c n h = omega arith
      by_level pair_state_degraded a b c n h = omega arith
      by_level pair_state_failed a b c n h = omega arith

  pub count_failures :
      (es : Matrix fl.F)
      → count_if (λ e. is_failed (pair_state fl e.1)) es ≡ count_if (λ e. not e.1.success) es
  unfolding pair_state
  count_failures [] = refl
  count_failures (e ∷ es) =
      ap₂ (λ b n. (if b then 1 else 0) + n) (by_tests e.1.success _) (count_failures es)
    where
      by_tests :
          (b c : Bool)
          → is_failed (
              if not b
              then pair_state_failed
              else if c
              then pair_state_degraded
              else pair_state_healthy)
            ≡ not b
      by_tests true true = refl
      by_tests true false = refl
      by_tests false c = refl

  length-entries : (keys : List Str) → length (matrix_to_status_entries fl m keys) ≡ length keys
  unfolding matrix_to_status_entries
  length-entries [] = refl
  length-entries (key ∷ keys) = ap suc (length-entries keys)

  summarize-named :
      (keys : List Str) (s : Summary)
      → length s.degraded_pairs_named ≤ max_degraded_pairs
      → length (summarize fl m keys s).degraded_pairs_named ≤ max_degraded_pairs
  unfolding summarize count_pair
  summarize-named [] s few = few
  summarize-named (key ∷ keys) s few =
      summarize-named keys (count_pair fl key (pair_state fl (result_at fl m key)) s)
        (one_more key (pair_state fl (result_at fl m key)))
    where
      one_more :
          (key : Str) (l : PairLevel)
          → length (count_pair fl key l s).degraded_pairs_named ≤ max_degraded_pairs
      one_more key pair_state_healthy = few
      one_more key pair_state_failed = few
      one_more key pair_state_degraded =
          let split = length-append s.degraded_pairs_named (key ∷ []) in ground arith

  module _ (rt : MapOrder) where
    pub keys-perm : Permᴰ (sorted_matrix_keys fl rt m) (map (λ e. e.0) m)
    unfolding sorted_matrix_keys
    keys-perm =
        Permᴰ.trans (sort_strings-perm (map (λ e. e.0) (rt.visit _ 12 m)))
          (Permᴰ.map (λ e. e.0) (rt.visit_perm _ 12 m))

    pub count_sorted :
        IsMap m
        → (p : PairLevel → Bool)
        → count_of_level p (sorted_matrix_keys fl rt m) ≡ count_if (λ e. p (pair_state fl e.1)) m
    unfolding count_of_level
    count_sorted unique p =
        count_if-perm (λ k. p (pair_state fl (result_at fl m k))) keys-perm
        ∙ count_keys p m (λ e i. get?_of_mem e.0 e.1 m unique i)

    -- Whatever the order of the map, the summary of the status counts each pair of a matrix without
    -- repeated keys once, by its own result, and the three counts add up to the total.
    pub status_totals :
        (resource : Resource) (now later : Str) (verdict : Verdict fl.F)
        → IsMap m
        → let status = build_network_health_check_status fl rt resource now later verdict m in
          let s = status.reachability_summary in
          (status.reachability_total ≡ length m)
          × (s.healthy_pairs ≡ count_if (λ e. is_healthy_level (pair_state fl e.1)) m)
          × (s.degraded_count ≡ count_if (λ e. is_degraded_level (pair_state fl e.1)) m)
          × (s.failed_pairs ≡ count_if (λ e. not e.1.success) m)
          × (s.healthy_pairs + s.degraded_count + s.failed_pairs ≡ status.reachability_total)
    unfolding build_network_health_check_status
    status_totals resource now later verdict unique =
        let keys = sorted_matrix_keys fl rt m in
        let (h, d, f) = summarize-counts keys no_summary in
        let total = length-perm keys-perm ∙ length-map (λ e. e.0) m in
        let healthy_count = count_sorted unique is_healthy_level in
        let degraded_count_eq = count_sorted unique is_degraded_level in
        let failed_count = count_sorted unique is_failed in
        let failures = count_failures m in
        let sum = levels_sum m in (total, omega arith, omega arith, omega arith, omega arith)

    -- The status lists at most 500 pairs, all of them if there are no more, says so exactly if it
    -- leaves some out, and names at most 50 degraded ones.
    pub status_bounds :
        (resource : Resource) (now later : Str) (verdict : Verdict fl.F)
        → let status = build_network_health_check_status fl rt resource now later verdict m in
          (length status.reachability ≡ min max_status_entries (length m))
          × (status.reachability_truncated ≡ ltb (length status.reachability) (length m))
          × (length status.reachability_summary.degraded_pairs_named ≤ max_degraded_pairs)
    unfolding build_network_health_check_status
    status_bounds resource now later verdict =
        let keys = sorted_matrix_keys fl rt m in
        let total = length-perm keys-perm ∙ length-map (λ e. e.0) m in
        let listed =
          length-entries (take max_status_entries keys) ∙ length-take max_status_entries keys in
        let named = summarize-named keys no_summary (omega arith) in
        (
          omega arith,
          ap (ltb max_status_entries) total
              ∙ ltb-min max_status_entries (length m)
              ∙ sym (ap (λ n. ltb n (length m)) (listed ∙ ap (min max_status_entries) total)),
          named,
        )
