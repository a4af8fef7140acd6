-- ===== src/Analysis/Classifier/Orders/Suspects.antt =====
-- The sets of nodes that the classifier sorts for its suspects, in two orders of the maps.
use cs331_t011_kubernetes_se.Common.{
  ℕ, ◌≡◌, sym, ◌∙◌, Bool, true, false, not, Option, none, some, List, [], ◌∷◌, if◌then◌else◌,
}
use cs331_t011_kubernetes_se.Go.Text.{Str, split_arrow, sort_strings}
use cs331_t011_kubernetes_se.Go.Text.Sorted.{sort_strings-permuted}
use cs331_t011_kubernetes_se.Go.Maps.{MapOrder}
use cs331_t011_kubernetes_se.Go.Maps.Sets.{IsDistinct, add-IsDistinct, sort_strings-same}
use cs331_t011_kubernetes_se.Go.Floats.{Floats}
use cs331_t011_kubernetes_se.Contract.{ProbeResult, Matrix}
use cs331_t011_kubernetes_se.Analysis.Config.{Config}
use cs331_t011_kubernetes_se.Analysis.Scan.{
  Buckets, no_buckets, add_ends, collect_nodes, is_degraded, bucket_pair, fill_buckets,
}
use cs331_t011_kubernetes_se.Analysis.Evidence.{Entry}
use cs331_t011_kubernetes_se.Analysis.Tallied.{has-nodes_of, has-degraded_nodes}
use cs331_t011_kubernetes_se.Analysis.Classifier.{buckets, nodes_of}

add_ends-IsDistinct :
    (o : Option (Str × Str)) (nodes : List Str) → IsDistinct nodes → IsDistinct (add_ends o nodes)
unfolding add_ends
add_ends-IsDistinct none nodes h = h
add_ends-IsDistinct (some (s, d)) nodes h = add-IsDistinct d _ (add-IsDistinct s nodes h)

collect_nodes-IsDistinct {ℓ} :
    {V : Type ℓ} (m : List (Str × V)) (nodes : List Str)
    → IsDistinct nodes
    → IsDistinct (collect_nodes m nodes)
unfolding collect_nodes
collect_nodes-IsDistinct [] nodes h = h
collect_nodes-IsDistinct ((key, v) ∷ m) nodes h =
    collect_nodes-IsDistinct m _ (add_ends-IsDistinct (split_arrow key) nodes h)

either_way : (P : Buckets → Type 0) (b : Bool) (x y : Buckets) → P x → P y → P (if b then x else y)
either_way P true x y h k = h
either_way P false x y h k = k

abbrev HasSet : Buckets → Type 0
HasSet b = IsDistinct b.degraded_nodes

module _ (fl : Floats) (threshold : fl.F) where
  bucket_pair-IsDistinct :
      (key : Str) (r : ProbeResult fl.F) (o : Option (Str × Str)) (b : Buckets)
      → IsDistinct b.degraded_nodes
      → IsDistinct (bucket_pair fl threshold key r o b).degraded_nodes
  unfolding bucket_pair
  bucket_pair-IsDistinct key r none b h = h
  bucket_pair-IsDistinct key r (some (s, d)) b h = either_way HasSet (not r.success) _ _ h (
      either_way HasSet (is_degraded fl r threshold) _ _ (add-IsDistinct d _ (add-IsDistinct s _ h))
        (either_way HasSet (fl.flt (fl.lit 0 0) r.loss_rate) _ _ h h))

  fill_buckets-IsDistinct :
      (m : List (Entry fl)) (b : Buckets)
      → IsDistinct b.degraded_nodes
      → IsDistinct (fill_buckets fl threshold m b).degraded_nodes
  unfolding fill_buckets
  fill_buckets-IsDistinct [] b h = h
  fill_buckets-IsDistinct ((key, r) ∷ m) b h =
      fill_buckets-IsDistinct m _ (bucket_pair-IsDistinct key r (split_arrow key) b h)

module _ (rt rt' : MapOrder) (fl : Floats) (cfg : Config fl.F) (m : Matrix fl.F) where
  pub sorted_nodes-same :
      (k k' : ℕ)
      → sort_strings (rt.visit Str k (nodes_of rt fl m))
        ≡ sort_strings (rt'.visit Str k' (nodes_of rt' fl m))
  unfolding nodes_of
  sorted_nodes-same k k' =
      sort_strings-permuted (rt.visit_perm Str k _)
      ∙ sort_strings-same (nodes_of rt fl m) (nodes_of rt' fl m)
          (collect_nodes-IsDistinct (rt.visit _ 1 m) [] tt)
          (collect_nodes-IsDistinct (rt'.visit _ 1 m) [] tt)
          (λ n. has-nodes_of rt fl cfg m n ∙ sym (has-nodes_of rt' fl cfg m n))
      ∙ sym (sort_strings-permuted (rt'.visit_perm Str k' _))

  pub sorted_degraded-same :
      (k k' : ℕ)
      → sort_strings (rt.visit Str k (buckets rt fl cfg m).degraded_nodes)
        ≡ sort_strings (rt'.visit Str k' (buckets rt' fl cfg m).degraded_nodes)
  unfolding buckets
  sorted_degraded-same k k' =
      sort_strings-permuted (rt.visit_perm Str k _)
      ∙ sort_strings-same (buckets rt fl cfg m).degraded_nodes (buckets rt' fl cfg m).degraded_nodes
          (fill_buckets-IsDistinct fl _ (rt.visit _ 3 m) no_buckets tt)
          (fill_buckets-IsDistinct fl _ (rt'.visit _ 3 m) no_buckets tt)
          (λ n. has-degraded_nodes rt fl cfg m n ∙ sym (has-degraded_nodes rt' fl cfg m n))
      ∙ sym (sort_strings-permuted (rt'.visit_perm Str k' _))
