-- ===== src/Analysis/Tracker/Lookups.antt =====
-- What a round does to each pair of the tracker and of the stabilised matrix, whatever the order in
-- which the pairs are visited.
use cs331_t011_kubernetes_se.Common.{
  ◌≡◌, refl, sym, ap, ◌∙◌, Option, none, some, List, [], ◌∷◌, arith,
}
use mathlib.Core.Option
use mathlib.Core.List.Permᴰ
use cs331_t011_kubernetes_se.Go.Text.{Str, str_eq_iff}
use cs331_t011_kubernetes_se.Go.Maps.{
  MapOrder, IsMap, get?, put, get?-put, get?-none, get?-perm, IsMap-perm,
}
use cs331_t011_kubernetes_se.Go.Floats.{Floats}
use cs331_t011_kubernetes_se.Contract.{ProbeResult, Matrix}
use cs331_t011_kubernetes_se.Analysis.Tracker.{
  PairState, Tracker, fresh_state, update_state, update_entries, update, stable_result,
  stabilize_entries, stabilize,
}

module _ (fl : Floats) where
  -- The state of a pair after a round in which it has the result given, or none.
  abbrev pub state_after : Tracker → Option (ProbeResult fl.F) → Option PairState → Option PairState
  state_after t none old = old
  state_after t (some r) old = some (
      update_state t.failure_threshold t.success_threshold r.success
        (Option.get_or old fresh_state))

  get?-update_entries :
      (k : Str) (m : List (Str × ProbeResult fl.F)) (t : Tracker)
      → IsMap m
      → get? k (update_entries fl m t).pairs ≡ state_after t (get? k m) (get? k t.pairs)
  unfolding get? update_entries
  get?-update_entries k [] t h = refl
  get?-update_entries k ((j, r) ∷ m) t h =
      let s' =
        update_state t.failure_threshold t.success_threshold r.success
          (Option.get_or (get? j t.pairs) fresh_state) in
      ground (
        arith,
        get?-update_entries k m (record t { pairs = put j s' t.pairs }) h.1,
        get?-put j k s' t.pairs,
        str_eq_iff j k,
        get?-none j m,
      )

  get?-stabilize_entries :
      (t : Tracker) (k : Str) (m : List (Str × ProbeResult fl.F)) (stable : Matrix fl.F)
      → IsMap m
      → get? k (stabilize_entries fl t m stable) ≡ elim (get? k m) [
        | none ↦ get? k stable
        | some r ↦ some (stable_result fl (get? k t.pairs) r)
      ]
  unfolding get? stabilize_entries
  get?-stabilize_entries t k [] stable h = refl
  get?-stabilize_entries t k ((j, r) ∷ m) stable h = ground (
    arith,
    get?-stabilize_entries t k m (put j (stable_result fl (get? j t.pairs) r) stable),
    get?-put j k (stable_result fl (get? j t.pairs) r) stable,
    str_eq_iff j k,
    get?-none j m,
  )

  pub thresholds-update_entries :
      (m : List (Str × ProbeResult fl.F)) (t : Tracker)
      → ((update_entries fl m t).failure_threshold ≡ t.failure_threshold)
        × ((update_entries fl m t).success_threshold ≡ t.success_threshold)
  unfolding update_entries
  thresholds-update_entries [] t = (refl, refl)
  thresholds-update_entries ((key, r) ∷ m) t = thresholds-update_entries m _

  module _ (rt : MapOrder) (t : Tracker) (m : Matrix fl.F) where
    -- Only a pair of the round changes its state, by its own result.
    pub get?-update :
        (k : Str)
        → IsMap m
        → get? k (update fl rt t m).pairs ≡ state_after t (get? k m) (get? k t.pairs)
    unfolding update
    get?-update k h =
        get?-update_entries k (rt.visit _ 2 m) t (IsMap-perm (Permᴰ.symm (rt.visit_perm _ 2 m)) h)
        ∙ ap (λ o. state_after t o (get? k t.pairs))
            (sym (get?-perm k (Permᴰ.symm (rt.visit_perm _ 2 m)) h))

    -- The stabilised matrix has the pairs of the round, each result as its state makes it.
    pub get?-stabilize :
        (k : Str)
        → IsMap m
        → get? k (stabilize fl rt t m) ≡ Option.map (stable_result fl (get? k t.pairs)) (get? k m)
    unfolding stabilize get?
    get?-stabilize k h =
        let visited =
          get?-stabilize_entries t k (rt.visit _ 3 m) []
            (IsMap-perm (Permᴰ.symm (rt.visit_perm _ 3 m)) h) in
        ground (arith, visited, get?-perm k (Permᴰ.symm (rt.visit_perm _ 3 m)) h)
