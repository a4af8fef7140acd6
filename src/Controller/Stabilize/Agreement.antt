-- ===== src/Controller/Stabilize/Agreement.antt =====
-- The two stabilisers, and what stabilising does to each result.
use cs331_t011_kubernetes_se.Common.{
  ◌≡◌, refl, sym, ap, ◌∙◌, Bool, true, false, Option, none, some, List, [], ◌∷◌, arith,
  Option-cases, if◌then◌else◌, inl, inr, ◌⊎◌, not, Bool-cases,
}
use mathlib.Core.Option
use mathlib.Core.List.Permᴰ
use cs331_t011_kubernetes_se.Go.Text.{Str, str_eq_iff}
use cs331_t011_kubernetes_se.Go.Maps.{
  MapOrder, IsMap, get?, put, get?-put, get?-none, get?-perm, IsMap-perm,
}
use cs331_t011_kubernetes_se.Go.Floats.{Floats}
use cs331_t011_kubernetes_se.Contract.{ProbeResult, Matrix}
use cs331_t011_kubernetes_se.Analysis.Tracker.{
  PairStatus, pair_healthy, pair_degraded, PairState, Tracker, get_state, hold, stable_result,
  stabilize,
}
use cs331_t011_kubernetes_se.Analysis.Tracker.Lookups.{get?-stabilize}
use cs331_t011_kubernetes_se.Controller.Stabilize.{
  switch_status, held_result, stabilize_rows, stabilize_matrix,
}

module _ (fl : Floats) (t : Tracker) where
  get?-stabilize_rows :
      (k : Str) (m : List (Str × ProbeResult fl.F)) (stable : Matrix fl.F)
      → IsMap m
      → get? k (stabilize_rows fl t m stable) ≡ elim (get? k m) [
        | none ↦ get? k stable
        | some r ↦ some (held_result fl (get_state t k) r)
      ]
  unfolding get? stabilize_rows
  get?-stabilize_rows k [] stable h = refl
  get?-stabilize_rows k ((j, r) ∷ m) stable h = ground (
    arith,
    get?-stabilize_rows k m (put j (held_result fl (get_state t j) r) stable),
    get?-put j k (held_result fl (get_state t j) r) stable,
    str_eq_iff j k,
    get?-none j m,
  )

  -- Where no key stands twice, the stabilised matrix has the pairs of the round, each with the
  -- result that its state makes of it, whatever the order of the map.
  pub get?-stabilize_matrix :
      (rt : MapOrder) (m : Matrix fl.F) (k : Str)
      → IsMap m
      → get? k (stabilize_matrix fl rt t m) ≡ Option.map (held_result fl (get_state t k)) (get? k m)
  unfolding stabilize_matrix get?
  get?-stabilize_matrix rt m k h =
      let visited =
        get?-stabilize_rows k (rt.visit _ 4 m) []
          (IsMap-perm (Permᴰ.symm (rt.visit_perm _ 4 m)) h) in
      ground (arith, visited, get?-perm k (Permᴰ.symm (rt.visit_perm _ 4 m)) h)

  -- The two switches do the same.
  switch_status-hold :
      (status : PairStatus) (r : ProbeResult fl.F) → switch_status fl status r ≡ hold fl status r
  unfolding switch_status hold
  switch_status-hold pair_healthy r = refl
  switch_status-hold pair_degraded r = refl

  same_result :
      (o : Option PairState) (r : ProbeResult fl.F)
      → r.agent_error ≡ false
      → held_result fl o r ≡ stable_result fl o r
  unfolding held_result stable_result
  same_result none r h = refl
  same_result (some s) r h =
      switch_status-hold s.status r ∙ sym (ap (λ b. if b then r else hold fl s.status r) h)

  -- On a round without a repeated key and without agent errors the operator's stabiliser and the
  -- tracker's give every key the same result.
  pub stabilize_matrix-stabilize :
      (rt rt' : MapOrder) (m : Matrix fl.F)
      → IsMap m
      → ((k : Str) (r : ProbeResult fl.F) → get? k m ≡ some r → r.agent_error ≡ false)
      → (k : Str) → get? k (stabilize_matrix fl rt t m) ≡ get? k (stabilize fl rt' t m)
  unfolding get_state
  stabilize_matrix-stabilize rt rt' m h clean k =
      get?-stabilize_matrix rt m k h
      ∙ (elim (Option-cases (get? k m)) [
        | inl e ↦ rw e
        | inr (r, e) ↦ rw e (ap some (same_result (get? k t.pairs) r (clean k r e)))
      ])
      ∙ sym (get?-stabilize fl rt' t m k h)

abbrev pub status_is_healthy : PairStatus → Bool
status_is_healthy pair_healthy = true
status_is_healthy pair_degraded = false

module _ (fl : Floats) where
  held_or_changed :
      (status : PairStatus) (r : ProbeResult fl.F)
      → (switch_status fl status r ≡ r) ⊎ (r.success ≡ not (status_is_healthy status))
  unfolding switch_status
  held_or_changed pair_healthy r = elim (Bool-cases r.success) [
    | inl up ↦ inl (rw up)
    | inr down ↦ inr down
  ]
  held_or_changed pair_degraded r = elim (Bool-cases r.success) [
    | inl up ↦ inr up
    | inr down ↦ inl (rw down)
  ]

  -- A tracked pair's result succeeds exactly when its state is healthy; its agent-error mark and
  -- its measured time are those of the round, and it is the round's own unless that contradicts
  -- the state.
  pub held_result_lem :
      (s : PairState) (r : ProbeResult fl.F)
      → ((held_result fl (some s) r).success ≡ status_is_healthy s.status)
        × ((held_result fl (some s) r).agent_error ≡ r.agent_error)
        × ((held_result fl (some s) r).rtt_millis ≡ r.rtt_millis)
        × ((held_result fl (some s) r ≡ r) ⊎ (r.success ≡ not (status_is_healthy s.status)))
  unfolding held_result switch_status
  held_result_lem s r = (ground arith, ground arith, ground arith, held_or_changed s.status r)
