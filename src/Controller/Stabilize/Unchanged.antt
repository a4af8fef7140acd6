-- ===== src/Controller/Stabilize/Unchanged.antt =====
-- A round of successes passes the stabiliser as it is.
use cs331_t011_kubernetes_se.Common.{
  zero, suc, ◌≡◌, refl, sym, ap, ap₂, ◌∙◌, true, false, Option, none, some, [], ◌∷◌, arith,
  Option-cases, inl, inr,
}
use mathlib.Core.Option
use cs331_t011_kubernetes_se.Common.Int.{ℤ, pos, negsuc, is_nonpos}
use cs331_t011_kubernetes_se.Go.Text.{Str}
use cs331_t011_kubernetes_se.Go.Maps.{MapOrder, IsMap, get?, put-IsMap}
use cs331_t011_kubernetes_se.Go.Floats.{Floats}
use cs331_t011_kubernetes_se.Contract.{ProbeResult, Matrix}
use cs331_t011_kubernetes_se.Analysis.Tracker.{
  pair_healthy, PairState, Tracker, fresh_state, count_result, next_status, update_state, get_state,
  update,
}
use cs331_t011_kubernetes_se.Analysis.Tracker.Lookups.{state_after, get?-update}
use cs331_t011_kubernetes_se.Controller.Stabilize.{
  switch_status, held_result, stabilize_rows, stabilize_matrix,
}
use cs331_t011_kubernetes_se.Controller.Stabilize.Agreement.{get?-stabilize_matrix}

-- The tracker holds no pair for degraded, and its threshold on failures is positive.
abbrev pub HoldsNone : Tracker → Type 0
HoldsNone t =
    (is_nonpos t.failure_threshold ≡ false)
    × ((k : Str) (s : PairState) → get? k t.pairs ≡ some s → s.status ≡ pair_healthy)

update_state-healthy :
    (ft st : ℤ) (s : PairState)
    → is_nonpos ft ≡ false
    → s.status ≡ pair_healthy
    → (update_state ft st true s).status ≡ pair_healthy
unfolding update_state count_result next_status
update_state-healthy (pos zero) st s some_ft up = absurd (ground arith)
update_state-healthy (pos (suc n)) st s some_ft up = rw up (ground arith)
update_state-healthy (negsuc n) st s some_ft up = absurd (ground arith)

module _ (fl : Floats) where
  held_healthy :
      (s : PairState) (r : ProbeResult fl.F)
      → s.status ≡ pair_healthy
      → r.success ≡ true
      → held_result fl (some s) r ≡ r
  unfolding held_result switch_status
  held_healthy s r up ok = rw (up, ok) refl

  stabilize_rows-IsMap :
      (t : Tracker) (rows stable : Matrix fl.F)
      → IsMap stable
      → IsMap (stabilize_rows fl t rows stable)
  unfolding stabilize_rows
  stabilize_rows-IsMap t [] stable h = h
  stabilize_rows-IsMap t ((key, r) ∷ rows) stable h =
      stabilize_rows-IsMap t rows _ (put-IsMap key _ stable h)

  pub stabilize_matrix-IsMap :
      (rt : MapOrder) (t : Tracker) (m : Matrix fl.F) → IsMap (stabilize_matrix fl rt t m)
  unfolding stabilize_matrix
  stabilize_matrix-IsMap rt t m = stabilize_rows-IsMap t (rt.visit _ 4 m) [] tt

  old_healthy :
      (o : Option PairState)
      → ((s : PairState) → o ≡ some s → s.status ≡ pair_healthy)
      → (Option.get_or o fresh_state).status ≡ pair_healthy
  unfolding fresh_state
  old_healthy none h = refl
  old_healthy (some s) h = h s refl

  module _ (rt : MapOrder) (t : Tracker) (m : Matrix fl.F) (none_down : HoldsNone t)
      (unique : IsMap m) where
    updated_state :
        (k : Str) (r : ProbeResult fl.F)
        → get? k m ≡ some r
        → r.success ≡ true
        → (s : PairState) × (get_state (update fl rt t m) k ≡ some s) × (s.status ≡ pair_healthy)
    unfolding get_state
    updated_state k r hit up =
        let old = Option.get_or (get? k t.pairs) fresh_state in
        (
          update_state t.failure_threshold t.success_threshold r.success old,
          get?-update fl rt t m k unique ∙ ap (λ o. state_after fl t o (get? k t.pairs)) hit,
          ap (λ b. (update_state t.failure_threshold t.success_threshold b old).status) up
              ∙ update_state-healthy t.failure_threshold t.success_threshold old none_down.0
                  (old_healthy (get? k t.pairs) (λ s. none_down.1 k s)),
        )

    -- A round of successes passes a tracker that holds no pair for degraded unchanged.
    pub get?-stable :
        ((k : Str) (r : ProbeResult fl.F) → get? k m ≡ some r → r.success ≡ true)
        → (k : Str) → get? k (stabilize_matrix fl rt (update fl rt t m) m) ≡ get? k m
    get?-stable ok k =
        get?-stabilize_matrix fl (update fl rt t m) rt m k unique
        ∙ (elim (Option-cases (get? k m)) [
          | inl e ↦ ap (Option.map (held_result fl (get_state (update fl rt t m) k))) e ∙ sym e
          | inr (r, e) ↦
              let up = ok k r e in
              let (s, found, well) = updated_state k r e up in
              ap₂ (λ o x. Option.map (held_result fl o) x) found e
              ∙ ap some (held_healthy s r well up)
              ∙ sym e
        ])
