-- ===== src/Analysis/Tracker/Rounds.antt =====
-- The tracker over many rounds, pair by pair.
use cs331_t011_kubernetes_se.Common.{
  ℕ, ◌≡◌, refl, ap, ◌∙◌, Bool, Option, none, some, List, [], ◌∷◌, All, length,
}
use cs331_t011_kubernetes_se.Go.Text.{Str}
use cs331_t011_kubernetes_se.Go.Maps.{MapOrder, IsMap, get?}
use cs331_t011_kubernetes_se.Go.Floats.{Floats}
use cs331_t011_kubernetes_se.Contract.{ProbeResult, Matrix}
use cs331_t011_kubernetes_se.Analysis.Tracker.{PairState, Tracker, get_state, update}
use cs331_t011_kubernetes_se.Analysis.Tracker.Lookups.{
  state_after, thresholds-update_entries, get?-update,
}
use cs331_t011_kubernetes_se.Analysis.Tracker.Machine.{state_of}

module _ (rts : ℕ → MapOrder) (fl : Floats) where
  -- The tracker after the rounds given, the latest first; each round has its own orders.
  unfoldable pub track : Tracker → List (Matrix fl.F) → Tracker
  track t [] = t
  track t (m ∷ earlier) = update fl (rts (length earlier)) (track t earlier) m

  -- The results of one pair, the latest first; a round without the pair says nothing of it.
  unfoldable pub history : Str → List (Matrix fl.F) → List Bool
  history k [] = []
  history k (m ∷ earlier) = elim (get? k m) [
    | none ↦ history k earlier
    | some r ↦ r.success ∷ history k earlier
  ]

  abbrev pub state_of_history : Tracker → List Bool → Option PairState
  state_of_history t [] = none
  state_of_history t (success ∷ h) =
      some (state_of t.failure_threshold t.success_threshold (success ∷ h))

  track_thresholds :
      (t : Tracker) (rounds : List (Matrix fl.F))
      → ((track t rounds).failure_threshold ≡ t.failure_threshold)
        × ((track t rounds).success_threshold ≡ t.success_threshold)
  unfolding track update
  track_thresholds t [] = (refl, refl)
  track_thresholds t (m ∷ earlier) =
      let (f, s) =
        thresholds-update_entries fl ((rts (length earlier)).visit _ 2 m) (track t earlier) in
      let (f', s') = track_thresholds t earlier in (f ∙ f', s ∙ s')

  -- One round of a pair, in a tracker with the thresholds of the first.
  next_state :
      (t t' : Tracker) (h : List Bool) (o : Option (ProbeResult fl.F))
      → t'.failure_threshold ≡ t.failure_threshold
      → t'.success_threshold ≡ t.success_threshold
      → state_after fl t' o (state_of_history t h)
        ≡ state_of_history t (elim o [ none ↦ h | some r ↦ r.success ∷ h ])
  unfolding state_of
  next_state t t' h none f s = refl
  next_state t t' [] (some r) f s = cc
  next_state t t' (success ∷ h) (some r) f s = cc

  -- From a tracker with no pairs, the state of a pair after any rounds without repeated keys is the
  -- state machine run on that pair's own results.
  pub track-history :
      (t : Tracker) (k : Str) (rounds : List (Matrix fl.F))
      → t.pairs ≡ []
      → All IsMap rounds
      → get_state (track t rounds) k ≡ state_of_history t (history k rounds)
  unfolding track history get_state get?
  track-history t k [] fresh maps = ap (get? k) fresh
  track-history t k (m ∷ earlier) fresh maps =
      let (f, s) = track_thresholds t earlier in
      get?-update fl (rts (length earlier)) (track t earlier) m k maps.0
      ∙ ap (state_after fl (track t earlier) (get? k m)) (track-history t k earlier fresh maps.1)
      ∙ next_state t (track t earlier) (history k earlier) (get? k m) f s
