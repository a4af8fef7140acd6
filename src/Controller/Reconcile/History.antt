-- ===== src/Controller/Reconcile/History.antt =====
-- Many rounds of the operator: what it publishes of a pair, from that pair's measured results.
use cs331_t011_kubernetes_se.Common.{
  ℕ, suc, ◌<◌, ◌≤◌, ◌≡◌, refl, sym, ap, ◌∙◌, Bool, true, false, not, Option, none, some, List, [],
  ◌∷◌, arith, All, ap₂, ==_iff, length, if◌then◌else◌,
}
use mathlib.Core.Option
use cs331_t011_kubernetes_se.Common.Int.{ℤ, pos, negsuc, is_nonpos, int_limit}
use cs331_t011_kubernetes_se.Go.Text.{Str}
use cs331_t011_kubernetes_se.Go.Maps.{MapOrder, IsMap, get?}
use cs331_t011_kubernetes_se.Go.Floats.{Floats}
use cs331_t011_kubernetes_se.Contract.{ProbeResult, Matrix}
use cs331_t011_kubernetes_se.Analysis.Config.{Config, default_config}
use cs331_t011_kubernetes_se.Analysis.Tracker.{new_tracker, update, get_state}
use cs331_t011_kubernetes_se.Analysis.Tracker.Machine.{
  state_of, state_of-expected, is_degraded_after, status_of_bool,
}
use cs331_t011_kubernetes_se.Analysis.Tracker.Rounds.{
  track, history, state_of_history, track-history,
}
use cs331_t011_kubernetes_se.Controller.Stabilize.{held_result, stabilize_matrix}
use cs331_t011_kubernetes_se.Controller.Stabilize.Agreement.{
  get?-stabilize_matrix, held_result_lem, status_is_healthy,
}
use cs331_t011_kubernetes_se.Controller.Probe.{Formats}
use cs331_t011_kubernetes_se.Controller.Round.{NetworkHealthCheckSpec}
use cs331_t011_kubernetes_se.Controller.Reconcile.{
  Reconciler, Surroundings, equal_int, config_for, same_thresholds, tracker_for, tracker_config_for,
  record_metrics, judge_round,
}

module _ (fl : Floats) (formats : Formats) (ws : ℕ → Surroundings fl.F)
    (spec : NetworkHealthCheckSpec) where
  abbrev cfg : Config fl.F
  cfg = config_for fl spec

  -- The reconciler after the rounds with the matrices given, the latest first.
  unfoldable pub judge_rounds : Reconciler fl.F → List (Matrix fl.F) → Reconciler fl.F
  judge_rounds r [] = r
  judge_rounds r (m ∷ earlier) =
      (judge_round fl formats (ws (length earlier)) spec m (judge_rounds r earlier)).0

  abbrev pub orders_of : ℕ → MapOrder
  orders_of n = (ws n).orders

  equal_int_refl : (n : ℤ) → equal_int n n ≡ true
  unfolding equal_int
  equal_int_refl (pos n) = ground (arith, ==_iff n n)
  equal_int_refl (negsuc n) = ground (arith, ==_iff n n)

  same_thresholds_refl : same_thresholds fl cfg cfg ≡ true
  unfolding same_thresholds
  same_thresholds_refl =
      rw (equal_int_refl cfg.failure_threshold, equal_int_refl cfg.success_threshold)

  -- From a reconciler without a tracker the rounds keep one tracker.
  judge_rounds-tracker :
      (r : Reconciler fl.F)
      → r.tracker ≡ none
      → (m : Matrix fl.F) (earlier : List (Matrix fl.F))
      → ((judge_rounds r (m ∷ earlier)).tracker
          ≡ some (track orders_of fl (new_tracker cfg) (m ∷ earlier)))
        × ((judge_rounds r (m ∷ earlier)).tracker_config ≡ cfg)
  unfolding judge_rounds judge_round record_metrics tracker_for tracker_config_for track
  judge_rounds-tracker r fresh m [] = (
    ap (λ o. some (update fl (ws 0).orders (tracker_for fl cfg o r.tracker_config) m)) fresh,
    ap (λ o. tracker_config_for fl cfg o r.tracker_config) fresh,
  )
  judge_rounds-tracker r fresh m (m' ∷ earlier) =
      let (t, c) = judge_rounds-tracker r fresh m' earlier in
      let old = track orders_of fl (new_tracker cfg) (m' ∷ earlier) in
      (
        ap₂ (λ o c. some (update fl (ws (suc (length earlier))).orders (tracker_for fl cfg o c) m))
              t c
            ∙ ap
                (λ b. some (
                  update fl (ws (suc (length earlier))).orders (if b then old else new_tracker cfg)
                    m))
                same_thresholds_refl,
        ap₂ (λ o c. tracker_config_for fl cfg o c) t c
            ∙ ap (λ b. if b then cfg else cfg) same_thresholds_refl,
      )

  chosen_tracker :
      (r : Reconciler fl.F)
      → r.tracker ≡ none
      → (earlier : List (Matrix fl.F))
      → tracker_for fl cfg (judge_rounds r earlier).tracker (judge_rounds r earlier).tracker_config
        ≡ track orders_of fl (new_tracker cfg) earlier
  unfolding tracker_for track judge_rounds
  chosen_tracker r fresh [] = ap (λ o. tracker_for fl cfg o r.tracker_config) fresh
  chosen_tracker r fresh (m ∷ earlier) =
      let (t, c) = judge_rounds-tracker r fresh m earlier in
      ap₂ (λ o old. tracker_for fl cfg o old) t c
      ∙ ap (λ b. if b then track orders_of fl (new_tracker cfg) (m ∷ earlier) else new_tracker cfg)
          same_thresholds_refl

  last_matrix-judge_rounds :
      (r : Reconciler fl.F)
      → r.tracker ≡ none
      → (m : Matrix fl.F) (earlier : List (Matrix fl.F))
      → (judge_rounds r (m ∷ earlier)).last_matrix
        ≡ stabilize_matrix fl
            (orders_of (length earlier))
            (track orders_of fl (new_tracker cfg) (m ∷ earlier))
            m
  unfolding judge_rounds judge_round record_metrics track
  last_matrix-judge_rounds r fresh m earlier =
      ap
        (λ t.
          stabilize_matrix fl (orders_of (length earlier))
            (update fl (orders_of (length earlier)) t m) m)
        (chosen_tracker r fresh earlier)

  length-history :
      (k : Str) (rounds : List (Matrix fl.F))
      → length (history orders_of fl k rounds) ≤ length rounds
  unfolding history
  length-history k [] = omega arith
  length-history k (m ∷ earlier) = longer (get? k m) (length-history k earlier)
    where
      longer :
          (o : Option (ProbeResult fl.F))
          → length (history orders_of fl k earlier) ≤ length earlier
          → length (elim o [
            | none ↦ history orders_of fl k earlier
            | some r ↦ r.success ∷ history orders_of fl k earlier
          ])
            ≤ suc (length earlier)
      longer none h = omega arith
      longer (some r) h = omega arith

  healthy_of_bool : (b : Bool) → status_is_healthy (status_of_bool b) ≡ not b
  healthy_of_bool true = refl
  healthy_of_bool false = refl

  no_pairs : (new_tracker cfg).pairs ≡ []
  unfolding new_tracker
  no_pairs = refl

  module _ (ft st : ℕ) (spec_ft : spec.failure_threshold ≡ pos (suc ft))
      (spec_st : spec.success_threshold ≡ pos (suc st)) where
    chosen_thresholds :
        ((new_tracker cfg).failure_threshold ≡ pos (suc ft))
        × ((new_tracker cfg).success_threshold ≡ pos (suc st))
    unfolding new_tracker config_for default_config
    chosen_thresholds = (
      ap (λ n. let m = if is_nonpos n then pos 3 else n in if is_nonpos m then pos 3 else m)
          spec_ft,
      ap (λ n. let m = if is_nonpos n then pos 2 else n in if is_nonpos m then pos 2 else m)
          spec_st,
    )

    state-track :
        (m : Matrix fl.F) (earlier : List (Matrix fl.F))
        → All IsMap (m ∷ earlier)
        → (k : Str) (measured : ProbeResult fl.F) → get? k m ≡ some measured
        → get_state (track orders_of fl (new_tracker cfg) (m ∷ earlier)) k
          ≡ some (state_of (pos (suc ft)) (pos (suc st)) (history orders_of fl k (m ∷ earlier)))
    unfolding history
    state-track m earlier maps k measured hit =
        let h = history orders_of fl k earlier in
        let with_latest : Option (ProbeResult fl.F) → List Bool =
          λ o. elim o [ none ↦ h | some r ↦ r.success ∷ h ] in
        let (f, g) = chosen_thresholds in
        track-history orders_of fl (new_tracker cfg) k (m ∷ earlier) no_pairs maps
        ∙ ap (λ o. state_of_history orders_of fl (new_tracker cfg) (with_latest o)) hit
        ∙ ap₂ (λ a b. some (state_of a b (measured.success ∷ h))) f g
        ∙ sym (ap (λ o. some (state_of (pos (suc ft)) (pos (suc st)) (with_latest o))) hit)

    -- In an operator that starts without a tracker, after fewer than 2^63 rounds without repeated
    -- keys and under positive thresholds, the published result of a pair that the last round
    -- measured succeeds exactly where the pair's own results, by their streaks, do not make it
    -- degraded, and it keeps the mark of an agent error.
    pub judge_rounds-published :
        (r : Reconciler fl.F)
        → r.tracker ≡ none
        → (m : Matrix fl.F) (earlier : List (Matrix fl.F)) → All IsMap (m ∷ earlier)
        → suc (length earlier) < int_limit
        → (k : Str) (measured : ProbeResult fl.F) → get? k m ≡ some measured
        → (published : ProbeResult fl.F) × (get? k (judge_rounds r (m ∷ earlier)).last_matrix
            ≡ some published)
          × (published.success
              ≡ not (is_degraded_after (suc ft) (suc st) (history orders_of fl k (m ∷ earlier))))
          × (published.agent_error ≡ measured.agent_error)
    judge_rounds-published r fresh m earlier maps small k measured hit =
        let s = state_of (pos (suc ft)) (pos (suc st)) (history orders_of fl k (m ∷ earlier)) in
        let t = track orders_of fl (new_tracker cfg) (m ∷ earlier) in
        let bound = length-history k (m ∷ earlier) in
        let (up, marked, _, _) = held_result_lem fl s measured in
        let expected =
          state_of-expected (suc ft) (suc st) (history orders_of fl k (m ∷ earlier))
            (omega arith) in
        (
          held_result fl (some s) measured,
          ap (get? k) (last_matrix-judge_rounds r fresh m earlier)
              ∙ get?-stabilize_matrix fl t (orders_of (length earlier)) m k maps.0
              ∙ ap₂ (λ o x. Option.map (held_result fl o) x)
                  (state-track m earlier maps k measured hit) hit,
          up ∙ ap (λ x. status_is_healthy x.status) expected ∙ healthy_of_bool _,
          marked,
        )
