-- ===== src/Analysis/Tracker/Machine.antt =====
-- The state of one pair over many rounds, against the streaks of its results.
use cs331_t011_kubernetes_se.Common.{
  ℕ, suc, ◌≤◌, ◌<◌, ◌≡◌, refl, ap, ◌∙◌, Bool, true, false, not, List, [], ◌∷◌, arith, leb, length,
  if◌then◌else◌,
}
use Prim.Native.Nat.{max}
use cs331_t011_kubernetes_se.Common.Int.{ℤ, pos, inc-pos, int_limit}
use cs331_t011_kubernetes_se.Analysis.Tracker.{
  PairStatus, pair_healthy, pair_degraded, PairState, fresh_state, update_state,
}

-- The state after the results given, the latest first.
unfoldable pub state_of : ℤ → ℤ → List Bool → PairState
state_of ft st [] = fresh_state
state_of ft st (success ∷ earlier) = update_state ft st success (state_of ft st earlier)

-- How many of the latest results failed, or succeeded, in a row.
unfoldable pub failure_streak : List Bool → ℕ
failure_streak [] = 0
failure_streak (true ∷ earlier) = 0
failure_streak (false ∷ earlier) = suc (failure_streak earlier)

unfoldable pub success_streak : List Bool → ℕ
success_streak [] = 0
success_streak (true ∷ earlier) = suc (success_streak earlier)
success_streak (false ∷ earlier) = 0

-- A pair is degraded by a streak of failures, until a streak of successes.
unfoldable pub is_degraded_after : ℕ → ℕ → List Bool → Bool
is_degraded_after ft st [] = false
is_degraded_after ft st (success ∷ earlier) =
    let before = is_degraded_after ft st earlier in
    if before
    then not (leb st (success_streak (success ∷ earlier)))
    else leb ft (failure_streak (success ∷ earlier))

abbrev pub status_of_bool : Bool → PairStatus
status_of_bool true = pair_degraded
status_of_bool false = pair_healthy

failure_streak-le : (h : List Bool) → failure_streak h ≤ length h
unfolding failure_streak
failure_streak-le [] = omega arith
failure_streak-le (true ∷ h) = omega arith
failure_streak-le (false ∷ h) = omega (arith, failure_streak-le h)

success_streak-le : (h : List Bool) → success_streak h ≤ length h
unfolding success_streak
success_streak-le [] = omega arith
success_streak-le (true ∷ h) = omega (arith, success_streak-le h)
success_streak-le (false ∷ h) = omega arith

-- What the specification says a pair's state is.
abbrev pub expected_state : ℕ → ℕ → List Bool → PairState
expected_state ft st h = record {
  consecutive_failures = pos (failure_streak h);
  consecutive_successes = pos (success_streak h);
  status = status_of_bool (is_degraded_after ft st h);
}

update_state-expected :
    (ft st : ℕ) (success : Bool) (h : List Bool)
    → suc (length h) < int_limit
    → update_state (pos ft) (pos st) success (expected_state ft st h)
      ≡ expected_state ft st (success ∷ h)
unfolding update_state is_degraded_after failure_streak success_streak
update_state-expected ft st true h small =
    ground (arith, inc-pos (success_streak h), success_streak-le h)
update_state-expected ft st false h small =
    ground (arith, inc-pos (failure_streak h), failure_streak-le h)

-- After any history shorter than 2^63 rounds the counters are the two streaks and the status is the
-- one that the streaks determine.
pub state_of-expected :
    (ft st : ℕ) (h : List Bool)
    → length h < int_limit
    → state_of (pos ft) (pos st) h ≡ expected_state ft st h
unfolding state_of fresh_state failure_streak success_streak is_degraded_after
state_of-expected ft st [] small = refl
state_of-expected ft st (success ∷ h) small =
    ap (update_state (pos ft) (pos st) success) (state_of-expected ft st h (omega arith))
    ∙ update_state-expected ft st success h small

-- The longest streak of failures anywhere in the history.
unfoldable pub longest_failure_streak : List Bool → ℕ
longest_failure_streak [] = 0
longest_failure_streak (success ∷ h) = max (failure_streak (success ∷ h)) (longest_failure_streak h)

module _ (ft st : ℕ) (some_ft : 0 < ft) (some_st : 0 < st) where
  degraded_by_streak : (h : List Bool) → ft ≤ failure_streak h → is_degraded_after ft st h ≡ true
  unfolding is_degraded_after failure_streak success_streak
  degraded_by_streak [] long = absurd (omega arith)
  degraded_by_streak (true ∷ h) long = absurd (omega arith)
  degraded_by_streak (false ∷ h) long = ground arith

  healthy_by_streak : (h : List Bool) → st ≤ success_streak h → is_degraded_after ft st h ≡ false
  unfolding is_degraded_after failure_streak success_streak
  healthy_by_streak [] long = absurd (omega arith)
  healthy_by_streak (true ∷ h) long = ground arith
  healthy_by_streak (false ∷ h) long = absurd (omega arith)

  healthy_without_streak :
      (h : List Bool) → longest_failure_streak h < ft → is_degraded_after ft st h ≡ false
  unfolding is_degraded_after longest_failure_streak
  healthy_without_streak [] short = refl
  healthy_without_streak (success ∷ h) short =
      let before = healthy_without_streak h (omega arith) in ground arith

  -- With positive thresholds and after fewer than 2^63 rounds, as many failures in a row as the
  -- failure threshold make a pair degraded.
  pub state_of_failing :
      (h : List Bool)
      → length h < int_limit
      → ft ≤ failure_streak h
      → (state_of (pos ft) (pos st) h).status ≡ pair_degraded
  state_of_failing h small long =
      ap (λ s. s.status) (state_of-expected ft st h small)
      ∙ ap status_of_bool (degraded_by_streak h long)

  -- With positive thresholds and after fewer than 2^63 rounds, as many successes in a row as the
  -- success threshold make a pair healthy.
  pub state_of_recovered :
      (h : List Bool)
      → length h < int_limit
      → st ≤ success_streak h
      → (state_of (pos ft) (pos st) h).status ≡ pair_healthy
  state_of_recovered h small long =
      ap (λ s. s.status) (state_of-expected ft st h small)
      ∙ ap status_of_bool (healthy_by_streak h long)

  -- With positive thresholds and after fewer than 2^63 rounds, a pair that never failed as often in
  -- a row as the failure threshold is healthy.
  pub state_of_steady :
      (h : List Bool)
      → length h < int_limit
      → longest_failure_streak h < ft
      → (state_of (pos ft) (pos st) h).status ≡ pair_healthy
  state_of_steady h small short =
      ap (λ s. s.status) (state_of-expected ft st h small)
      ∙ ap status_of_bool (healthy_without_streak h short)
