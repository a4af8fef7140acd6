-- ===== src/Tests/Tracking.antt =====
-- The tracker over a few rounds.
use mathlib.Core.Path.{◌≡◌, refl}
use native.Mathlib.Omega.{arith}
use cs331_t011_kubernetes_se.Common.{Bool, true, false, some, List, [], ◌∷◌, All}
use cs331_t011_kubernetes_se.Common.Int.{pos, inc, int_limit}
use cs331_t011_kubernetes_se.Go.Text.{str, str_eq}
use cs331_t011_kubernetes_se.Go.Maps.{IsMap, get?, put}
use cs331_t011_kubernetes_se.Contract.{Matrix}
use cs331_t011_kubernetes_se.Analysis.Tracker.{
  pair_degraded, Tracker, fresh_state, update_state, get_state, update_entries, update,
}
use cs331_t011_kubernetes_se.Analysis.Tracker.Lookups.{state_after, get?-update}
use cs331_t011_kubernetes_se.Analysis.Tracker.Machine.{state_of, expected_state, state_of-expected}
use cs331_t011_kubernetes_se.Analysis.Tracker.Rounds.{
  track, history, state_of_history, track-history,
}
use cs331_t011_kubernetes_se.Tests.Fractions.{Fraction, fractions}
use cs331_t011_kubernetes_se.Tests.Samples.{backwards, good, lost, mesh}

-- Four failures, the latest first, after a success.
abbrev failing : List Bool
failing = false ∷ false ∷ false ∷ false ∷ true ∷ []

state_of-expected_example : state_of (pos 3) (pos 2) failing ≡ expected_state 3 2 failing
unfolding int_limit
state_of-expected_example = state_of-expected 3 2 failing (omega arith)

-- Two successes after the failures, and one failure after them.
abbrev recovering : List Bool
recovering = true ∷ true ∷ failing

abbrev flapping : List Bool
flapping = false ∷ true ∷ false ∷ false ∷ true ∷ []

failing_degraded : (state_of (pos 3) (pos 2) failing).status ≡ pair_degraded
unfolding state_of update_state fresh_state inc int_limit
failing_degraded = refl

abbrev down_round : Matrix Fraction
down_round = mesh lost good good good good good

abbrev up_round : Matrix Fraction
up_round = mesh good good good good good good

abbrev rounds : List (Matrix Fraction)
rounds = down_round ∷ down_round ∷ down_round ∷ up_round ∷ []

down_round-IsMap : IsMap down_round
unfolding str str_eq
down_round-IsMap = (refl, (refl, (refl, (refl, (refl, (refl, tt))))))

up_round-IsMap : IsMap up_round
unfolding str str_eq
up_round-IsMap = (refl, (refl, (refl, (refl, (refl, (refl, tt))))))

rounds-IsMap : All IsMap rounds
rounds-IsMap = (down_round-IsMap, (down_round-IsMap, (down_round-IsMap, (up_round-IsMap, tt))))

abbrev new_start : Tracker
new_start = record { pairs = []; failure_threshold = pos 3; success_threshold = pos 2 }

track-history_example :
    get_state (track (λ n. backwards) fractions new_start rounds) (str "a->b")
    ≡ state_of_history
        (λ n. backwards)
        fractions
        new_start
        (history (λ n. backwards) fractions (str "a->b") rounds)
track-history_example =
    track-history (λ n. backwards) fractions new_start (str "a->b") rounds refl rounds-IsMap

-- Three rounds of failures degrade the pair.
history_degrades :
    get_state (track (λ n. backwards) fractions new_start rounds) (str "a->b")
    ≡ some (record {
      consecutive_failures = pos 3;
      consecutive_successes = pos 0;
      status = pair_degraded;
    })
unfolding track update update_entries get_state get? put update_state fresh_state str str_eq inc
    int_limit
history_degrades = refl

get?-update_example :
    get? (str "a->b") (update fractions backwards new_start down_round).pairs
    ≡ state_after fractions new_start
        (get? (str "a->b") down_round)
        (get? (str "a->b") new_start.pairs)
get?-update_example =
    get?-update fractions backwards new_start down_round (str "a->b") down_round-IsMap
