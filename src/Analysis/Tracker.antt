-- ===== src/Analysis/Tracker.antt =====
-- code/pkg/analysis/hysteresis.go: the tracker of consecutive failures and successes of each pair.
-- A map of pointers to states is a map of states: no caller of `GetState` writes through one.
pub mod Lookups
pub mod Machine
pub mod Rounds
use cs331_t011_kubernetes_se.Common.{
  Bool, true, false, not, ◌||◌, Option, none, some, List, [], ◌∷◌, if◌then◌else◌,
}
use cs331_t011_kubernetes_se.Common.Int.{ℤ, pos, inc, geb, is_nonpos}
use cs331_t011_kubernetes_se.Go.Text.{Str, str}
use cs331_t011_kubernetes_se.Go.Maps.{GoMap, MapOrder, get?, put}
use cs331_t011_kubernetes_se.Go.Floats.{Floats}
use cs331_t011_kubernetes_se.Contract.{ProbeResult, Matrix}
use cs331_t011_kubernetes_se.Analysis.Config.{Config}
use mathlib.Core.Option

pub data PairStatus : Type 0 where
  pair_healthy pair_degraded : PairStatus

pub record PairState : Type 0 where
  pub consecutive_failures : ℤ
  pub consecutive_successes : ℤ
  pub status : PairStatus

pub record Tracker : Type 0 where
  pub pairs : GoMap PairState
  pub failure_threshold : ℤ
  pub success_threshold : ℤ

unfoldable pub new_tracker : {F : Type 0} → Config F → Tracker
new_tracker cfg = record {
  pairs = [];
  failure_threshold = if is_nonpos cfg.failure_threshold then pos 3 else cfg.failure_threshold;
  success_threshold = if is_nonpos cfg.success_threshold then pos 2 else cfg.success_threshold;
}

-- `&PairState{Status: PairHealthy}`
unfoldable pub fresh_state : PairState
fresh_state = record {
  consecutive_failures = pos 0;
  consecutive_successes = pos 0;
  status = pair_healthy;
}

-- The counters after one result.
unfoldable pub count_result : Bool → PairState → PairState
count_result success s =
    if not success
    then record s {
      consecutive_failures = inc s.consecutive_failures;
      consecutive_successes = pos 0;
    }
    else record s {
      consecutive_successes = inc s.consecutive_successes;
      consecutive_failures = pos 0;
    }

-- The `switch` over the status.
unfoldable pub next_status : ℤ → ℤ → PairStatus → PairState → PairStatus
next_status ft st pair_healthy s =
    if geb s.consecutive_failures ft then pair_degraded else pair_healthy
next_status ft st pair_degraded s =
    if geb s.consecutive_successes st then pair_healthy else pair_degraded

-- The body of the loop of `Update`, on the state of one pair.
unfoldable pub update_state : ℤ → ℤ → Bool → PairState → PairState
unfolding count_result next_status
update_state ft st success s =
    let counted = count_result success s in
    record counted { status = next_status ft st counted.status counted }

-- `GetState`; `none` is nil.
unfoldable pub get_state : Tracker → Str → Option PairState
get_state t key = get? key t.pairs

unfoldable pub reset : Tracker → Tracker
reset t = record t { pairs = [] }

is_degraded_state : PairStatus → Bool
is_degraded_state pair_healthy = false
is_degraded_state pair_degraded = true

collect_degraded : GoMap PairState → List Str
collect_degraded [] = []
collect_degraded ((key, s) ∷ pairs) =
    if is_degraded_state s.status then key ∷ collect_degraded pairs else collect_degraded pairs

module _ (rt : MapOrder) where
  unfoldable pub degraded_pairs : Tracker → List Str
  unfolding collect_degraded is_degraded_state
  degraded_pairs t = collect_degraded (rt.visit _ 1 t.pairs)

module _ (fl : Floats) where
  -- The loop of `Update`, over the entries in the order visited.
  unfoldable pub update_entries : List (Str × ProbeResult fl.F) → Tracker → Tracker
  update_entries [] t = t
  update_entries ((key, r) ∷ m) t =
      let old = Option.get_or (get? key t.pairs) fresh_state in
      update_entries m (record t {
        pairs =
            put key (update_state t.failure_threshold t.success_threshold r.success old) t.pairs;
      })

  unfoldable pub update : MapOrder → Tracker → Matrix fl.F → Tracker
  update rt t m = update_entries (rt.visit _ 2 m) t

  -- What the status makes of a result.
  unfoldable pub hold : PairStatus → ProbeResult fl.F → ProbeResult fl.F
  hold pair_healthy r =
      if not r.success
      then record r {
        success = true;
        loss_rate = fl.lit 0 0;
        error = str "hysteresis: transient failure suppressed";
      }
      else r
  hold pair_degraded r =
      if r.success
      then record r {
        success = false;
        loss_rate = fl.lit 1 0;
        error = str "hysteresis: recovery pending";
      }
      else r

  -- The result that `Stabilize` stores for a pair.
  unfoldable pub stable_result : Option PairState → ProbeResult fl.F → ProbeResult fl.F
  stable_result none r = r
  stable_result (some s) r = if r.agent_error then r else hold s.status r

  unfoldable pub stabilize_entries :
      Tracker → List (Str × ProbeResult fl.F) → Matrix fl.F → Matrix fl.F
  stabilize_entries t [] stable = stable
  stabilize_entries t ((key, r) ∷ m) stable =
      stabilize_entries t m (put key (stable_result (get? key t.pairs) r) stable)

  unfoldable pub stabilize : MapOrder → Tracker → Matrix fl.F → Matrix fl.F
  stabilize rt t m = stabilize_entries t (rt.visit _ 3 m) []
