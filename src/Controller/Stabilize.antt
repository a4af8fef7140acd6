-- ===== src/Controller/Stabilize.antt =====
-- code/internal/controller/controller.go, `stabilizeMatrix`, beside the tracker's `Stabilize`.
pub mod Agreement
pub mod Unchanged
use cs331_t011_kubernetes_se.Common.{
  Bool, true, false, not, Option, none, some, List, [], ◌∷◌, if◌then◌else◌,
}
use cs331_t011_kubernetes_se.Go.Text.{Str, str}
use cs331_t011_kubernetes_se.Go.Maps.{MapOrder, put}
use cs331_t011_kubernetes_se.Go.Floats.{Floats}
use cs331_t011_kubernetes_se.Contract.{ProbeResult, Matrix}
use cs331_t011_kubernetes_se.Analysis.Tracker.{
  PairStatus, pair_healthy, pair_degraded, PairState, Tracker, get_state,
}

module _ (fl : Floats) where
  -- The switch on the status.
  unfoldable pub switch_status : PairStatus → ProbeResult fl.F → ProbeResult fl.F
  switch_status pair_healthy r =
      if not r.success
      then record r {
        success = true;
        loss_rate = fl.lit 0 0;
        error = str "hysteresis: transient failure suppressed";
      }
      else r
  switch_status pair_degraded r =
      if r.success
      then record r {
        success = false;
        loss_rate = fl.lit 1 0;
        error = str "hysteresis: recovery pending";
      }
      else r

  -- The result stored for a pair: unlike the tracker's, it rewrites agent errors too.
  unfoldable pub held_result : Option PairState → ProbeResult fl.F → ProbeResult fl.F
  held_result none r = r
  held_result (some s) r = switch_status s.status r

  unfoldable pub stabilize_rows :
      Tracker → List (Str × ProbeResult fl.F) → Matrix fl.F → Matrix fl.F
  stabilize_rows t [] stable = stable
  stabilize_rows t ((key, r) ∷ m) stable =
      stabilize_rows t m (put key (held_result (get_state t key) r) stable)

  unfoldable pub stabilize_matrix : MapOrder → Tracker → Matrix fl.F → Matrix fl.F
  stabilize_matrix rt t m = stabilize_rows t (rt.visit _ 4 m) []
