-- ===== src/Controller/Sweep.antt =====
-- code/internal/controller/networkhealthcheck_controller.go, `ReconcileAll` and `Run`: every
-- resource in its turn, on every tick.
pub mod Errors
pub mod Kept
pub mod Ended
use cs331_t011_kubernetes_se.Common.{
  ℕ, suc, Bool, true, false, not, Option, none, some, List, [], ◌∷◌, if◌then◌else◌,
}
use cs331_t011_kubernetes_se.Common.Int.{ℤ, pos, is_nonpos}
use cs331_t011_kubernetes_se.Go.Text.{Str, str}
use cs331_t011_kubernetes_se.Go.Floats.{Floats}
use cs331_t011_kubernetes_se.Controller.Probe.{Formats}
use cs331_t011_kubernetes_se.Controller.Round.{NetworkHealthCheckSpec}
use cs331_t011_kubernetes_se.Controller.Reconcile.{Reconciled, refused, classified}
use cs331_t011_kubernetes_se.Controller.Polling.{
  Field, mistyped, missing, present, Fields, network_health_check_spec_from_resource, should_run,
}
use cs331_t011_kubernetes_se.Controller.Resource.{
  Api, Operator, Call, reconcile_network_health_check,
}

-- An item of the list: its name, its specification and its `status.lastProbeTime`.
pub record Item : Type 0 where
  pub name : Str
  pub fields : Fields
  pub last_probe_time : Field Str

pub data Listing : Type 0 where
  unlisted : Str → Listing
  listed : List Item → Listing

-- The errors, by their case; the texts of the last two begin with the resource's name.
pub data SweepError : Type 0 where
  no_list : Str → SweepError
  bad_spec : Str → SweepError
  bad_last_probe_time : Str → SweepError
  unreconciled : Str → Str → SweepError

-- How the packages read durations and times.
pub record Clocks : Type 1 where
  pub T : Type 0
  pub parse_duration : Str → Option ℤ
  pub parse_time : Str → Option T

-- What the sweep meets at one item: the calls of `Reconcile` and of `time.Since`.
pub record Turn (clocks : Clocks) (F : Type 0) : Type 1 where
  pub call : Call F
  pub since : clocks.T → ℤ

-- `if firstErr == nil { firstErr = err }`
unfoldable pub keep_first {ℓ} : {A : Type ℓ} → Option A → Option A → Option A
keep_first (some first) err = some first
keep_first none err = err

-- What wakes the loop of `Run`: the ticker, with the list that the server then gives, or the end
-- of the context.
pub data Wake (clocks : Clocks) (F : Type 0) : Type 1 where
  tick : Listing → (ℕ → Turn clocks F) → Wake clocks F
  cancelled : Wake clocks F

-- Does the event end the loop?
abbrev pub is_end : {clocks : Clocks} {F : Type 0} → Wake clocks F → Bool
is_end (tick listing turns) = false
is_end cancelled = true

-- `Run` so far: the operator, the errors of rounds that it logged, the latest first, and the error
-- that it returned, if it has.
pub record Ran (C F : Type 0) : Type 0 where
  pub operator : Operator C F
  pub logged : List SweepError
  pub returned : Option Str

-- After a round that the loop began with a log: an error is logged.
unfoldable pub log_round :
    {C F : Type 0} → List SweepError → Operator C F × Option SweepError → Ran C F
log_round log (op, none) = record { operator = op; logged = log; returned = none }
log_round log (op, some err) = record { operator = op; logged = err ∷ log; returned = none }

module _ {C : Type 0} (fl : Floats) (formats : Formats) (api : Api C fl.F) (clocks : Clocks) where
  unfoldable pub visit_error : Str → Reconciled fl → Option SweepError
  visit_error name (refused err) = some (unreconciled name err)
  visit_error name (classified v m) = none

  module _ (turn : Turn clocks fl.F) where
    -- From the test of the time on.
    unfoldable pub visit_due :
        Str → NetworkHealthCheckSpec → Str → Operator C fl.F → Operator C fl.F × Option SweepError
    visit_due name spec last op =
        if not (should_run clocks.parse_duration clocks.parse_time turn.since last spec.interval)
        then (op, none)
        else let (op', out) =
            reconcile_network_health_check fl formats (some api) turn.call name spec op in
          (op', visit_error name out)

    -- From the specification on; a missing time is the empty text.
    unfoldable pub visit_read :
        Str
        → Option NetworkHealthCheckSpec
        → Field Str
        → Operator C fl.F
        → Operator C fl.F × Option SweepError
    visit_read name none last op = (op, some (bad_spec name))
    visit_read name (some spec) mistyped op = (op, some (bad_last_probe_time name))
    visit_read name (some spec) missing op = visit_due name spec [] op
    visit_read name (some spec) (present last) op = visit_due name spec last op

    -- The body of the loop: the operator after it, and the error, if any.
    unfoldable pub visit_item : Item → Operator C fl.F → Operator C fl.F × Option SweepError
    visit_item item op =
        visit_read item.name
          (network_health_check_spec_from_resource clocks.parse_duration item.fields)
          item.last_probe_time op

  module _ (turns : ℕ → Turn clocks fl.F) where
    -- The loop from item `i`, with the first error so far.
    unfoldable pub sweep_items :
        ℕ → List Item → Operator C fl.F → Option SweepError → Operator C fl.F × Option SweepError
    sweep_items i [] op first = (op, first)
    sweep_items i (item ∷ items) op first =
        let (op', err) = visit_item (turns i) item op in
        sweep_items (suc i) items op' (keep_first first err)

    -- `ReconcileAll`
    unfoldable pub reconcile_all : Listing → Operator C fl.F → Operator C fl.F × Option SweepError
    reconcile_all (unlisted err) op = (op, some (no_list err))
    reconcile_all (listed items) op = sweep_items 0 items op none

  -- The loop of `Run`: the error of the context ends it, that of a round is only logged.
  unfoldable pub run_loop : Str → List (Wake clocks fl.F) → Ran C fl.F → Ran C fl.F
  run_loop done [] ran = ran
  run_loop done (cancelled ∷ events) ran = record ran { returned = some done }
  run_loop done (tick listing turns ∷ events) ran =
      run_loop done events (log_round ran.logged (reconcile_all turns listing ran.operator))

module _ {C : Type 0} (fl : Floats) (formats : Formats) (clocks : Clocks) where
  -- `Run`, with the dynamic client, if there is a reconciler with one: a first round, and then the
  -- loop.
  unfoldable pub run :
      (client : Option (Api C fl.F)) (done : Str)
      → Listing
      → (ℕ → Turn clocks fl.F)
      → List (Wake clocks fl.F)
      → Operator C fl.F
      → Ran C fl.F
  run none done listing turns events op = record {
    operator = op;
    logged = [];
    returned = some (str "reconciler with dynamic Kubernetes client is required");
  }
  run (some api) done listing turns events op =
      run_loop fl formats api clocks done events
        (log_round [] (reconcile_all fl formats api clocks turns listing op))

-- The ticker's interval, in nanoseconds.
unfoldable pub poll_interval : ℤ → ℤ
poll_interval interval = if is_nonpos interval then pos 15_000_000_000 else interval
