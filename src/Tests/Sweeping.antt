-- ===== src/Tests/Sweeping.antt =====
-- The controller's loop over two resources on a cluster that counts the writes of a status.
use mathlib.Core.Path.{◌≡◌}
use cs331_t011_kubernetes_se.Common.{
  ℕ, suc, ◌≤◌, none, some, List, [], ◌∷◌, any, length, if◌then◌else◌,
}
use cs331_t011_kubernetes_se.Common.Int.{pos}
use cs331_t011_kubernetes_se.Go.Text.{str}
use cs331_t011_kubernetes_se.Controller.Polling.{mistyped, present}
use cs331_t011_kubernetes_se.Controller.Resource.{fetched, Api, Operator, Call}
use cs331_t011_kubernetes_se.Controller.Reconcile.Outcomes.{Fits}
use cs331_t011_kubernetes_se.Controller.Sweep.{
  Item, listed, Clocks, Turn, Wake, tick, cancelled, is_end, reconcile_all, run,
}
use cs331_t011_kubernetes_se.Controller.Sweep.Ended.{HoldsRound, ticks, run-outcome}
use cs331_t011_kubernetes_se.Controller.Sweep.Errors.{visited, errors, first_of, reconcile_all_lem}
use cs331_t011_kubernetes_se.Tests.Fractions.{Fraction, fractions}
use cs331_t011_kubernetes_se.Tests.Reconciling.{formats, surroundings, fresh}
use cs331_t011_kubernetes_se.Tests.Reporting.{resource, fields, thirty_seconds}

abbrev pub api : Api ℕ Fraction
api = record {
  get = λ name writes. fetched resource;
  update_status = λ current status writes. (suc writes, none);
  retry_on_conflict = λ attempt writes. attempt writes;
}

abbrev call : Call Fraction
call = record {
  surroundings = surroundings;
  now = str "2026-02-02T00:00:00Z";
  later = str "2026-02-02T00:00:01Z";
}

abbrev pub operator : Operator ℕ Fraction
operator = record { reconciler = fresh; cluster = 0; log = [] }

-- Every time is a minute past.
abbrev pub clocks : Clocks
clocks = record { T = ℕ; parse_duration = thirty_seconds; parse_time = λ s. some 0 }

abbrev pub turn : Turn clocks Fraction
turn = record { call = call; since = λ t. pos 60_000_000_000 }

-- The first resource has a last time that is no text, the second is sound.
abbrev pub items : List Item
items =
    record { name = str "broken"; fields = fields; last_probe_time = mistyped }
    ∷ record { name = str "mesh"; fields = fields; last_probe_time = present (str "earlier") }
    ∷ []

reconcile_all_lem_example :
    reconcile_all fractions formats api clocks (λ i. turn) (listed items) operator ≡ (
      visited fractions formats api clocks (λ i. turn) 0 items operator,
      first_of fractions formats api clocks
          (λ i. turn)
          (errors fractions formats api clocks (λ i. turn) 0 items operator),
    )
reconcile_all_lem_example =
    reconcile_all_lem fractions formats api clocks (λ i. turn) items operator

-- Two rounds, then the end, and a tick that nobody hears.
abbrev pub events : List (Wake clocks Fraction)
events = tick (listed items) (λ i. turn) ∷ cancelled ∷ tick (listed items) (λ i. turn) ∷ []

abbrev pub context_canceled : List ℕ
context_canceled = str "context canceled"

run-outcome_example :
    let ran =
      run fractions formats clocks
        (some api)
        context_canceled
        (listed items)
        (λ i. turn)
        events
        operator in
    (run fractions formats clocks none context_canceled (listed items) (λ i. turn) events operator
      ≡ record {
        operator = operator;
        logged = [];
        returned = some (str "reconciler with dynamic Kubernetes client is required");
      })
    × (ran.returned ≡ (if any is_end events then some context_canceled else none))
    × (length ran.logged ≤ suc (ticks events))
    × (ran.operator.log ≡ operator.log)
    × Fits ran.operator.reconciler.tracker ran.operator.reconciler.tracker_config
    × HoldsRound fractions formats operator.reconciler ran.operator.reconciler
run-outcome_example =
    run-outcome fractions formats clocks context_canceled api (listed items) (λ i. turn) events
      operator tt
