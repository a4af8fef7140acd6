-- ===== src/Controller/Sweep/Kept.antt =====
-- What every run of the controller keeps.
use mathlib.Core.Path.{subst}
use cs331_t011_kubernetes_se.Common.{
  ℕ, suc, ◌≡◌, sym, ap, ◌∙◌, inl, inr, Bool, true, false, not, Option, none, some, List, [], ◌∷◌,
  if◌then◌else◌,
}
use cs331_t011_kubernetes_se.Go.Text.{Str}
use cs331_t011_kubernetes_se.Go.Floats.{Floats}
use cs331_t011_kubernetes_se.Controller.Probe.{Formats}
use cs331_t011_kubernetes_se.Controller.Round.{NetworkHealthCheckSpec}
use cs331_t011_kubernetes_se.Controller.Reconcile.{Reconciler, reconcile}
use cs331_t011_kubernetes_se.Controller.Reconcile.Outcomes.{Fits, reconcile-Fits}
use cs331_t011_kubernetes_se.Controller.Polling.{
  Field, mistyped, missing, present, network_health_check_spec_from_resource, should_run,
}
use cs331_t011_kubernetes_se.Controller.Remediation.{Log}
use cs331_t011_kubernetes_se.Controller.Resource.{
  Fetched, unfetched, fetched, Api, Operator, Call, reconcile_fetched, reconcile_named,
  reconcile_network_health_check,
}
use cs331_t011_kubernetes_se.Controller.Resource.Outcomes.{
  reconcile_network_health_check-outcome, reconciler-publish,
}
use cs331_t011_kubernetes_se.Controller.Sweep.{
  Item, Listing, unlisted, listed, SweepError, Clocks, Turn, visit_error, visit_due, visit_read,
  visit_item, reconcile_all, log_round, Wake, tick, cancelled, run_loop, run,
}
use cs331_t011_kubernetes_se.Controller.Sweep.Errors.{visited, sweep_items_lem}

module _ {C : Type 0} (fl : Floats) (formats : Formats) (api : Api C fl.F) (clocks : Clocks) where
  -- What each reconciliation of a resource keeps, every run keeps.
  module _ (P : Operator C fl.F → Type 1)
      (keeps : (call : Call fl.F) (name : Str) (spec : NetworkHealthCheckSpec)
          (op : Operator C fl.F)
        → P op
        → P (reconcile_network_health_check fl formats (some api) call name spec op).0) where
    visit_due-keeps :
        (turn : Turn clocks fl.F) (name : Str) (spec : NetworkHealthCheckSpec) (last : Str)
        (op : Operator C fl.F)
        → P op
        → P (visit_due fl formats api clocks turn name spec last op).0
    unfolding visit_due
    visit_due-keeps turn name spec last op p =
        by_test
          (not (should_run clocks.parse_duration clocks.parse_time turn.since last spec.interval))
      where
        by_test :
            (b : Bool)
            → let after : Operator C fl.F × Option SweepError = if b then (op, none) else (
              (reconcile_network_health_check fl formats (some api) turn.call name spec op).0,
              visit_error fl formats api clocks name
                  (reconcile_network_health_check fl formats (some api) turn.call name spec op).1,
            ) in
              P after.0
        by_test true = p
        by_test false = keeps turn.call name spec op p

    visit_read-keeps :
        (turn : Turn clocks fl.F) (name : Str) (spec : Option NetworkHealthCheckSpec)
        (last : Field Str) (op : Operator C fl.F)
        → P op
        → P (visit_read fl formats api clocks turn name spec last op).0
    unfolding visit_read
    visit_read-keeps turn name none last op p = p
    visit_read-keeps turn name (some spec) mistyped op p = p
    visit_read-keeps turn name (some spec) missing op p = visit_due-keeps turn name spec [] op p
    visit_read-keeps turn name (some spec) (present last) op p =
        visit_due-keeps turn name spec last op p

    visited-keeps :
        (turns : ℕ → Turn clocks fl.F) (i : ℕ) (items : List Item) (op : Operator C fl.F)
        → P op
        → P (visited fl formats api clocks turns i items op)
    unfolding visit_item
    visited-keeps turns i [] op p = p
    visited-keeps turns i (item ∷ items) op p = visited-keeps turns (suc i) items _ (
        visit_read-keeps (turns i) item.name
          (network_health_check_spec_from_resource clocks.parse_duration item.fields)
          item.last_probe_time op p)

    reconcile_all-keeps :
        (turns : ℕ → Turn clocks fl.F) (listing : Listing) (op : Operator C fl.F)
        → P op
        → P (reconcile_all fl formats api clocks turns listing op).0
    unfolding reconcile_all
    reconcile_all-keeps turns (unlisted err) op p = p
    reconcile_all-keeps turns (listed items) op p =
        subst P (sym (ap (λ q. q.0) (sweep_items_lem fl formats api clocks turns 0 items op none)))
          (visited-keeps turns 0 items op p)

    run_loop-keeps :
        (done : Str) (events : List (Wake clocks fl.F)) (log : List SweepError)
        (round : Operator C fl.F × Option SweepError)
        → P round.0
        → P (run_loop fl formats api clocks done events (log_round log round)).operator
    unfolding run_loop log_round
    run_loop-keeps done [] log (op, none) p = p
    run_loop-keeps done [] log (op, some err) p = p
    run_loop-keeps done (cancelled ∷ events) log (op, none) p = p
    run_loop-keeps done (cancelled ∷ events) log (op, some err) p = p
    run_loop-keeps done (tick listing turns ∷ events) log (op, none) p =
        run_loop-keeps done events _ _ (reconcile_all-keeps turns listing op p)
    run_loop-keeps done (tick listing turns ∷ events) log (op, some err) p =
        run_loop-keeps done events _ _ (reconcile_all-keeps turns listing op p)

    pub run-keeps :
        (done : Str) (listing : Listing) (turns : ℕ → Turn clocks fl.F)
        (events : List (Wake clocks fl.F)) (op : Operator C fl.F)
        → P op
        → P (run fl formats clocks (some api) done listing turns events op).operator
    unfolding run
    run-keeps done listing turns events op p =
        run_loop-keeps done events [] _ (reconcile_all-keeps turns listing op p)

module _ {C : Type 0} (fl : Floats) (formats : Formats) (api : Api C fl.F) where
  pub Fits-reconciler :
      (call : Call fl.F) (name : Str) (spec : NetworkHealthCheckSpec) (op : Operator C fl.F)
      → Fits op.reconciler.tracker op.reconciler.tracker_config
      → let r =
          (reconcile_network_health_check fl formats (some api) call name spec op).0.reconciler in
        Fits r.tracker r.tracker_config
  unfolding reconcile_network_health_check reconcile_named reconcile_fetched
  Fits-reconciler call name spec op fits = by_answer (api.get name op.cluster)
    where
      by_answer :
          (f : Fetched)
          → let r = (reconcile_fetched fl formats api call name spec f op).0.reconciler in
            Fits r.tracker r.tracker_config
      by_answer (unfetched err) = fits
      by_answer (fetched resource) =
          let (r, out) = reconcile fl formats call.surroundings spec op.reconciler in
          subst (λ (x : Reconciler fl.F). Fits x.tracker x.tracker_config)
            (sym (
              reconciler-publish fl formats api call name spec op resource
                (record op { reconciler = r }) out))
            (reconcile-Fits fl formats call.surroundings spec op.reconciler fits)

  pub log_reconciler :
      (l : Log) (call : Call fl.F) (name : Str) (spec : NetworkHealthCheckSpec)
      (op : Operator C fl.F)
      → op.log ≡ l
      → (reconcile_network_health_check fl formats (some api) call name spec op).0.log ≡ l
  log_reconciler l call name spec op same =
      elim (reconcile_network_health_check-outcome fl formats api call name spec op).1 [
        | inl (err, ends, untouched) ↦ ap (λ o. o.log) untouched ∙ same
        | inr (resource, read, recorded, stored, kept, ends) ↦ kept ∙ same
      ]
