-- ===== src/Controller/Sweep/Ended.antt =====
-- What a run of the controller returns and logs, and what it leaves in the operator.
use mathlib.Core.Path.{subst}
use cs331_t011_kubernetes_se.Common.{
  ℕ, suc, ◌+◌, ◌≤◌, ◌≡◌, refl, sym, ◌⊎◌, inl, inr, Option, none, some, List, [], ◌∷◌, any, length,
  arith, if◌then◌else◌,
}
use cs331_t011_kubernetes_se.Go.Text.{Str, str}
use cs331_t011_kubernetes_se.Go.Floats.{Floats}
use cs331_t011_kubernetes_se.Controller.Probe.{Formats}
use cs331_t011_kubernetes_se.Controller.Round.{NetworkHealthCheckSpec}
use cs331_t011_kubernetes_se.Controller.Reconcile.{
  Reconciler, Surroundings, classified, with_defaults,
}
use cs331_t011_kubernetes_se.Controller.Reconcile.Outcomes.{Fits, Recorded}
use cs331_t011_kubernetes_se.Controller.Resource.{
  Api, Operator, Call, reconcile_network_health_check,
}
use cs331_t011_kubernetes_se.Controller.Resource.Outcomes.{reconcile_network_health_check-outcome}
use cs331_t011_kubernetes_se.Controller.Sweep.{
  Listing, SweepError, Clocks, Turn, Wake, tick, cancelled, is_end, log_round, reconcile_all,
  run_loop, run,
}
use cs331_t011_kubernetes_se.Controller.Sweep.Kept.{Fits-reconciler, log_reconciler, run-keeps}

module _ (fl : Floats) (formats : Formats) where
  -- The reconciler is the one given, or some round has recorded what it found in it: the agents,
  -- the tracker, the matrix that the tracker smoothed out and the verdict on that.
  abbrev pub HoldsRound : Reconciler fl.F → Reconciler fl.F → Type 1
  HoldsRound start r =
      (r ≡ start)
      ⊎ ((w : Surroundings fl.F) × (asked : NetworkHealthCheckSpec) × (before : Reconciler fl.F)
          × Recorded fl formats w (with_defaults asked) before r
              (classified r.last_verdict r.last_matrix))

module _ {C : Type 0} (fl : Floats) (formats : Formats) where
  -- What an operator keeps of the one it was.
  abbrev Keeps : Operator C fl.F → Operator C fl.F → Type 1
  Keeps start op =
      (op.log ≡ start.log)
      × Fits op.reconciler.tracker op.reconciler.tracker_config
      × HoldsRound fl formats start.reconciler op.reconciler

  module _ (api : Api C fl.F) (call : Call fl.F) (name : Str) (spec : NetworkHealthCheckSpec)
      (start op : Operator C fl.F) where
    HoldsRound-reconciler :
        HoldsRound fl formats start.reconciler op.reconciler
        → let op' = (reconcile_network_health_check fl formats (some api) call name spec op).0 in
          HoldsRound fl formats start.reconciler op'.reconciler
    HoldsRound-reconciler held =
        elim (reconcile_network_health_check-outcome fl formats api call name spec op).1 [
          | inl (err, ends, untouched) ↦
              subst (λ (o : Operator C fl.F). HoldsRound fl formats start.reconciler o.reconciler)
                (sym untouched) held
          | inr (resource, read, recorded, stored, kept, ends) ↦
              inr (call.surroundings, spec, op.reconciler, recorded)
        ]

    reconcile-Keeps :
        Keeps start op
        → Keeps start (reconcile_network_health_check fl formats (some api) call name spec op).0
    reconcile-Keeps (log, fits, held) = (
      log_reconciler fl formats api start.log call name spec op log,
      Fits-reconciler fl formats api call name spec op fits,
      HoldsRound-reconciler held,
    )

module _ {F : Type 0} {clocks : Clocks} where
  -- The rounds until the context ends.
  abbrev pub ticks : List (Wake clocks F) → ℕ
  ticks [] = 0
  ticks (tick listing turns ∷ events) = suc (ticks events)
  ticks (cancelled ∷ events) = 0

module _ {C : Type 0} (fl : Floats) (formats : Formats) (clocks : Clocks) (done : Str) where
  run_loop-ends :
      (api : Api C fl.F) (events : List (Wake clocks fl.F)) (log : List SweepError)
      (round : Operator C fl.F × Option SweepError)
      → let ran = run_loop fl formats api clocks done events (log_round log round) in
        (ran.returned ≡ (if any is_end events then some done else none))
        × (length ran.logged ≤ suc (length log + ticks events))
  unfolding run_loop log_round
  run_loop-ends api [] log (op, none) = (refl, omega arith)
  run_loop-ends api [] log (op, some err) = (refl, omega arith)
  run_loop-ends api (cancelled ∷ events) log (op, none) = (refl, omega arith)
  run_loop-ends api (cancelled ∷ events) log (op, some err) = (refl, omega arith)
  run_loop-ends api (tick listing turns ∷ events) log (op, none) =
      let (ends, few) =
        run_loop-ends api events log (reconcile_all fl formats api clocks turns listing op) in
      (ends, omega arith)
  run_loop-ends api (tick listing turns ∷ events) log (op, some err) =
      let (ends, few) =
        run_loop-ends api events (err ∷ log)
          (reconcile_all fl formats api clocks turns listing op) in
      (ends, omega arith)

  -- `Run` returns just when the context ends.
  pub run-returns :
      (api : Api C fl.F) (listing : Listing) (turns : ℕ → Turn clocks fl.F)
      (events : List (Wake clocks fl.F)) (op : Operator C fl.F)
      → (run fl formats clocks (some api) done listing turns events op).returned
        ≡ (if any is_end events then some done else none)
  unfolding run
  run-returns api listing turns events op =
      (run_loop-ends api events [] (reconcile_all fl formats api clocks turns listing op)).0

  -- Without a dynamic client `Run` returns an error and changes nothing. With one, and from an
  -- operator whose tracker, if any, has the thresholds that are stored with it, it returns just
  -- when the context ends, with its error, whatever errors the rounds have; it logs at most one
  -- error for each of its rounds; and at any time the log of the remediation is as it was, the
  -- tracker has the thresholds that are stored with it, and the reconciler is as it was or holds
  -- the agents, the tracker, the matrix and the verdict of one and the same round.
  pub run-outcome :
      (api : Api C fl.F) (listing : Listing) (turns : ℕ → Turn clocks fl.F)
      (events : List (Wake clocks fl.F)) (op : Operator C fl.F)
      → Fits op.reconciler.tracker op.reconciler.tracker_config
      → let ran = run fl formats clocks (some api) done listing turns events op in
        (run fl formats clocks none done listing turns events op ≡ record {
          operator = op;
          logged = [];
          returned = some (str "reconciler with dynamic Kubernetes client is required");
        })
        × (ran.returned ≡ (if any is_end events then some done else none))
        × (length ran.logged ≤ suc (ticks events))
        × (ran.operator.log ≡ op.log)
        × Fits ran.operator.reconciler.tracker ran.operator.reconciler.tracker_config
        × HoldsRound fl formats op.reconciler ran.operator.reconciler
  unfolding run
  run-outcome api listing turns events op fits =
      let (ends, few) =
        run_loop-ends api events [] (reconcile_all fl formats api clocks turns listing op) in
      let (log, still_fits, held) =
        run-keeps fl formats api clocks (Keeps fl formats op)
          (λ call name spec o. reconcile-Keeps fl formats api call name spec op o) done listing
          turns events op (refl, fits, inl refl) in
      (refl, ends, omega arith, log, still_fits, held)
