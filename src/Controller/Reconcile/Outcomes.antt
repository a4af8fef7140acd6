-- ===== src/Controller/Reconcile/Outcomes.antt =====
-- What a call of `Reconcile` returns, and what it leaves in the reconciler.
use cs331_t011_kubernetes_se.Common.{
  ℕ, zero, suc, ◌≡◌, refl, ◌∙◌, ◌⊎◌, inl, inr, Bool, true, false, not, Option, none, some, List,
  arith, if◌then◌else◌, ◌&&◌, ==_iff, ◌++◌,
}
use cs331_t011_kubernetes_se.Common.Int.{ℤ, pos, negsuc, is_nonpos}
use cs331_t011_kubernetes_se.Go.Text.{Str, str}
use cs331_t011_kubernetes_se.Go.Floats.{Floats}
use cs331_t011_kubernetes_se.Contract.{Endpoint, Matrix}
use cs331_t011_kubernetes_se.Analysis.Config.{Config, default_config}
use cs331_t011_kubernetes_se.Analysis.Classifier.{classify}
use cs331_t011_kubernetes_se.Analysis.Tracker.{Tracker, new_tracker, update}
use cs331_t011_kubernetes_se.Analysis.Tracker.Lookups.{thresholds-update_entries}
use cs331_t011_kubernetes_se.Controller.Stabilize.{stabilize_matrix}
use cs331_t011_kubernetes_se.Controller.Probe.{Formats}
use cs331_t011_kubernetes_se.Controller.Round.{NetworkHealthCheckSpec, run_probe_round}
use cs331_t011_kubernetes_se.Controller.Discovery.{
  Discovered, undiscovered, discovered, discover_agents,
}
use cs331_t011_kubernetes_se.Controller.Reconcile.{
  Reconciler, Surroundings, equal_int, with_defaults, is_tcp, Reconciled, refused, classified,
  config_for, same_thresholds, tracker_for, tracker_config_for, record_metrics, judge_round,
  probe_agents, reconcile,
}

module _ (fl : Floats) (formats : Formats) (w : Surroundings fl.F) where
  -- The call failed and changed nothing.
  abbrev pub Untouched : Reconciler fl.F → Reconciler fl.F → Reconciled fl → Type 0
  Untouched r r' out = (err : Str) × (out ≡ refused err) × (r' ≡ r)

  -- The call classified the stabilised matrix of a round over the agents found, and recorded
  -- matrix and verdict.
  abbrev pub Recorded :
      NetworkHealthCheckSpec → Reconciler fl.F → Reconciler fl.F → Reconciled fl → Type 0
  Recorded spec r r' out =
      (agents : List Endpoint) × (t : Tracker) × (discover_agents w.client r.namespace r.agents
        ≡ discovered agents)
      × (out ≡ classified r'.last_verdict r'.last_matrix)
      × (r'.agents ≡ agents)
      × (r'.tracker ≡ some t)
      × (r'.last_matrix
          ≡ stabilize_matrix fl w.orders t
              (run_probe_round fl formats w.net spec w.latest_first agents))
      × (r'.last_verdict ≡ classify w.orders fl r'.last_matrix (config_for fl spec))

  probe_agents-outcome :
      (spec : NetworkHealthCheckSpec) (r : Reconciler fl.F) (d : Discovered)
      → discover_agents w.client r.namespace r.agents ≡ d
      → let (r', out) = probe_agents fl formats w spec d r in
        Untouched r r' out ⊎ Recorded spec r r' out
  unfolding probe_agents judge_round record_metrics
  probe_agents-outcome spec r (undiscovered err) e = inl (err, refl, refl)
  probe_agents-outcome spec r (discovered agents) e =
      inr (agents, _, e, refl, refl, refl, refl, refl)

  -- A call that fails leaves the reconciler as it was; any other classifies the stabilised matrix
  -- of its own round and leaves just the matrix and the verdict that it returns.
  pub reconcile-outcome :
      (asked : NetworkHealthCheckSpec) (r : Reconciler fl.F)
      → let (r', out) = reconcile fl formats w asked r in
        Untouched r r' out ⊎ Recorded (with_defaults asked) r r' out
  unfolding reconcile
  reconcile-outcome asked r =
      elim (is_tcp (with_defaults asked).probe_type)
        as (λ b.
          let (r', out) =
            if not b
            then (
              r,
              refused (
                  str "unsupported probe type "
                  ++ formats.quote (with_defaults asked).probe_type
                  ++ str ": only TCP is implemented"),
            )
            else probe_agents fl formats w (with_defaults asked)
                (discover_agents w.client r.namespace r.agents) r in
          Untouched r r' out ⊎ Recorded (with_defaults asked) r r' out) [
            | true ↦ probe_agents-outcome (with_defaults asked) r _ refl
            | false ↦ inl (_, refl, refl)
          ]

-- The tracker, if any, has the thresholds of the configuration given.
abbrev pub Fits : {F : Type 0} → Option Tracker → Config F → Type 0
Fits none cfg = Unit
Fits (some t) cfg =
    (t.failure_threshold ≡ cfg.failure_threshold) × (t.success_threshold ≡ cfg.success_threshold)

equal_int_sound : (a b : ℤ) → equal_int a b ≡ true → a ≡ b
unfolding equal_int
equal_int_sound (pos m) (pos n) h = ground (arith, ==_iff m n)
equal_int_sound (negsuc m) (negsuc n) h = ground (arith, ==_iff m n)
equal_int_sound (pos m) (negsuc n) h = absurd (ground arith)
equal_int_sound (negsuc m) (pos n) h = absurd (ground arith)

module _ (fl : Floats) (formats : Formats) (w : Surroundings fl.F) where
  new_tracker-Fits :
      (spec : NetworkHealthCheckSpec)
      → Fits (some (new_tracker (config_for fl spec))) (config_for fl spec)
  unfolding new_tracker config_for default_config
  new_tracker-Fits spec = (
    kept spec.failure_threshold 3 (λ h. absurd (omega arith)),
    kept spec.success_threshold 2 (λ h. absurd (omega arith)),
  )
    where
      kept :
          (n : ℤ) (d : ℕ)
          → (d ≡ 0 → ⊥)
          → let m = if is_nonpos n then pos d else n in (if is_nonpos m then pos d else m) ≡ m
      kept (pos zero) zero some_d = absurd (some_d refl)
      kept (pos zero) (suc d) some_d = refl
      kept (pos (suc n)) d some_d = refl
      kept (negsuc n) zero some_d = absurd (some_d refl)
      kept (negsuc n) (suc d) some_d = refl

  tracker_for-Fits :
      (spec : NetworkHealthCheckSpec) (o : Option Tracker) (old : Config fl.F)
      → Fits o old
      → Fits (some (tracker_for fl (config_for fl spec) o old)) (config_for fl spec)
  unfolding tracker_for same_thresholds
  tracker_for-Fits spec none old fits = new_tracker-Fits spec
  tracker_for-Fits spec (some t) old fits =
      by_test (equal_int old.failure_threshold (config_for fl spec).failure_threshold)
        (equal_int old.success_threshold (config_for fl spec).success_threshold)
        (equal_int_sound _ _) (equal_int_sound _ _)
    where
      by_test :
          (b c : Bool)
          → (b ≡ true → old.failure_threshold ≡ (config_for fl spec).failure_threshold)
          → (c ≡ true → old.success_threshold ≡ (config_for fl spec).success_threshold)
          → Fits
              (some (if b && c then t else new_tracker (config_for fl spec)))
              (config_for fl spec)
      by_test true true f g = (fits.0 ∙ f refl, fits.1 ∙ g refl)
      by_test true false f g = new_tracker-Fits spec
      by_test false c f g = new_tracker-Fits spec

  kept-Fits :
      (spec : NetworkHealthCheckSpec) (o : Option Tracker) (old : Config fl.F)
      → Fits o old
      → Fits
          (some (tracker_for fl (config_for fl spec) o old))
          (tracker_config_for fl (config_for fl spec) o old)
  unfolding tracker_for tracker_config_for
  kept-Fits spec none old fits = new_tracker-Fits spec
  kept-Fits spec (some t) old fits = by_test (same_thresholds fl old (config_for fl spec))
    where
      by_test :
          (b : Bool)
          → Fits
              (some (if b then t else new_tracker (config_for fl spec)))
              (if b then old else config_for fl spec)
      by_test true = fits
      by_test false = new_tracker-Fits spec

  update-Fits :
      (t : Tracker) (m : Matrix fl.F) (cfg : Config fl.F)
      → Fits (some t) cfg
      → Fits (some (update fl w.orders t m)) cfg
  unfolding update
  update-Fits t m cfg (f, g) =
      let (f', g') = thresholds-update_entries fl (w.orders.visit _ 2 m) t in (f' ∙ f, g' ∙ g)

  probe_agents-Fits :
      (spec : NetworkHealthCheckSpec) (d : Discovered) (r : Reconciler fl.F)
      → Fits r.tracker r.tracker_config
      → let r' = (probe_agents fl formats w spec d r).0 in Fits r'.tracker r'.tracker_config
  unfolding probe_agents judge_round record_metrics
  probe_agents-Fits spec (undiscovered err) r fits = fits
  probe_agents-Fits spec (discovered agents) r fits =
      update-Fits (tracker_for fl (config_for fl spec) r.tracker r.tracker_config)
        (run_probe_round fl formats w.net spec w.latest_first agents)
        (tracker_config_for fl (config_for fl spec) r.tracker r.tracker_config)
        (kept-Fits spec r.tracker r.tracker_config fits)

  -- Every call keeps the tracker's thresholds those of the configuration that is stored with it.
  pub reconcile-Fits :
      (asked : NetworkHealthCheckSpec) (r : Reconciler fl.F)
      → Fits r.tracker r.tracker_config
      → let r' = (reconcile fl formats w asked r).0 in Fits r'.tracker r'.tracker_config
  unfolding reconcile
  reconcile-Fits asked r fits =
      elim (is_tcp (with_defaults asked).probe_type)
        as (λ b.
          let r' =
            (if not b
              then (
                r,
                refused (
                    str "unsupported probe type "
                    ++ formats.quote (with_defaults asked).probe_type
                    ++ str ": only TCP is implemented"),
              )
              else probe_agents fl formats w (with_defaults asked)
                  (discover_agents w.client r.namespace r.agents) r).0 in
          Fits r'.tracker r'.tracker_config) [
            | true ↦ probe_agents-Fits (with_defaults asked) _ r fits
            | false ↦ fits
          ]
