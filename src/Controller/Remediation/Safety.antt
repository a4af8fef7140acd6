-- ===== src/Controller/Remediation/Safety.antt =====
-- What a plan asks for, and what carrying it out does.
use cs331_t011_kubernetes_se.Common.{◌≡◌, Bool, true, false, not, ◌&&◌, arith, if◌then◌else◌}
use cs331_t011_kubernetes_se.Go.Floats.{Floats}
use cs331_t011_kubernetes_se.Contract.{Classification, healthy, unknown, no_data, other, Verdict}
use cs331_t011_kubernetes_se.Controller.Remediation.{
  no_action, alert_only, minimum_confidence, idle_plan, alert_plan, plan_fault, early_reason,
  plan_remediation, Log, execute_remediation,
}

-- A class that says where the data plane is at fault.
abbrev pub is_fault : Classification → Bool
is_fault healthy = false
is_fault unknown = false
is_fault no_data = false
is_fault (other s) = false
is_fault _ = true

module _ (fl : Floats) (v : Verdict fl.F) (enabled dry_run : Bool) where
  -- A plan alerts exactly when the class is a fault and the confidence is not below 0.8, and else
  -- does nothing; it never executes, names the verdict's suspects and keeps the dry-run flag.
  pub plan_remediation_lem :
      let plan = plan_remediation fl v enabled dry_run in
      (plan.action ≡ (
        if is_fault v.class && not (fl.flt v.confidence (minimum_confidence fl))
        then alert_only
        else no_action))
      × (plan.execute ≡ false)
      × (plan.targets ≡ v.suspect_nodes)
      × (plan.dry_run ≡ dry_run)
  unfolding plan_remediation plan_fault early_reason idle_plan alert_plan
  plan_remediation_lem = (ground arith, ground arith, ground arith, ground arith)

  -- Whatever the verdict and the settings, carrying out the plan leaves no trace.
  pub execute-plan_remediation :
      (log : Log) → execute_remediation (plan_remediation fl v enabled dry_run) log ≡ log
  unfolding execute_remediation
  execute-plan_remediation log = ground (arith, plan_remediation_lem.1)
