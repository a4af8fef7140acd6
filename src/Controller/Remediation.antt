-- ===== src/Controller/Remediation.antt =====
-- code/internal/controller/remediation.go: which action a verdict calls for.
pub mod Safety
use cs331_t011_kubernetes_se.Common.{
  ◌≡◌, Bool, true, false, not, ◌||◌, Option, none, some, List, [], ◌∷◌, ◌++◌, if◌then◌else◌,
}
use cs331_t011_kubernetes_se.Go.Text.{Str, str}
use cs331_t011_kubernetes_se.Go.Floats.{Floats}
use cs331_t011_kubernetes_se.Contract.{
  Classification, healthy, pair_local_failure, node_ingress_failure, node_egress_failure,
  node_isolated, cluster_partition, policy_scoped, unknown, no_data, degraded, other, Verdict,
}

pub data RemediationAction : Type 0 where
  no_action restart_affected_pair restart_node_ingress restart_node_egress : RemediationAction
  restart_suspect_node alert_only : RemediationAction

pub record RemediationPlan : Type 0 where
  pub action : RemediationAction
  pub targets : List Str
  pub dry_run : Bool
  pub execute : Bool
  pub reason : Str

module _ (fl : Floats) where
  unfoldable pub minimum_confidence : fl.F
  minimum_confidence = fl.lit 8 1

  -- The plan at the top of the function.
  unfoldable pub idle_plan : Verdict fl.F → Bool → RemediationPlan
  idle_plan verdict dry_run = record {
    action = no_action;
    targets = verdict.suspect_nodes;
    dry_run = dry_run;
    execute = false;
    reason = [];
  }

  -- The second `switch` and what follows it: a fault is alerted on, any other class refused.
  unfoldable pub alert_plan : Bool → RemediationPlan → RemediationPlan
  alert_plan enabled plan =
      let reason = str "network fault requires investigation; automatic remediation is disabled" in
      record plan {
        action = alert_only;
        execute = false;
        reason = if not enabled then reason ++ str "; remediation disabled" else reason;
      }

  unfoldable pub plan_fault : Classification → Bool → RemediationPlan → RemediationPlan
  plan_fault pair_local_failure enabled plan = alert_plan enabled plan
  plan_fault node_ingress_failure enabled plan = alert_plan enabled plan
  plan_fault node_egress_failure enabled plan = alert_plan enabled plan
  plan_fault node_isolated enabled plan = alert_plan enabled plan
  plan_fault cluster_partition enabled plan = alert_plan enabled plan
  plan_fault policy_scoped enabled plan = alert_plan enabled plan
  plan_fault degraded enabled plan = alert_plan enabled plan
  plan_fault _ enabled plan = record plan {
    reason = str "unrecognized verdict; remediation refused";
  }

  -- The first `switch`: `none` where no case returns.
  unfoldable pub early_reason : Classification → Option Str
  early_reason healthy = some (str "healthy verdict; no remediation required")
  early_reason unknown = some (str "no conclusive data-plane evidence; remediation refused")
  early_reason no_data = some (str "no conclusive data-plane evidence; remediation refused")
  early_reason _ = none

  unfoldable pub plan_remediation : Verdict fl.F → Bool → Bool → RemediationPlan
  plan_remediation verdict enabled dry_run =
      let plan = idle_plan verdict dry_run in
      elim (early_reason verdict.class) [
        | some reason ↦ record plan { reason = reason }
        | none ↦
            if fl.flt verdict.confidence minimum_confidence
            then record plan { reason = str "low-confidence verdict; remediation refused" }
            else plan_fault verdict.class enabled plan
      ]

-- What the executor leaves in the log: the action and targets of each request.
abbrev pub Log : Type 0
Log = List (RemediationAction × List Str)

unfoldable pub is_passive : RemediationAction → Bool
is_passive no_action = true
is_passive alert_only = true
is_passive _ = false

-- `ExecuteRemediation`, which always returns nil: the log after it.
unfoldable pub execute_remediation : RemediationPlan → Log → Log
execute_remediation plan log =
    if not plan.execute || is_passive plan.action then log else (plan.action, plan.targets) ∷ log
