-- ===== src/Controller/Resource.antt =====
-- code/internal/controller/controller.go, `ReconcileNetworkHealthCheck`: one resource, from its
-- reading to its status and the remediation.
pub mod Outcomes
use cs331_t011_kubernetes_se.Common.{Option, none, some}
use cs331_t011_kubernetes_se.Go.Text.{Str, str}
use cs331_t011_kubernetes_se.Go.Floats.{Floats}
use cs331_t011_kubernetes_se.Contract.{Matrix, Verdict}
use cs331_t011_kubernetes_se.Controller.Probe.{Formats}
use cs331_t011_kubernetes_se.Controller.Round.{NetworkHealthCheckSpec}
use cs331_t011_kubernetes_se.Controller.Reconcile.{
  Reconciler, Surroundings, Reconciled, refused, classified, reconcile,
}
use cs331_t011_kubernetes_se.Controller.Remediation.{Log, plan_remediation, execute_remediation}
use cs331_t011_kubernetes_se.Controller.Status.{Resource, Status, build_network_health_check_status}

-- The answer to a `Get`.
pub data Fetched : Type 0 where
  unfetched : Str → Fetched
  fetched : Resource → Fetched

-- The API server and the package `retry`, over a state of the cluster: `UpdateStatus` on an object
-- that was read, and `RetryOnConflict`, which calls what it is given until that meets no conflict.
-- An error is `some`.
pub record Api (C F : Type 0) : Type 0 where
  pub get : Str → C → Fetched
  pub update_status : Resource → Status F → C → C × Option Str
  pub retry_on_conflict : (C → C × Option Str) → C → C × Option Str

-- What a call can change: the reconciler, the cluster and the log of the remediation.
pub record Operator (C F : Type 0) : Type 0 where
  pub reconciler : Reconciler F
  pub cluster : C
  pub log : Log

-- One call's meeting with the world: that of `Reconcile`, and the two readings of the clock.
pub record Call (F : Type 0) : Type 1 where
  pub surroundings : Surroundings F
  pub now : Str
  pub later : Str

module _ {C : Type 0} (fl : Floats) (formats : Formats) (api : Api C fl.F) where
  -- The function that is retried: read the object again, and write the status into it.
  unfoldable pub write_fetched : Status fl.F → Fetched → C → C × Option Str
  write_fetched status (unfetched err) c = (c, some err)
  write_fetched status (fetched current) c = api.update_status current status c

  unfoldable pub write_status : Str → Status fl.F → C → C × Option Str
  write_status name status c = write_fetched status (api.get name c) c

  -- From the result of the write on.
  unfoldable pub remediate :
      NetworkHealthCheckSpec
      → Verdict fl.F
      → Matrix fl.F
      → Operator C fl.F
      → Option Str
      → Operator C fl.F × Reconciled fl
  remediate spec verdict matrix op (some err) = (op, refused err)
  remediate spec verdict matrix op none = (
    record op {
      log =
          execute_remediation
            (plan_remediation fl verdict spec.remediation_enabled spec.remediation_dry_run) op.log;
    },
    classified verdict matrix,
  )

  module _ (call : Call fl.F) where
    -- From the result of `Reconcile` on, with the reconciler that it left.
    unfoldable pub publish :
        Str
        → NetworkHealthCheckSpec
        → Resource
        → Operator C fl.F
        → Reconciled fl
        → Operator C fl.F × Reconciled fl
    publish name spec resource op (refused err) = (op, refused err)
    publish name spec resource op (classified verdict matrix) =
        let status =
          build_network_health_check_status fl call.surroundings.orders resource call.now call.later
            verdict matrix in
        let (c, err) = api.retry_on_conflict (write_status name status) op.cluster in
        remediate spec verdict matrix (record op { cluster = c }) err

    unfoldable pub reconcile_fetched :
        Str → NetworkHealthCheckSpec → Fetched → Operator C fl.F → Operator C fl.F × Reconciled fl
    reconcile_fetched name spec (unfetched err) op = (op, refused err)
    reconcile_fetched name spec (fetched resource) op =
        let (r, out) = reconcile fl formats call.surroundings spec op.reconciler in
        publish name spec resource (record op { reconciler = r }) out

    -- From the reading of the resource on.
    unfoldable pub reconcile_named :
        Str → NetworkHealthCheckSpec → Operator C fl.F → Operator C fl.F × Reconciled fl
    reconcile_named name spec op = reconcile_fetched name spec (api.get name op.cluster) op

module _ {C : Type 0} (fl : Floats) (formats : Formats) where
  -- `ReconcileNetworkHealthCheck`, with the dynamic client, if the reconciler has one.
  unfoldable pub reconcile_network_health_check :
      Option (Api C fl.F)
      → Call fl.F
      → Str
      → NetworkHealthCheckSpec
      → Operator C fl.F
      → Operator C fl.F × Reconciled fl
  reconcile_network_health_check none call name spec op =
      (op, refused (str "dynamic Kubernetes client is required"))
  reconcile_network_health_check (some api) call name spec op =
      reconcile_named fl formats api call name spec op
