-- ===== src/Controller/Resource/Outcomes.antt =====
-- The ways in which the reconciliation of one resource ends, and what each leaves behind.
use mathlib.Core.Path.{subst, fun_ext}
use cs331_t011_kubernetes_se.Common.{◌≡◌, refl, sym, ap, ap₂, ◌⊎◌, inl, inr, Option, none, some}
use cs331_t011_kubernetes_se.Go.Text.{Str, str}
use cs331_t011_kubernetes_se.Go.Floats.{Floats}
use cs331_t011_kubernetes_se.Contract.{Matrix, Verdict}
use cs331_t011_kubernetes_se.Controller.Probe.{Formats}
use cs331_t011_kubernetes_se.Controller.Round.{NetworkHealthCheckSpec}
use cs331_t011_kubernetes_se.Controller.Reconcile.{
  Reconciler, Reconciled, refused, classified, with_defaults, reconcile,
}
use cs331_t011_kubernetes_se.Controller.Reconcile.Outcomes.{Untouched, Recorded, reconcile-outcome}
use cs331_t011_kubernetes_se.Controller.Remediation.Safety.{execute-plan_remediation}
use cs331_t011_kubernetes_se.Controller.Status.{Resource, Status, build_network_health_check_status}
use cs331_t011_kubernetes_se.Controller.Resource.{
  Fetched, unfetched, fetched, Api, Operator, Call, write_fetched, write_status, remediate, publish,
  reconcile_fetched, reconcile_named, reconcile_network_health_check,
}

module _ {C : Type 0} (fl : Floats) (formats : Formats) (api : Api C fl.F) (call : Call fl.F)
    (name : Str) (spec : NetworkHealthCheckSpec) (op : Operator C fl.F) where
  -- The status that belongs to the verdict and the matrix that the reconciler holds.
  abbrev pub own_status : Resource → Reconciler fl.F → Status fl.F
  own_status resource r =
      build_network_health_check_status fl call.surroundings.orders resource call.now call.later
        r.last_verdict r.last_matrix

  -- One attempt to store it: the resource is read again, and that reading is updated with it.
  abbrev pub attempt : Status fl.F → C → C × Option Str
  attempt status c = elim (api.get name c) [
    | unfetched err ↦ (c, some err)
    | fetched current ↦ api.update_status current status c
  ]

  -- What `RetryOnConflict` makes of such attempts.
  abbrev pub written : Resource → Reconciler fl.F → C × Option Str
  written resource r = api.retry_on_conflict (attempt (own_status resource r)) op.cluster

  write_status-attempt :
      (status : Status fl.F) → write_status fl formats api name status ≡ attempt status
  unfolding write_status write_fetched
  write_status-attempt status = fun_ext (λ c. by_answer c (api.get name c))
    where
      by_answer :
          (c : C) (f : Fetched)
          → write_fetched fl formats api status f c ≡ elim f [
            | unfetched err ↦ (c, some err)
            | fetched current ↦ api.update_status current status c
          ]
      by_answer c (unfetched err) = refl
      by_answer c (fetched current) = refl

  -- Nothing was changed, and the call failed.
  abbrev pub Refused : Operator C fl.F → Reconciled fl → Type 0
  Refused op' out = (err : Str) × (out ≡ refused err) × (op' ≡ op)

  -- The resource was read and a round was classified; the cluster is what the attempts to store its
  -- status left, and the log is as it was. The call returns the round if the write succeeded, and else
  -- the error.
  abbrev pub PublishedBy :
      (Resource → Reconciler fl.F → C × Option Str) → Operator C fl.F → Reconciled fl → Type 0
  PublishedBy stored op' out =
      (resource : Resource) × (api.get name op.cluster ≡ fetched resource)
      × Recorded fl formats call.surroundings (with_defaults spec) op.reconciler op'.reconciler
          (classified op'.reconciler.last_verdict op'.reconciler.last_matrix)
      × (op'.cluster ≡ (stored resource op'.reconciler).0)
      × (op'.log ≡ op.log)
      × (out ≡ elim (stored resource op'.reconciler).1 [
        | none ↦ classified op'.reconciler.last_verdict op'.reconciler.last_matrix
        | some err ↦ refused err
      ])

  abbrev pub Published : Operator C fl.F → Reconciled fl → Type 0
  Published = PublishedBy written

  -- The write as the code puts it together.
  abbrev stored_status : Resource → Reconciler fl.F → C × Option Str
  stored_status resource r =
      api.retry_on_conflict (write_status fl formats api name (own_status resource r)) op.cluster

  stored_status-written : stored_status ≡ written
  stored_status-written = λ i resource r.
      api.retry_on_conflict (write_status-attempt (own_status resource r) i) op.cluster

  remediate_lem :
      (v : Verdict fl.F) (m : Matrix fl.F) (op' : Operator C fl.F) (err : Option Str)
      → let (op'', out) = remediate fl formats api spec v m op' err in
        (op'' ≡ op') × (out ≡ elim err [ none ↦ classified v m | some e ↦ refused e ])
  unfolding remediate
  remediate_lem v m op' none =
      (ap (λ l. record op' { log = l }) (execute-plan_remediation fl v _ _ op'.log), refl)
  remediate_lem v m op' (some e) = (refl, refl)

  publish-outcome :
      (resource : Resource)
      → api.get name op.cluster ≡ fetched resource
      → (r : Reconciler fl.F) (out : Reconciled fl)
      → Untouched fl formats call.surroundings op.reconciler r out
        ⊎ Recorded fl formats call.surroundings (with_defaults spec) op.reconciler r out
      → let (op', out') =
          publish fl formats api call name spec resource (record op { reconciler = r }) out in
        Refused op' out' ⊎ PublishedBy stored_status op' out'
  unfolding publish
  publish-outcome resource e r out (inl (err, failed, same)) =
      subst
        (λ o.
          let (op', out') =
            publish fl formats api call name spec resource (record op { reconciler = r }) o in
          Refused op' out' ⊎ PublishedBy stored_status op' out')
        (sym failed) (inl (err, refl, ap (λ x. record op { reconciler = x }) same))
  publish-outcome resource e r out (inr (agents, t, found, ok, a, b, c, d)) =
      let (cluster, err) = stored_status resource r in
      let (same, ends) =
        remediate_lem r.last_verdict r.last_matrix (record op { reconciler = r; cluster = cluster })
          err in
      subst
        (λ o.
          let (op', out') =
            publish fl formats api call name spec resource (record op { reconciler = r }) o in
          Refused op' out' ⊎ PublishedBy stored_status op' out')
        (sym ok)
        (subst
          (λ (q : Operator C fl.F × Reconciled fl).
            Refused q.0 q.1 ⊎ PublishedBy stored_status q.0 q.1)
          (sym (ap₂ (λ a b. (a, b)) same ends))
          (inr (resource, e, (agents, t, found, refl, a, b, c, d), refl, refl, refl)))

  fetched-outcome :
      (f : Fetched)
      → api.get name op.cluster ≡ f
      → let (op', out) = reconcile_fetched fl formats api call name spec f op in
        Refused op' out ⊎ Published op' out
  unfolding reconcile_fetched
  fetched-outcome (unfetched err) e = inl (err, refl, refl)
  fetched-outcome (fetched resource) e =
      let (r, out) = reconcile fl formats call.surroundings spec op.reconciler in
      subst
        (λ stored.
          let (op', out') =
            publish fl formats api call name spec resource (record op { reconciler = r }) out in
          Refused op' out' ⊎ PublishedBy stored op' out')
        stored_status-written
        (publish-outcome resource e r out
          (reconcile-outcome fl formats call.surroundings spec op.reconciler))

  pub reconcile_network_health_check-outcome :
      (reconcile_network_health_check fl formats none call name spec op
        ≡ (op, refused (str "dynamic Kubernetes client is required")))
      × (let (op', out) = reconcile_network_health_check fl formats (some api) call name spec op in
          Refused op' out ⊎ Published op' out)
  unfolding reconcile_network_health_check reconcile_named
  reconcile_network_health_check-outcome = (refl, fetched-outcome (api.get name op.cluster) refl)

  pub reconciler-publish :
      (resource : Resource) (op' : Operator C fl.F) (out : Reconciled fl)
      → (publish fl formats api call name spec resource op' out).0.reconciler ≡ op'.reconciler
  unfolding publish
  reconciler-publish resource op' (refused err) = refl
  reconciler-publish resource op' (classified v m) =
      ap (λ o. o.reconciler) (remediate_lem v m _ _).0
