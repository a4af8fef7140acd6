-- ===== src/Agent/Server/Access.antt =====
-- Who can make the agent probe what.
use cs331_t011_kubernetes_se.Common.{
  ◌≡◌, refl, sym, ap, ◌∙◌, ◌≢◌, ◌⊎◌, inl, inr, ◌↔◌, Bool, true, false, Option, none, some, [], ◌∷◌,
  ◌++◌, arith, Bool-cases, Option-cases,
}
use cs331_t011_kubernetes_se.Go.Text.{Str, str, str_eq_iff}
use cs331_t011_kubernetes_se.Go.Floats.{Floats}
use cs331_t011_kubernetes_se.Agent.Net.{Ip}
use cs331_t011_kubernetes_se.Agent.Options.{ProbeOptions, parse_probe_options}
use cs331_t011_kubernetes_se.Agent.Prober.{execute_probe}
use cs331_t011_kubernetes_se.Agent.Target.{TargetError, validate_target, in_allowed}
use cs331_t011_kubernetes_se.Agent.Target.Guard.{IsOrdinary, validate_target_iff}
use cs331_t011_kubernetes_se.Agent.Server.{
  Server, Request, unauthorized, bad_request, bad_target, probed, bearer_auth, World, probe_target,
  probe_options, handle_probe, handle_healthz, handle_metrics, handler,
}

-- No token is configured, or the header carries it.
abbrev pub IsAuthorized : Server → Request → Type 0
IsAuthorized s r = (s.probe_token ≡ []) ⊎ (r.authorization ≡ str "Bearer " ++ s.probe_token)

bearer_auth-false : (s : Server) (r : Request) → (bearer_auth s r ≡ false) ↔ IsAuthorized s r
unfolding bearer_auth
bearer_auth-false s r = (
  λ h. ground (arith, str_eq_iff r.authorization (str "Bearer " ++ s.probe_token)),
  λ h. ground (arith, str_eq_iff r.authorization (str "Bearer " ++ s.probe_token)),
)

clash : {b : Bool} → b ≡ true → b ≡ false → ⊥
clash h k = ground arith

module _ (fl : Floats) (w : World) where
  probe_target_sent :
      (opts : ProbeOptions) (e : Option TargetError) {sent : ProbeOptions}
      → (probe_target fl w opts e).1 ≡ sent ∷ []
      → (e ≡ none) × (sent ≡ opts)
  unfolding probe_target
  probe_target_sent opts none h = (refl, cc)
  probe_target_sent opts (some e) h = absurd (ground arith)

  probe_options_sent :
      (s : Server) (o : Option ProbeOptions) {sent : ProbeOptions}
      → (probe_options fl w s o).1 ≡ sent ∷ []
      → (o ≡ some sent) × (validate_target w.syntax sent.target s.allowed_cidrs ≡ none)
  unfolding probe_options
  probe_options_sent s none h = absurd (ground arith)
  probe_options_sent s (some opts) h =
      let (ok, same) = probe_target_sent opts _ h in
      (
        ap some (sym same),
        ap (λ (o : ProbeOptions). validate_target w.syntax o.target s.allowed_cidrs) same ∙ ok,
      )

  handle_probe_sent :
      (s : Server) (r : Request) {sent : ProbeOptions}
      → (handle_probe fl w s r).1 ≡ sent ∷ []
      → (bearer_auth s r ≡ false)
        × ((probe_options fl w s (parse_probe_options w.parse_duration r.query)).1 ≡ sent ∷ [])
  unfolding handle_probe
  handle_probe_sent s r h = (ground arith, ground arith)

  -- A request makes the agent send a probe only on the path /probe, only with the token where one
  -- is configured, and only to an address that an allowed network contains and that is a loopback
  -- address, or neither link-local, multicast nor unspecified.
  pub handler_sent :
      (s : Server) (r : Request) (sent : ProbeOptions)
      → (handler fl w s r).1 ≡ sent ∷ []
      → (r.path ≡ str "/probe")
        × IsAuthorized s r
        × (parse_probe_options w.parse_duration r.query ≡ some sent)
        × (host : Str) × (port : Str) × (ip : Ip) × (w.syntax.split_host_port sent.target
            ≡ some (host, port))
        × (w.syntax.parse_ip host ≡ some ip)
        × (in_allowed w.syntax s.allowed_cidrs ip ≡ true)
        × IsOrdinary ip
  unfolding handler handle_healthz handle_metrics
  handler_sent s r sent h =
      let (path, reply) : (r.path ≡ str "/probe") × ((handle_probe fl w s r).1 ≡ sent ∷ []) =
        (ground (arith, str_eq_iff r.path (str "/probe")), ground arith) in
      let (auth, probing) = handle_probe_sent s r reply in
      let (parsed, valid) = probe_options_sent s _ probing in
      let (host, port, ip, split, parse, listed, ordinary) =
        (validate_target_iff w.syntax sent.target s.allowed_cidrs).0 valid in
      (path, (bearer_auth-false s r).0 auth, parsed, host, port, ip, split, parse, listed, ordinary)

  module _ (s : Server) (r : Request) where
    reply_denied :
        bearer_auth s r ≡ true
        → handle_probe fl w s r ≡ (record { status = 401; is_json = true; body = unauthorized }, [])
    unfolding handle_probe
    reply_denied e = rw e

    reply_bad_request :
        bearer_auth s r ≡ false
        → parse_probe_options w.parse_duration r.query ≡ none
        → handle_probe fl w s r
          ≡ (record { status = 400; is_json = true; body = bad_request (fl.lit 1 0) }, [])
    unfolding handle_probe probe_options
    reply_bad_request e p = rw e (rw (p, probe_options))

    module _ (opts : ProbeOptions) where
      reply_bad_target :
          (err : TargetError)
          → bearer_auth s r ≡ false
          → parse_probe_options w.parse_duration r.query ≡ some opts
          → validate_target w.syntax opts.target s.allowed_cidrs ≡ some err
          → handle_probe fl w s r
            ≡ (record { status = 403; is_json = true; body = bad_target (fl.lit 1 0) err }, [])
      unfolding handle_probe probe_options probe_target
      reply_bad_target err e p v = rw e (rw (p, probe_options) (rw (v, probe_target)))

      reply_probed :
          bearer_auth s r ≡ false
          → parse_probe_options w.parse_duration r.query ≡ some opts
          → validate_target w.syntax opts.target s.allowed_cidrs ≡ none
          → handle_probe fl w s r ≡ (
            record {
              status = 200;
              is_json = true;
              body = probed (execute_probe fl opts w.rounds w.duration);
            },
            opts ∷ [],
          )
      unfolding handle_probe probe_options probe_target
      reply_probed e p v = rw e (rw (p, probe_options) (rw (v, probe_target)))

  -- The status tells how far a request came: 401 without the token, 400 without a target, 403 for a
  -- target that is refused, 200 with the probe's result; and only the last has sent a probe.
  pub handle_probe-status :
      (s : Server) (r : Request)
      → let (reply, sent) = handle_probe fl w s r in
        ((¬ IsAuthorized s r) × (reply.status ≡ 401) × (sent ≡ []))
        ⊎ (IsAuthorized s r
            × (parse_probe_options w.parse_duration r.query ≡ none)
            × (reply.status ≡ 400)
            × (sent ≡ []))
        ⊎ ((opts : ProbeOptions) × IsAuthorized s r
            × (parse_probe_options w.parse_duration r.query ≡ some opts)
            × (validate_target w.syntax opts.target s.allowed_cidrs ≢ none)
            × (reply.status ≡ 403)
            × (sent ≡ []))
        ⊎ ((opts : ProbeOptions) × IsAuthorized s r
            × (parse_probe_options w.parse_duration r.query ≡ some opts)
            × (validate_target w.syntax opts.target s.allowed_cidrs ≡ none)
            × (reply.status ≡ 200)
            × (reply.body ≡ probed (execute_probe fl opts w.rounds w.duration))
            × (sent ≡ opts ∷ []))
  handle_probe-status s r = elim (Bool-cases (bearer_auth s r)) [
    | inl denied ↦
        let q = reply_denied s r denied in
        inl (
          λ auth. absurd (clash denied ((bearer_auth-false s r).1 auth)),
          ap (λ x. x.0.status) q,
          ap (λ x. x.1) q,
        )
    | inr allowed ↦
        let auth = (bearer_auth-false s r).0 allowed in
        elim (Option-cases (parse_probe_options w.parse_duration r.query)) [
          | inl p ↦
              let q = reply_bad_request s r allowed p in
              inr (inl (auth, p, ap (λ x. x.0.status) q, ap (λ x. x.1) q))
          | inr (opts, p) ↦
              elim (Option-cases (validate_target w.syntax opts.target s.allowed_cidrs)) [
                | inr (err, v) ↦
                    let q = reply_bad_target s r opts err allowed p v in
                    inr (
                      inr (inl (opts, auth, p, (λ n. cc), ap (λ x. x.0.status) q, ap (λ x. x.1) q)))
                | inl v ↦
                    let q = reply_probed s r opts allowed p v in
                    inr (
                      inr (
                        inr (
                          opts,
                          auth,
                          p,
                          v,
                          ap (λ x. x.0.status) q,
                          ap (λ x. x.0.body) q,
                          ap (λ x. x.1) q,
                        )))
              ]
        ]
  ]
