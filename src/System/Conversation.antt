-- ===== src/System/Conversation.antt =====
-- What comes of a request of the operator to an agent.
use cs331_t011_kubernetes_se.Common.{
  ℕ, ◌≡◌, ◌≢◌, refl, sym, ap, ap₂, ◌∙◌, ◌⊎◌, inl, inr, ◌↔◌, none, some, [], ◌∷◌, ◌++◌, arith,
  if◌then◌else◌,
}
use cs331_t011_kubernetes_se.Go.Text.{Str, str, is_empty, str_eq, str_eq_refl, decimal}
use cs331_t011_kubernetes_se.Go.Floats.{Floats}
use cs331_t011_kubernetes_se.Contract.{ProbeResult}
use cs331_t011_kubernetes_se.Controller.Probe.{
  Decoded, decoded, answered, Outcome, fails, reports, Formats, ProbeCall, authorization_of,
  probe_url, read_answer, read_body, probe_endpoint,
}
use cs331_t011_kubernetes_se.Agent.Options.{ProbeOptions, parse_probe_options}
use cs331_t011_kubernetes_se.Agent.Prober.{execute_probe}
use cs331_t011_kubernetes_se.Agent.Target.{validate_target}
use cs331_t011_kubernetes_se.Agent.Server.{Server, Request, World, probed, handle_probe, handler}
use cs331_t011_kubernetes_se.Agent.Server.Access.{IsAuthorized, handle_probe-status}
use cs331_t011_kubernetes_se.System.{Wire, Delivers, request_to, ask_agent}
use cs331_t011_kubernetes_se.System.Url.{
  ReadsTimeout, IsCall, options_of, path_of-probe_url, parse-probe_url,
}

-- The agent asks for no token, or the operator has the same one.
abbrev pub SharesToken : Formats → Server → Type 0
SharesToken formats s = (s.probe_token ≡ []) ⊎ (formats.agent_probe_token ≡ s.probe_token)

-- The error of an answer with another status than 200.
abbrev pub failed_with : {F : Type 0} → ℕ → Outcome F
failed_with status = fails (str "probe request failed with status " ++ decimal status)

header_of : Str → Str
header_of token = if is_empty token then [] else str "Bearer " ++ token

header_iff :
    (token theirs : Str)
    → ((theirs ≡ []) ⊎ (header_of token ≡ str "Bearer " ++ theirs))
      ↔ ((theirs ≡ []) ⊎ (token ≡ theirs))
unfolding header_of str
header_iff token [] = (λ h. inl refl, λ h. inl refl)
header_iff [] (c ∷ s) = (λ h. absurd (ground arith), λ h. absurd (ground arith))
header_iff (d ∷ t) (c ∷ s) = (λ h. ground arith, λ h. ground arith)

IsAuthorized-iff :
    (formats : Formats) (s : Server) (r : Request)
    → r.authorization ≡ authorization_of formats
    → IsAuthorized s r ↔ SharesToken formats s
unfolding authorization_of header_of
IsAuthorized-iff formats s r e = rw e (header_iff formats.agent_probe_token s.probe_token)

read-failed_with :
    {F : Type 0} (status : ℕ) (body : Decoded F)
    → status ≢ 200
    → read_answer (answered status body) ≡ failed_with status
unfolding read_answer
read-failed_with status body other = ground arith

module _ (fl : Floats) (w : World) (formats : Formats) (wire : Wire fl.F) (s : Server)
    (c : ProbeCall) where
  -- The request that reaches the agent, and the agent's reply.
  abbrev pub request : Request
  request = request_to wire (probe_url formats c) (authorization_of formats)

  abbrev pub probed_result : ProbeResult fl.F
  probed_result = execute_probe fl (options_of c) w.rounds w.duration

  module _ (host : Str) (call : IsCall c host)
      (timeout : ReadsTimeout formats w.parse_duration c.timeout) (law : Delivers wire) where
    handler-probe : handler fl w s request ≡ handle_probe fl w s request
    unfolding handler request_to str str_eq
    handler-probe =
        rw (path_of-probe_url formats w.parse_duration c host call timeout wire law) refl

    asked : probe_endpoint formats (ask_agent fl wire w s) c ≡ (
        let reply = (handle_probe fl w s request).0 in
        read_answer (answered reply.status (wire.decode reply.body)))
    unfolding probe_endpoint ask_agent
    asked = rw (call.tcp, str_eq_refl (str "tcp"), handler-probe) refl

    read_options :
        (opts : ProbeOptions)
        → parse_probe_options w.parse_duration request.query ≡ some opts
        → opts ≡ options_of c
    unfolding request_to
    read_options opts p =
        let parsed = parse-probe_url formats w.parse_duration c host call timeout wire law in cc

    answered_with :
        (n : ℕ)
        → n ≢ 200
        → (handle_probe fl w s request).0.status ≡ n
        → probe_endpoint formats (ask_agent fl wire w s) c ≡ failed_with n
    answered_with n other e =
        asked ∙ read-failed_with _ _ (λ back. other (sym e ∙ back)) ∙ ap failed_with e

    answered_probed :
        wire.decode (probed probed_result) ≡ decoded probed_result
        → (handle_probe fl w s request).0.status ≡ 200
        → (handle_probe fl w s request).0.body ≡ probed probed_result
        → probe_endpoint formats (ask_agent fl wire w s) c ≡ reports probed_result
    unfolding read_answer read_body
    answered_probed decodes status body =
        asked ∙ ap₂ (λ n d. read_answer (answered n d)) status (ap wire.decode body ∙ decodes)

    -- A TCP request of the operator, with a positive timeout that is read back, numbers that fit
    -- an `int` and a URL that needs no escape, fails with the status 401 where the agent asks
    -- for another token, with 403 where its guard refuses the target, and then nothing is sent;
    -- else, if the report is decoded as it was encoded, the agent sends just the probe that the
    -- call asks for, and the operator gets its result.
    pub probe_endpoint-conversation :
        wire.decode (probed probed_result) ≡ decoded probed_result
        → let out = probe_endpoint formats (ask_agent fl wire w s) c in
          let sent = (handler fl w s request).1 in
          ((¬ SharesToken formats s) × (out ≡ failed_with 401) × (sent ≡ []))
          ⊎ (SharesToken formats s
              × (validate_target w.syntax (options_of c).target s.allowed_cidrs ≢ none)
              × (out ≡ failed_with 403)
              × (sent ≡ []))
          ⊎ (SharesToken formats s
              × (validate_target w.syntax (options_of c).target s.allowed_cidrs ≡ none)
              × (out ≡ reports probed_result)
              × (sent ≡ options_of c ∷ []))
    probe_endpoint-conversation decodes =
        let (token_in, token_out) =
          IsAuthorized-iff formats s request (unfold request_to in refl) in
        let sends = ap (λ x. x.1) handler-probe in
        elim (handle_probe-status fl w s request) [
          | inl (denied, status, sent) ↦ inl (
            (λ shared. denied (token_out shared)),
            answered_with 401 (λ e. absurd (omega arith)) status,
            sends ∙ sent,
          )
          | inr (inl (auth, p, status, sent)) ↦
              let parsed = parse-probe_url formats w.parse_duration c host call timeout wire law in
              absurd (unfold request_to in cc)
          | inr (inr (inl (opts, auth, p, bad, status, sent))) ↦
              let same = read_options opts p in
              inr (
                inl (
                  token_in auth,
                  rw (← same) bad,
                  answered_with 403 (λ e. absurd (omega arith)) status,
                  sends ∙ sent,
                ))
          | inr (inr (inr (opts, auth, p, good, status, body, sent))) ↦
              let same = read_options opts p in
              inr (
                inr (
                  token_in auth,
                  rw (← same) good,
                  answered_probed decodes status
                      (body ∙ ap (λ o. probed (execute_probe fl o w.rounds w.duration)) same),
                  sends ∙ sent ∙ ap (λ o. o ∷ []) same,
                ))
        ]

    pub probe_endpoint-accepted :
        SharesToken formats s
        → validate_target w.syntax (options_of c).target s.allowed_cidrs ≡ none
        → wire.decode (probed probed_result) ≡ decoded probed_result
        → probe_endpoint formats (ask_agent fl wire w s) c ≡ reports probed_result
    probe_endpoint-accepted shared through decodes = elim (probe_endpoint-conversation decodes) [
      | inl (denied, _, _) ↦ absurd (denied shared)
      | inr (inl (_, bad, _, _)) ↦ absurd (bad through)
      | inr (inr (_, _, reported, _)) ↦ reported
    ]

    pub probe_endpoint-refused :
        (¬ SharesToken formats s)
          ⊎ (validate_target w.syntax (options_of c).target s.allowed_cidrs ≢ none)
        → (status : ℕ) × (probe_endpoint formats (ask_agent fl wire w s) c ≡ failed_with status)
    probe_endpoint-refused reason =
        let (token_in, token_out) =
          IsAuthorized-iff formats s request (unfold request_to in refl) in
        let parsed = parse-probe_url formats w.parse_duration c host call timeout wire law in
        elim (handle_probe-status fl w s request) [
          | inl (denied, status, sent) ↦ (401, answered_with 401 (λ e. absurd (omega arith)) status)
          | inr (inl (auth, p, status, sent)) ↦ absurd (unfold request_to in cc)
          | inr (inr (inl (opts, auth, p, bad, status, sent))) ↦
              (403, answered_with 403 (λ e. absurd (omega arith)) status)
          | inr (inr (inr (opts, auth, p, good, status, body, sent))) ↦
              let same = read_options opts p in
              elim reason [
                | inl denied ↦ absurd (denied (token_in auth))
                | inr bad ↦ absurd (bad (rw (← same) good))
              ]
        ]
