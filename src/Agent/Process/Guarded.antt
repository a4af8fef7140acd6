-- ===== src/Agent/Process/Guarded.antt =====
-- What the agent's process does and how it ends, whoever asks it.
use cs331_t011_kubernetes_se.Common.{
  ℕ, ◌≡◌, refl, ◌⊎◌, inl, inr, true, Bool-cases, Option, none, some, List, [], ◌∷◌, ◌++◌, All,
  arith,
}
use mathlib.Core.Path.{subst}
use cs331_t011_kubernetes_se.Common.Int.{ℤ}
use cs331_t011_kubernetes_se.Go.Text.{Str, str, str_eq}
use cs331_t011_kubernetes_se.Go.Floats.{Floats}
use cs331_t011_kubernetes_se.Agent.Net.{NetSyntax, Ip}
use cs331_t011_kubernetes_se.Agent.Options.{ProbeOptions, parse_probe_options}
use cs331_t011_kubernetes_se.Agent.Target.{in_allowed}
use cs331_t011_kubernetes_se.Agent.Target.Guard.{IsOrdinary}
use cs331_t011_kubernetes_se.Agent.Prober.{Rounds}
use cs331_t011_kubernetes_se.Agent.Server.{
  Server, new_server, Request, World, handler, handle_probe, handle_healthz, handle_metrics,
}
use cs331_t011_kubernetes_se.Agent.Server.Access.{IsAuthorized, handler_sent, handle_probe-status}
use cs331_t011_kubernetes_se.Agent.Handshake.{Connection}
use cs331_t011_kubernetes_se.Agent.Listener.{Serving, ready}
use cs331_t011_kubernetes_se.Agent.Listener
use cs331_t011_kubernetes_se.Agent.Process.{
  AgentProcess, launch, answer, listen_returns, stop_serving, AgentStep, listens, serves, answers,
  serve_fails, AgentRuns, launched, and_then,
}

module _ (fl : Floats) (w : World) (s : Server) (r : Request) where
  handle_probe_few :
      ((handle_probe fl w s r).1 ≡ [])
      ⊎ ((opts : ProbeOptions) × ((handle_probe fl w s r).1 ≡ opts ∷ []))
  handle_probe_few = elim (handle_probe-status fl w s r) [
    | inl (denied, status, sent) ↦ inl sent
    | inr (inl (auth, bad, status, sent)) ↦ inl sent
    | inr (inr (inl (opts, auth, parsed, refused, status, sent))) ↦ inl sent
    | inr (inr (inr (opts, auth, parsed, valid, status, body, sent))) ↦ inr (opts, sent)
  ]

  -- A request makes the agent send one probe or none.
  handler_few :
      ((handler fl w s r).1 ≡ []) ⊎ ((opts : ProbeOptions) × ((handler fl w s r).1 ≡ opts ∷ []))
  unfolding handler handle_healthz handle_metrics
  handler_few = elim (Bool-cases (str_eq r.path (str "/probe"))) [
    | inr e ↦ inl (ground arith)
    | inl e ↦ elim (Bool-cases (str_eq r.path (str "/healthz"))) [
      | inl h ↦ inl (ground arith)
      | inr h ↦ elim handle_probe_few [
        | inl none_sent ↦ inl (rw (h, e) none_sent)
        | inr (opts, sent) ↦ inr (opts, rw (h, e) sent)
      ]
    ]
  ]

module _ (fl : Floats) (syntax : NetSyntax) (parse_duration : Str → Option ℤ) (s : Server) where
  -- The request sent no probe; or it is an authorized one on /probe, and its one probe goes to an
  -- ordinary address in an allowed network.
  abbrev pub IsGuarded : Request × List ProbeOptions → Type 0
  IsGuarded (r, sent) =
      (sent ≡ [])
      ⊎ ((opts : ProbeOptions) × (sent ≡ opts ∷ [])
          × (r.path ≡ str "/probe")
          × IsAuthorized s r
          × (parse_probe_options parse_duration r.query ≡ some opts)
          × (host : Str) × (port : Str) × (ip : Ip) × (syntax.split_host_port opts.target
              ≡ some (host, port))
          × (syntax.parse_ip host ≡ some ip)
          × (in_allowed syntax s.allowed_cidrs ip ≡ true)
          × IsOrdinary ip)

  handler-IsGuarded :
      (r : Request) (rounds : Rounds) (duration : ℤ)
      → let w : World = record {
        syntax = syntax;
        parse_duration = parse_duration;
        rounds = rounds;
        duration = duration;
      } in
        IsGuarded (r, (handler fl w s r).1)
  handler-IsGuarded r rounds duration =
      let w : World = record {
        syntax = syntax;
        parse_duration = parse_duration;
        rounds = rounds;
        duration = duration;
      } in
      elim (handler_few fl w s r) [
        | inl none_sent ↦ inl none_sent
        | inr (opts, sent) ↦
            let (path, auth, parsed, host, port, ip, split, parse, listed, ordinary) =
              handler_sent fl w s r opts sent in
            inr (opts, sent, path, auth, parsed, host, port, ip, split, parse, listed, ordinary)
      ]

-- Once the data listener listens, its connections are those of a run of it.
abbrev pub IsServing : ℕ → Option (List Connection) → Type 0
IsServing buffer none = Unit
IsServing buffer (some open_now) = Serving buffer open_now

-- The process is under way, or one of its servers could not go on.
abbrev pub IsEnd : Option Str → Type 0
IsEnd fatal =
    (fatal ≡ none)
    ⊎ ((err : Str) × ((fatal ≡ some (str "Fatal start TCP: " ++ err))
          ⊎ (fatal ≡ some (str "Fatal start HTTP: " ++ err))))

module _ (fl : Floats) (syntax : NetSyntax) (parse_duration : Str → Option ℤ) (buffer : ℕ)
    (getenv : Str → Str) where
  abbrev IsSound : AgentProcess → Type 0
  IsSound p =
      (p.server ≡ new_server syntax getenv)
      × All (IsGuarded fl syntax parse_duration (new_server syntax getenv)) p.answered
      × IsServing buffer p.connections
      × IsEnd p.fatal

  AgentStep-IsSound :
      {p q : AgentProcess} → AgentStep fl syntax parse_duration buffer p q → IsSound p → IsSound q
  unfolding listen_returns stop_serving
  AgentStep-IsSound (listens none up new) (same, guarded, serving, ends) =
      (same, guarded, ready, ends)
  AgentStep-IsSound (listens (some err) up new) (same, guarded, serving, ends) =
      (same, guarded, serving, inr (err, inl refl))
  AgentStep-IsSound (serves up open_now step) (same, guarded, serving, ends) =
      (same, guarded, Listener.and_then (subst (IsServing buffer) open_now serving) step, ends)
  AgentStep-IsSound (answers {p} r rounds duration up) (same, guarded, serving, ends) =
      let one =
        handler-IsGuarded fl syntax parse_duration (new_server syntax getenv) r rounds duration in
      unfold answer in (same, (rw same one, guarded), serving, ends)
  AgentStep-IsSound (serve_fails err up) (same, guarded, serving, ends) =
      (same, guarded, serving, inr (err, inr refl))

  -- Whatever steps the agent's process takes, its server is the one made of the environment; each
  -- request answered sent no probe, or came to /probe with the token, if one is configured, and
  -- sent one probe, to an ordinary address in a network that the environment allows; its data
  -- listener, once it listens, is in a run of its own; and the process ends only with the error of
  -- one of its two servers.
  pub AgentRuns-IsGuarded :
      {p : AgentProcess}
      → AgentRuns fl syntax parse_duration buffer getenv p
      → (p.server ≡ new_server syntax getenv)
        × All (IsGuarded fl syntax parse_duration (new_server syntax getenv)) p.answered
        × IsServing buffer p.connections
        × IsEnd p.fatal
  AgentRuns-IsGuarded launched = unfold launch in (refl, tt, tt, inl refl)
  AgentRuns-IsGuarded (and_then r st) = AgentStep-IsSound st (AgentRuns-IsGuarded r)
