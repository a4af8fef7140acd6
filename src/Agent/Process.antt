-- ===== src/Agent/Process.antt =====
-- code/cmd/agent/main.go, and `Start` and `startDataListener` of code/pkg/server.go: the agent's
-- process, with its two servers, from its start to its end.
pub mod Guarded
use cs331_t011_kubernetes_se.Common.{ℕ, ◌≡◌, Option, none, some, List, [], ◌∷◌, ◌++◌}
use cs331_t011_kubernetes_se.Common.Int.{ℤ}
use cs331_t011_kubernetes_se.Go.Text.{Str, str}
use cs331_t011_kubernetes_se.Go.Floats.{Floats}
use cs331_t011_kubernetes_se.Agent.Net.{NetSyntax}
use cs331_t011_kubernetes_se.Agent.Options.{ProbeOptions}
use cs331_t011_kubernetes_se.Agent.Prober.{Rounds}
use cs331_t011_kubernetes_se.Agent.Server.{Server, new_server, Request, World, handler}
use cs331_t011_kubernetes_se.Agent.Handshake.{Connection}
use cs331_t011_kubernetes_se.Agent.Listener.{Serve}

-- The server that `main` makes; the connections of the data listener, once it listens; the requests
-- that the handlers have answered, the latest first, each with the probes that it sent; and the
-- text of the `log.Fatalf` that ended the process, if one did.
pub record AgentProcess : Type 0 where
  pub server : Server
  pub connections : Option (List Connection)
  pub answered : List (Request × List ProbeOptions)
  pub fatal : Option Str

-- `main` up to the two servers.
unfoldable pub launch : NetSyntax → (Str → Str) → AgentProcess
launch syntax getenv = record {
  server = new_server syntax getenv;
  connections = none;
  answered = [];
  fatal = none;
}

-- The data listener when `Listen` returns.
unfoldable pub listen_returns : Option Str → AgentProcess → AgentProcess
listen_returns none p = record p { connections = some [] }
listen_returns (some err) p = record p { fatal = some (str "Fatal start TCP: " ++ err) }

-- `Start` when `ListenAndServe` returns.
unfoldable pub stop_serving : Str → AgentProcess → AgentProcess
stop_serving err p = record p { fatal = some (str "Fatal start HTTP: " ++ err) }

module _ (fl : Floats) (syntax : NetSyntax) (parse_duration : Str → Option ℤ) (buffer : ℕ) where
  -- A request is answered, while its probe, if any, goes as told.
  unfoldable pub answer : Request → Rounds → ℤ → AgentProcess → AgentProcess
  answer r rounds duration p =
      let w : World = record {
        syntax = syntax;
        parse_duration = parse_duration;
        rounds = rounds;
        duration = duration;
      } in
      record p { answered = (r, (handler fl w p.server r).1) ∷ p.answered }

  -- A step of a process that has not ended: `Listen` returns, with an error or without; the
  -- listener or one of its connections takes a step; a handler answers a request; and
  -- `ListenAndServe`, which returns no other way, returns an error.
  pub data AgentStep : AgentProcess → AgentProcess → Type 0 where
    listens :
        {p : AgentProcess} (err : Option Str)
        → p.fatal ≡ none
        → p.connections ≡ none
        → AgentStep p (listen_returns err p)
    serves :
        {p : AgentProcess} {open_now open_next : List Connection}
        → p.fatal ≡ none
        → p.connections ≡ some open_now
        → Serve buffer open_now open_next
        → AgentStep p (record p { connections = some open_next })
    answers :
        {p : AgentProcess} (r : Request) (rounds : Rounds) (duration : ℤ)
        → p.fatal ≡ none
        → AgentStep p (answer r rounds duration p)
    serve_fails : {p : AgentProcess} (err : Str) → p.fatal ≡ none → AgentStep p (stop_serving err p)

  -- The process after any steps.
  pub data AgentRuns (getenv : Str → Str) : AgentProcess → Type 0 where
    launched : AgentRuns getenv (launch syntax getenv)
    and_then : {p q : AgentProcess} → AgentRuns getenv p → AgentStep p q → AgentRuns getenv q
