-- ===== src/Tests/Launching.antt =====
-- The agent's process from its start to the end of its HTTP server.
use mathlib.Core.Path.{◌≡◌, refl}
use cs331_t011_kubernetes_se.Common.{ℕ, Option, none, some, List, [], ◌∷◌, ◌++◌, All, if◌then◌else◌}
use cs331_t011_kubernetes_se.Common.Int.{pos}
use cs331_t011_kubernetes_se.Go.Text.{Str, str, str_eq}
use cs331_t011_kubernetes_se.Agent.Handshake.{opened}
use cs331_t011_kubernetes_se.Agent.Listener.{accepts}
use cs331_t011_kubernetes_se.Agent.Server.{new_server}
use cs331_t011_kubernetes_se.Agent.Process.{
  AgentProcess, launch, answer, listen_returns, stop_serving, AgentRuns, launched, and_then,
  listens, serves, answers, serve_fails,
}
use cs331_t011_kubernetes_se.Agent.Process.Guarded.{
  IsGuarded, IsServing, IsEnd, AgentRuns-IsGuarded,
}
use cs331_t011_kubernetes_se.Tests.Fractions.{fractions}
use cs331_t011_kubernetes_se.Tests.Probing.{table, line, asked}

abbrev getenv : List ℕ → List ℕ
getenv name = if str_eq name (str "PROBE_TOKEN") then str "secret" else []

abbrev no_duration : {A : Type 0} → Str → Option A
no_duration s = none

-- The listener has a connection.
abbrev connected : AgentProcess
connected = record (launch table getenv) { connections = some (opened 2 ∷ []) }

abbrev asked_once : AgentProcess
asked_once = answer fractions table no_duration 3 asked line (pos 20_000_000) connected

abbrev ended : AgentProcess
ended = record asked_once { fatal = some (str "Fatal start HTTP: " ++ str "address in use") }

ended-AgentRuns : AgentRuns fractions table no_duration 3 getenv ended
unfolding launch answer listen_returns stop_serving
ended-AgentRuns =
    and_then
      (and_then
        (and_then (and_then launched (listens none refl refl)) (serves refl refl (accepts 2)))
        (answers asked line (pos 20_000_000) refl))
      (serve_fails (str "address in use") refl)

AgentRuns-IsGuarded_example :
    (ended.server ≡ new_server table getenv)
    × All (IsGuarded fractions table no_duration (new_server table getenv)) ended.answered
    × IsServing 3 ended.connections
    × IsEnd ended.fatal
AgentRuns-IsGuarded_example =
    AgentRuns-IsGuarded fractions table no_duration 3 getenv ended-AgentRuns
