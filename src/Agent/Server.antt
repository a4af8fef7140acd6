-- ===== src/Agent/Server.antt =====
-- code/pkg/server.go: the agent's HTTP handlers. A handler returns the response, and the probes
-- that it sent on the network.
pub mod Access
use cs331_t011_kubernetes_se.Common.{
  ℕ, Bool, true, false, not, Option, none, some, List, [], ◌∷◌, ◌++◌, if◌then◌else◌,
}
use cs331_t011_kubernetes_se.Common.Int.{ℤ}
use cs331_t011_kubernetes_se.Go.Text.{Str, str, str_eq, is_empty}
use cs331_t011_kubernetes_se.Go.Floats.{Floats}
use cs331_t011_kubernetes_se.Contract.{ProbeResult}
use cs331_t011_kubernetes_se.Agent.Net.{Cidr, NetSyntax}
use cs331_t011_kubernetes_se.Agent.Options.{ProbeOptions, parse_probe_options}
use cs331_t011_kubernetes_se.Agent.Prober.{Rounds, execute_probe}
use cs331_t011_kubernetes_se.Agent.Target.{TargetError, validate_target, parse_allowed_cidrs}

pub record Server : Type 0 where
  pub control_port : Str
  pub data_port : Str
  pub node_name : Str
  pub pod_ip : Str
  pub probe_token : Str
  pub allowed_cidrs : List Cidr

-- `os.Getenv` with a text for an unset variable.
unfoldable pub env_or : (Str → Str) → Str → Str → Str
env_or getenv name fallback = if is_empty (getenv name) then fallback else getenv name

unfoldable pub new_server : NetSyntax → (Str → Str) → Server
new_server syntax getenv = record {
  control_port = str ":8080";
  data_port = str ":9376";
  node_name = env_or getenv (str "NODE_NAME") (str "localhost");
  pod_ip = env_or getenv (str "POD_IP") (str "127.0.0.1");
  probe_token = getenv (str "PROBE_TOKEN");
  allowed_cidrs = parse_allowed_cidrs syntax (getenv (str "PROBE_ALLOWED_CIDRS"));
}

pub record Request : Type 0 where
  pub path : Str
  -- `Get` of the header `Authorization` and of the URL's values
  pub authorization : Str
  pub query : Str → Str

-- The JSON objects and the text that the handlers write. The errors of a bad request and of a bad
-- target carry a loss rate of 1.
pub data Body (F : Type 0) : Type 0 where
  unauthorized : Body F
  bad_request : F → Body F
  bad_target : F → TargetError → Body F
  probed : ProbeResult F → Body F
  health : Str → Str → Body F
  metrics : Body F
  page_not_found : Body F

pub record Response (F : Type 0) : Type 0 where
  pub status : ℕ
  pub is_json : Bool
  pub body : Body F

-- `bearerAuth`: is the request denied?
unfoldable pub bearer_auth : Server → Request → Bool
bearer_auth s r =
    if is_empty s.probe_token
    then false
    else not (str_eq r.authorization (str "Bearer " ++ s.probe_token))

-- The outside world as the handlers meet it: the packages' parsers, and how a probe goes.
pub record World : Type 0 where
  pub syntax : NetSyntax
  pub parse_duration : Str → Option ℤ
  pub rounds : Rounds
  pub duration : ℤ

module _ (fl : Floats) (w : World) where
  abbrev pub Reply : Type 0
  Reply = Response fl.F × List ProbeOptions

  unfoldable pub handle_healthz : Server → Reply
  handle_healthz s =
      (record { status = 200; is_json = true; body = health s.node_name s.pod_ip }, [])

  unfoldable pub handle_metrics : Reply
  handle_metrics = (record { status = 200; is_json = false; body = metrics }, [])

  -- From the guard on the target on.
  unfoldable pub probe_target : ProbeOptions → Option TargetError → Reply
  probe_target opts (some err) =
      (record { status = 403; is_json = true; body = bad_target (fl.lit 1 0) err }, [])
  probe_target opts none = (
    record {
      status = 200;
      is_json = true;
      body = probed (execute_probe fl opts w.rounds w.duration);
    },
    opts ∷ [],
  )

  unfoldable pub probe_options : Server → Option ProbeOptions → Reply
  probe_options s none =
      (record { status = 400; is_json = true; body = bad_request (fl.lit 1 0) }, [])
  probe_options s (some opts) =
      probe_target opts (validate_target w.syntax opts.target s.allowed_cidrs)

  unfoldable pub handle_probe : Server → Request → Reply
  handle_probe s r =
      if bearer_auth s r
      then (record { status = 401; is_json = true; body = unauthorized }, [])
      else probe_options s (parse_probe_options w.parse_duration r.query)

  -- `Handler`: the routes of the mux, which match their path as a whole.
  unfoldable pub handler : Server → Request → Reply
  handler s r =
      if str_eq r.path (str "/healthz")
      then handle_healthz s
      else if str_eq r.path (str "/probe")
      then handle_probe s r
      else if str_eq r.path (str "/metrics")
      then handle_metrics
      else (record { status = 404; is_json = false; body = page_not_found }, [])
