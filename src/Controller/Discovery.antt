-- ===== src/Controller/Discovery.antt =====
-- code/internal/controller/controller.go: which pods are agents.
pub mod Members
use cs331_t011_kubernetes_se.Common.{
  Bool, not, ◌&&◌, Option, none, some, List, [], ◌∷◌, ◌++◌, if◌then◌else◌,
}
use cs331_t011_kubernetes_se.Go.Text.{Str, str, str_eq, is_empty}
use cs331_t011_kubernetes_se.Go.Maps.{GoMap, get?}
use cs331_t011_kubernetes_se.Contract.{Endpoint}
use mathlib.Core.Option

-- What the operator reads of a pod.
pub record Pod : Type 0 where
  pub labels : GoMap Str
  pub phase : Str
  pub pod_ip : Str
  pub node_name : Str

-- The three guards of the loop: the label, the phase and the address.
unfoldable pub is_agent : Pod → Bool
is_agent pod =
    str_eq (Option.get_or (get? (str "app") pod.labels) []) (str "netprobe-agent")
    && str_eq pod.phase (str "Running")
    && not (is_empty pod.pod_ip)

unfoldable pub endpoint_of : Pod → Endpoint
endpoint_of pod = record {
  node_name = pod.node_name;
  pod_ip = pod.pod_ip;
  control_url = str "http://" ++ pod.pod_ip ++ str ":8080";
}

unfoldable pub build_agent_endpoints_from_pods : List Pod → List Endpoint
build_agent_endpoints_from_pods [] = []
build_agent_endpoints_from_pods (pod ∷ pods) =
    let rest = build_agent_endpoints_from_pods pods in
    if is_agent pod then endpoint_of pod ∷ rest else rest

-- The answer of the API server to a list request.
pub data Listed : Type 0 where
  unlisted : Str → Listed
  listed : List Pod → Listed

-- The endpoints, or the error.
pub data Discovered : Type 0 where
  undiscovered : Str → Discovered
  discovered : List Endpoint → Discovered

unfoldable pub read_list : Listed → Discovered
read_list (unlisted err) = undiscovered err
read_list (listed pods) = discovered (build_agent_endpoints_from_pods pods)

-- `discoverAgents`, with the client, if any, as the function that lists a namespace's pods with
-- the agents' label. The empty namespace is `NamespaceAll`, the empty text too.
unfoldable pub discover_agents : Option (Str → Listed) → Str → List Endpoint → Discovered
discover_agents none namespace agents = discovered agents
discover_agents (some list_pods) namespace agents = read_list (list_pods namespace)
