-- ===== src/Contract.antt =====
-- code/pkg/contract/types.go: the types that the agent, the operator and the classifier share.
use cs331_t011_kubernetes_se.Common.{List, Bool}
use cs331_t011_kubernetes_se.Common.Int.{ℤ}
use cs331_t011_kubernetes_se.Go.Text.{Str, str}
use cs331_t011_kubernetes_se.Go.Maps.{GoMap}

-- `F` is `float64`.
pub record ProbeResult (F : Type 0) : Type 0 where
  pub success : Bool
  pub loss_rate : F
  pub rtt_millis : F
  pub rtt_min_millis : F
  pub rtt_max_millis : F
  pub jitter_millis : F
  pub burst_loss_max : ℤ
  pub throughput_bps : F
  pub bandwidth_bps : F
  pub bytes_sent : ℤ
  pub probe_count : ℤ
  pub successful : ℤ
  pub duration_millis : F
  pub error : Str
  pub agent_error : Bool

pub record Endpoint : Type 0 where
  pub node_name : Str
  pub pod_ip : Str
  pub control_url : Str

-- Maps "srcNode->dstNode" to the result for that pair.
abbrev pub Matrix : Type 0 → Type 0
Matrix F = GoMap (ProbeResult F)

pub data Classification : Type 0 where
  healthy pair_local_failure node_ingress_failure node_egress_failure : Classification
  node_isolated cluster_partition policy_scoped unknown no_data degraded : Classification
  -- any other string; the zero value is `other []`
  other : Str → Classification

unfoldable pub class_string : Classification → Str
unfolding str
class_string healthy = str "Healthy"
class_string pair_local_failure = str "PairLocalFailure"
class_string node_ingress_failure = str "NodeIngressFailure"
class_string node_egress_failure = str "NodeEgressFailure"
class_string node_isolated = str "NodeIsolated"
class_string cluster_partition = str "ClusterPartition"
class_string policy_scoped = str "PolicyScopedFailure"
class_string unknown = str "Unknown"
class_string no_data = str "NoData"
class_string degraded = str "Degraded"
class_string (other s) = s

pub record Verdict (F : Type 0) : Type 0 where
  pub class : Classification
  pub confidence : F
  pub suspect_nodes : List Str
  pub summary : Str
