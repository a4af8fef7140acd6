-- ===== src/Controller/Round.antt =====
-- code/internal/controller/prober.go: one round of probes. A goroutine per directed pair waits for
-- a place, probes, stores its result in the matrix under the mutex, and gives its place back; the
-- runtime chooses who goes next.
pub mod Steps
pub mod Runs
pub mod Places
pub mod Sizes
pub mod Keys
use cs331_t011_kubernetes_se.Common.{
  ℕ, suc, ◌≡◌, Bool, true, false, List, [], ◌∷◌, ◌++◌, ◌==◌, Permᴰ, if◌then◌else◌, map,
}
use cs331_t011_kubernetes_se.Common.Int.{ℤ, pos, is_nonpos, pos_part}
use cs331_t011_kubernetes_se.Go.Text.{Str, str}
use cs331_t011_kubernetes_se.Go.Maps.{put}
use cs331_t011_kubernetes_se.Go.Floats.{Floats}
use cs331_t011_kubernetes_se.Contract.{ProbeResult, Endpoint, Matrix}
use cs331_t011_kubernetes_se.Controller.Probe.{
  Answer, Outcome, fails, reports, Formats, ProbeCall, probe_endpoint,
}

pub record NetworkHealthCheckSpec : Type 0 where
  pub interval : ℤ
  pub probe_timeout : ℤ
  pub probe_type : Str
  pub probe_count : ℤ
  pub probe_payload_bytes : ℤ
  pub max_concurrent_probes : ℤ
  pub remediation_enabled : Bool
  pub remediation_dry_run : Bool
  pub failure_threshold : ℤ
  pub success_threshold : ℤ

-- A goroutine's pair, with the places of its ends in the list of agents.
pub record Job : Type 0 where
  pub src_at : ℕ
  pub src : Endpoint
  pub dst_at : ℕ
  pub dst : Endpoint

-- The inner loop, from place `j`.
unfoldable pub jobs_from : ℕ → Endpoint → ℕ → List Endpoint → List Job
jobs_from i src j [] = []
jobs_from i src j (dst ∷ rest) =
    let more = jobs_from i src (suc j) rest in
    if i == j then more else record { src_at = i; src = src; dst_at = j; dst = dst } ∷ more

-- The outer loop, from place `i`.
unfoldable pub job_rows : List Endpoint → ℕ → List Endpoint → List Job
job_rows endpoints i [] = []
job_rows endpoints i (src ∷ rest) = jobs_from i src 0 endpoints ++ job_rows endpoints (suc i) rest

unfoldable pub jobs_of : List Endpoint → List Job
jobs_of endpoints = job_rows endpoints 0 endpoints

unfoldable pub pair_key : Job → Str
pair_key j = j.src.node_name ++ str "->" ++ j.dst.node_name

-- The capacity of the semaphore.
unfoldable pub max_concurrent : NetworkHealthCheckSpec → ℕ
max_concurrent spec =
    if is_nonpos spec.max_concurrent_probes then 1 else pos_part spec.max_concurrent_probes

-- How the network answers the request of the pair at two places.
abbrev pub Network : Type 0 → Type 0
Network F = ℕ → ℕ → Str → Str → Answer F

module _ (fl : Floats) where
  -- An error becomes an agent error; the fields that it leaves out are zero.
  unfoldable pub result_of : Outcome fl.F → ProbeResult fl.F
  result_of (reports result) = result
  result_of (fails err) = record {
    success = false;
    loss_rate = fl.lit 1 0;
    rtt_millis = fl.lit 0 0;
    rtt_min_millis = fl.lit 0 0;
    rtt_max_millis = fl.lit 0 0;
    jitter_millis = fl.lit 0 0;
    burst_loss_max = pos 0;
    throughput_bps = fl.lit 0 0;
    bandwidth_bps = fl.lit 0 0;
    bytes_sent = pos 0;
    probe_count = pos 0;
    successful = pos 0;
    duration_millis = fl.lit 0 0;
    error = err;
    agent_error = true;
  }

  module _ (formats : Formats) (net : Network fl.F) (spec : NetworkHealthCheckSpec) where
    -- What the goroutine of a pair stores.
    unfoldable pub job_result : Job → ProbeResult fl.F
    job_result j = result_of (
        probe_endpoint formats (net j.src_at j.dst_at) (record {
          control_url = j.src.control_url;
          target_ip = j.dst.pod_ip;
          probe_type = spec.probe_type;
          timeout = spec.probe_timeout;
          count = spec.probe_count;
          payload_bytes = spec.probe_payload_bytes;
        }))

    -- The matrix after the stores of the jobs given, the latest first.
    unfoldable pub store_all : List Job → Matrix fl.F
    store_all [] = []
    store_all (j ∷ earlier) = put (pair_key j) (job_result j) (store_all earlier)

    -- `runProbeRound`, whose goroutines store their results in the order given.
    unfoldable pub run_probe_round : (List Job → List Job) → List Endpoint → Matrix fl.F
    run_probe_round latest_first [] = []
    run_probe_round latest_first (e ∷ endpoints) =
        store_all (latest_first (jobs_of (e ∷ endpoints)))
