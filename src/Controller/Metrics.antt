-- ===== src/Controller/Metrics.antt =====
-- code/internal/controller/metrics.go: the text of the operator's metrics, line by line.
pub mod Labels
pub mod Agreement
use cs331_t011_kubernetes_se.Common.{
  ℕ, suc, ◌%◌, Bool, Option, none, some, List, [], ◌∷◌, ◌++◌, ◌==◌, length, if◌then◌else◌,
}
use cs331_t011_kubernetes_se.Common.Int.{ℤ, pos, negsuc, div_int}
use cs331_t011_kubernetes_se.Go.Text.{Str, str, split_arrow, decimal, negate}
use cs331_t011_kubernetes_se.Go.Maps.{MapOrder}
use cs331_t011_kubernetes_se.Go.Floats.{Floats}
use cs331_t011_kubernetes_se.Contract.{ProbeResult, Matrix, Verdict, class_string}
use cs331_t011_kubernetes_se.Controller.Probe.{int_text}
use cs331_t011_kubernetes_se.Controller.Reconcile.{Reconciler}
use cs331_t011_kubernetes_se.Controller.Status.{
  PairLevel, pair_state_healthy, pair_state_degraded, pair_state_failed, pair_state, result_at,
  sorted_matrix_keys, is_healthy_class,
}

-- `strings.ReplaceAll` of one byte.
unfoldable pub replace_byte : ℕ → Str → Str → Str
replace_byte old new [] = []
replace_byte old new (c ∷ s) =
    let rest = replace_byte old new s in if c == old then new ++ rest else c ∷ rest

unfoldable pub prom_label : Str → Str
prom_label value =
    replace_byte b'"' (b'\\' ∷ b'"' ∷ []) (replace_byte b'\\' (b'\\' ∷ b'\\' ∷ []) value)

-- `splitPairKey`: a key of one part is a source without a destination.
unfoldable pub split_pair_key : Str → Str × Str
split_pair_key key = elim (split_arrow key) [ none ↦ (key, []) | some ends ↦ ends ]

-- `src_node="%s",dst_node="%s"`
unfoldable pub pair_labels : Str → Str
pair_labels key =
    let (src, dst) = split_pair_key key in
    str "src_node=\"" ++ (prom_label src ++ (str "\",dst_node=\"" ++ (prom_label dst ++ str "\"")))

-- `name{labels} value`
unfoldable pub sample : Str → Str → Str → Str
sample name labels value = name ++ (str "{" ++ (labels ++ (str "} " ++ value)))

-- The map of counts by state.
pub record PairCounts : Type 0 where
  pub healthy_count : ℕ
  pub degraded_count : ℕ
  pub failed_count : ℕ

abbrev pub no_counts : PairCounts
no_counts = record { healthy_count = 0; degraded_count = 0; failed_count = 0 }

unfoldable pub count_state : PairLevel → PairCounts → PairCounts
count_state pair_state_healthy n = record n { healthy_count = suc n.healthy_count }
count_state pair_state_degraded n = record n { degraded_count = suc n.degraded_count }
count_state pair_state_failed n = record n { failed_count = suc n.failed_count }

-- The last lines: a count for each state, and whether there is no matrix at all.
unfoldable pub state_lines : PairCounts → ℕ → List Str
state_lines n nodata =
    sample (str "netprobe_reachability_pairs") (str "state=\"healthy\"") (decimal n.healthy_count)
    ∷ sample (str "netprobe_reachability_pairs") (str "state=\"degraded\"")
        (decimal n.degraded_count)
    ∷ sample (str "netprobe_reachability_pairs") (str "state=\"failed\"") (decimal n.failed_count)
    ∷ sample (str "netprobe_reachability_pairs") (str "state=\"nodata\"") (decimal nodata)
    ∷ []

-- `d % n`, which has the sign of `d`.
unfoldable pub rem_int : ℤ → ℕ → ℤ
rem_int (pos a) n = pos (a % n)
rem_int (negsuc a) n = negate (suc a % n)

unfoldable pub header_lines : List Str
header_lines =
    str "# HELP netprobe_manager_up Manager is running"
    ∷ str "# TYPE netprobe_manager_up gauge"
    ∷ str "netprobe_manager_up 1"
    ∷ str
        "# HELP netprobe_pair_reachable Directed pair reachability, 1 for reachable and 0 for failed"
    ∷ str "# TYPE netprobe_pair_reachable gauge"
    ∷ str "# HELP netprobe_pair_rtt_seconds Directed pair average probe RTT"
    ∷ str "# TYPE netprobe_pair_rtt_seconds gauge"
    ∷ str "# HELP netprobe_pair_jitter_seconds Directed pair RTT jitter"
    ∷ str "# TYPE netprobe_pair_jitter_seconds gauge"
    ∷ str "# HELP netprobe_pair_loss_rate Directed pair probe loss rate"
    ∷ str "# TYPE netprobe_pair_loss_rate gauge"
    ∷ str "# HELP netprobe_pair_loss_burst Directed pair maximum consecutive probe failures"
    ∷ str "# TYPE netprobe_pair_loss_burst gauge"
    ∷ str
        "# HELP netprobe_pair_throughput_bytes_per_second Directed pair synthetic payload throughput"
    ∷ str "# TYPE netprobe_pair_throughput_bytes_per_second gauge"
    ∷ str "# HELP netprobe_pair_bytes_sent Directed pair bytes sent during the latest round"
    ∷ str "# TYPE netprobe_pair_bytes_sent gauge"
    ∷ str "# HELP netprobe_pair_probes_sent Directed pair probes attempted during the latest round"
    ∷ str "# TYPE netprobe_pair_probes_sent gauge"
    ∷ []

module _ (fl : Floats) where
  -- `d.Seconds()`
  unfoldable pub seconds : ℤ → fl.F
  seconds d =
      fl.fadd (fl.of_int (div_int d 1_000_000_000))
        (fl.fdiv (fl.of_int (rem_int d 1_000_000_000)) (fl.lit 1_000_000_000 0))

  -- The eight lines of a pair.
  unfoldable pub pair_lines : Str → ProbeResult fl.F → List Str
  pair_lines key r =
      let labels = pair_labels key in
      sample (str "netprobe_pair_reachable") labels (if r.success then str "1" else str "0")
      ∷ sample (str "netprobe_pair_rtt_seconds") labels
          (fl.format 9 (fl.fdiv r.rtt_millis (fl.lit 1000 0)))
      ∷ sample (str "netprobe_pair_jitter_seconds") labels
          (fl.format 9 (fl.fdiv r.jitter_millis (fl.lit 1000 0)))
      ∷ sample (str "netprobe_pair_loss_rate") labels (fl.format 6 r.loss_rate)
      ∷ sample (str "netprobe_pair_loss_burst") labels (int_text r.burst_loss_max)
      ∷ sample (str "netprobe_pair_throughput_bytes_per_second") labels
          (fl.format 6 r.throughput_bps)
      ∷ sample (str "netprobe_pair_bytes_sent") labels (int_text r.bytes_sent)
      ∷ sample (str "netprobe_pair_probes_sent") labels (int_text r.probe_count)
      ∷ []

  -- The loop over the keys: its lines and its counts.
  unfoldable pub write_pairs : Matrix fl.F → List Str → PairCounts → List Str × PairCounts
  write_pairs m [] n = ([], n)
  write_pairs m (key ∷ keys) n =
      let r = result_at fl m key in
      let (lines, total) = write_pairs m keys (count_state (pair_state fl r) n) in
      (pair_lines key r ++ lines, total)

  -- The lines between the pairs and the counts.
  unfoldable pub verdict_lines : ℤ → Verdict fl.F → List Str
  verdict_lines round verdict =
      let class = prom_label (class_string verdict.class) in
      str "# HELP netprobe_round_duration_seconds Latest probe round wall-clock duration"
      ∷ str "# TYPE netprobe_round_duration_seconds gauge"
      ∷ (str "netprobe_round_duration_seconds " ++ fl.format 9 (seconds round))
      ∷ str "# HELP netprobe_mesh_health Mesh health, 1 when latest verdict is Healthy"
      ∷ str "# TYPE netprobe_mesh_health gauge"
      ∷ sample (str "netprobe_mesh_health") (str "verdict=\"" ++ (class ++ str "\""))
          (if is_healthy_class verdict.class then str "1" else str "0")
      ∷ str "# HELP netprobe_classification Latest classification (info gauge, value 1)"
      ∷ str "# TYPE netprobe_classification gauge"
      ∷ sample (str "netprobe_classification") (str "classification=\"" ++ (class ++ str "\""))
          (str "1")
      ∷ str "# HELP netprobe_classification_confidence Latest classification confidence score"
      ∷ str "# TYPE netprobe_classification_confidence gauge"
      ∷ sample (str "netprobe_classification_confidence")
          (str "classification=\"" ++ (class ++ str "\"")) (fl.format 6 verdict.confidence)
      ∷ str "# HELP netprobe_reachability_pairs Number of directed pairs in each reachability state"
      ∷ str "# TYPE netprobe_reachability_pairs gauge"
      ∷ []

  -- `WriteMetrics`: the lines, each of which ends in a line feed.
  unfoldable pub write_metrics : MapOrder → Reconciler fl.F → List Str
  write_metrics rt r =
      let keys = sorted_matrix_keys fl rt r.last_matrix in
      let (lines, counts) = write_pairs r.last_matrix keys no_counts in
      let nodata = if length keys == 0 then 1 else 0 in
      header_lines
      ++ (lines ++ (verdict_lines r.last_round r.last_verdict ++ state_lines counts nodata))
