-- ===== src/Controller/Metrics/Agreement.antt =====
-- The metrics and the status of a round: they count the same pairs.
use cs331_t011_kubernetes_se.Common.{
  ℕ, ◌+◌, ◌≡◌, refl, sym, ap, ap₂, ◌∙◌, List, [], ◌∷◌, ◌++◌, arith, ◌==◌, length-perm,
  if◌then◌else◌,
}
use cs331_t011_kubernetes_se.Common.Int.{ℤ}
use cs331_t011_kubernetes_se.Go.Text.{Str, str, decimal}
use cs331_t011_kubernetes_se.Go.Maps.{MapOrder, IsMap}
use cs331_t011_kubernetes_se.Go.Floats.{Floats}
use cs331_t011_kubernetes_se.Contract.{ProbeResult, Matrix, Verdict, class_string}
use cs331_t011_kubernetes_se.Controller.Probe.{int_text}
use cs331_t011_kubernetes_se.Controller.Reconcile.{Reconciler}
use cs331_t011_kubernetes_se.Controller.Status.{
  PairLevel, pair_state_healthy, pair_state_degraded, pair_state_failed, Resource, pair_state,
  result_at, sorted_matrix_keys, is_healthy_class, build_network_health_check_status,
}
use cs331_t011_kubernetes_se.Controller.Status.Totals.{
  is_failed, is_degraded_level, is_healthy_level, count_of_level, count_sorted, count_failures,
  keys-perm, length-map, status_totals,
}
use cs331_t011_kubernetes_se.Controller.Metrics.{
  PairCounts, seconds, no_counts, prom_label, split_pair_key, pair_labels, count_state, sample,
  state_lines, header_lines, pair_lines, write_pairs, verdict_lines, write_metrics,
}

module _ (fl : Floats) where
  -- The eight lines of a pair, written out.
  unfoldable pub pair_text : Str × Str → ProbeResult fl.F → List Str
  pair_text (src, dst) r =
      let ends = prom_label src ++ (str "\",dst_node=\"" ++ (prom_label dst ++ str "\"")) in
      let thousand = fl.lit 1000 0 in
      (str "netprobe_pair_reachable{src_node=\""
        ++ (ends ++ (str "} " ++ (if r.success then str "1" else str "0"))))
      ∷ (str "netprobe_pair_rtt_seconds{src_node=\""
          ++ (ends ++ (str "} " ++ fl.format 9 (fl.fdiv r.rtt_millis thousand))))
      ∷ (str "netprobe_pair_jitter_seconds{src_node=\""
          ++ (ends ++ (str "} " ++ fl.format 9 (fl.fdiv r.jitter_millis thousand))))
      ∷ (str "netprobe_pair_loss_rate{src_node=\""
          ++ (ends ++ (str "} " ++ fl.format 6 r.loss_rate)))
      ∷ (str "netprobe_pair_loss_burst{src_node=\""
          ++ (ends ++ (str "} " ++ int_text r.burst_loss_max)))
      ∷ (str "netprobe_pair_throughput_bytes_per_second{src_node=\""
          ++ (ends ++ (str "} " ++ fl.format 6 r.throughput_bps)))
      ∷ (str "netprobe_pair_bytes_sent{src_node=\""
          ++ (ends ++ (str "} " ++ int_text r.bytes_sent)))
      ∷ (str "netprobe_pair_probes_sent{src_node=\""
          ++ (ends ++ (str "} " ++ int_text r.probe_count)))
      ∷ []

  pair_lines-text :
      (key : Str) (r : ProbeResult fl.F) → pair_lines fl key r ≡ pair_text (split_pair_key key) r
  unfolding pair_lines pair_text pair_labels sample str
  pair_lines-text key r = refl

  -- The lines on the verdict, written out.
  unfoldable pub verdict_text : ℤ → Verdict fl.F → List Str
  verdict_text round verdict =
      let class = prom_label (class_string verdict.class) in
      str "# HELP netprobe_round_duration_seconds Latest probe round wall-clock duration"
      ∷ str "# TYPE netprobe_round_duration_seconds gauge"
      ∷ (str "netprobe_round_duration_seconds " ++ fl.format 9 (seconds fl round))
      ∷ str "# HELP netprobe_mesh_health Mesh health, 1 when latest verdict is Healthy"
      ∷ str "# TYPE netprobe_mesh_health gauge"
      ∷ (str "netprobe_mesh_health{verdict=\""
          ++ ((class ++ str "\"")
              ++ (str "} " ++ (if is_healthy_class verdict.class then str "1" else str "0"))))
      ∷ str "# HELP netprobe_classification Latest classification (info gauge, value 1)"
      ∷ str "# TYPE netprobe_classification gauge"
      ∷ (str "netprobe_classification{classification=\"" ++ ((class ++ str "\"") ++ str "} 1"))
      ∷ str "# HELP netprobe_classification_confidence Latest classification confidence score"
      ∷ str "# TYPE netprobe_classification_confidence gauge"
      ∷ (str "netprobe_classification_confidence{classification=\""
          ++ ((class ++ str "\"") ++ (str "} " ++ fl.format 6 verdict.confidence)))
      ∷ str "# HELP netprobe_reachability_pairs Number of directed pairs in each reachability state"
      ∷ str "# TYPE netprobe_reachability_pairs gauge"
      ∷ []

  verdict_lines-text :
      (round : ℤ) (verdict : Verdict fl.F)
      → verdict_lines fl round verdict ≡ verdict_text round verdict
  unfolding verdict_lines verdict_text sample str
  verdict_lines-text round verdict = refl

module _ (fl : Floats) (m : Matrix fl.F) where
  -- The lines of the pairs, key by key.
  unfoldable pub all_pair_lines : List Str → List Str
  all_pair_lines [] = []
  all_pair_lines (key ∷ keys) =
      pair_text fl (split_pair_key key) (result_at fl m key) ++ all_pair_lines keys

  write_pairs-lines :
      (keys : List Str) (n : PairCounts) → (write_pairs fl m keys n).0 ≡ all_pair_lines keys
  unfolding write_pairs all_pair_lines
  write_pairs-lines [] n = refl
  write_pairs-lines (key ∷ keys) n =
      let r = result_at fl m key in
      ap₂ (λ ls rest. ls ++ rest) (pair_lines-text fl key r)
        (write_pairs-lines keys (count_state (pair_state fl r) n))

  count_state-counts :
      (l : PairLevel) (n : PairCounts)
      → ((count_state l n).healthy_count ≡ n.healthy_count + (if is_healthy_level l then 1 else 0))
        × ((count_state l n).degraded_count
            ≡ n.degraded_count + (if is_degraded_level l then 1 else 0))
        × ((count_state l n).failed_count ≡ n.failed_count + (if is_failed l then 1 else 0))
  unfolding count_state
  count_state-counts pair_state_healthy n = (omega arith, omega arith, omega arith)
  count_state-counts pair_state_degraded n = (omega arith, omega arith, omega arith)
  count_state-counts pair_state_failed n = (omega arith, omega arith, omega arith)

  write_pairs-counts :
      (keys : List Str) (n : PairCounts)
      → let total = (write_pairs fl m keys n).1 in
        (total.healthy_count ≡ n.healthy_count + count_of_level fl m is_healthy_level keys)
        × (total.degraded_count ≡ n.degraded_count + count_of_level fl m is_degraded_level keys)
        × (total.failed_count ≡ n.failed_count + count_of_level fl m is_failed keys)
  unfolding write_pairs count_of_level
  write_pairs-counts [] n = (omega arith, omega arith, omega arith)
  write_pairs-counts (key ∷ keys) n =
      let l = pair_state fl (result_at fl m key) in
      let (h, d, f) = count_state-counts l n in
      let (h', d', f') = write_pairs-counts keys (count_state l n) in
      (omega arith, omega arith, omega arith)

PairCounts-eq :
    (a b : PairCounts)
    → a.healthy_count ≡ b.healthy_count
    → a.degraded_count ≡ b.degraded_count
    → a.failed_count ≡ b.failed_count
    → a ≡ b
PairCounts-eq a b h d f =
    λ i. record { healthy_count = h i; degraded_count = d i; failed_count = f i }

module _ (fl : Floats) (rt rt' : MapOrder) (m : Matrix fl.F) (resource : Resource) (now later : Str)
    (verdict : Verdict fl.F) (unique : IsMap m) where
  -- The loop's counts are those of the status's summary.
  write_pairs-summary : (write_pairs fl m (sorted_matrix_keys fl rt m) no_counts).1 ≡ (
      let status = build_network_health_check_status fl rt' resource now later verdict m in
      record {
        healthy_count = status.reachability_summary.healthy_pairs;
        degraded_count = status.reachability_summary.degraded_count;
        failed_count = status.reachability_summary.failed_pairs;
      })
  write_pairs-summary =
      let keys = sorted_matrix_keys fl rt m in
      let (_, h, d, f, _) = status_totals fl m rt' resource now later verdict unique in
      let (h', d', f') = write_pairs-counts fl m keys no_counts in
      let hs = count_sorted fl m rt unique is_healthy_level in
      let ds = count_sorted fl m rt unique is_degraded_level in
      let fs = count_sorted fl m rt unique is_failed in
      let failures = count_failures fl m m in
      PairCounts-eq _ _ (omega arith) (omega arith) (omega arith)

-- The last lines, written out.
state_lines_lem :
    (n : PairCounts) (nodata : ℕ)
    → state_lines n nodata ≡ (
        (str "netprobe_reachability_pairs{state=\"healthy\"} " ++ decimal n.healthy_count)
        ∷ (str "netprobe_reachability_pairs{state=\"degraded\"} " ++ decimal n.degraded_count)
        ∷ (str "netprobe_reachability_pairs{state=\"failed\"} " ++ decimal n.failed_count)
        ∷ (str "netprobe_reachability_pairs{state=\"nodata\"} " ++ decimal nodata)
        ∷ [])
unfolding state_lines sample str
state_lines_lem n nodata = refl

-- If no key of the matrix repeats, the text ends in four lines, which give as the numbers of
-- healthy, of degraded and of failed pairs those of the status for the same matrix, even if the
-- status visits the map in another order, and as the flag for no data 1 if the status has no pair
-- and else 0. Between the header and the lines on the verdict the text has the lines of each pair in
-- the order of the keys.
pub write_metrics-agrees :
    (fl : Floats) (rt rt' : MapOrder) (r : Reconciler fl.F) (resource : Resource) (now later : Str)
    (verdict : Verdict fl.F)
    → IsMap r.last_matrix
    → let status =
        build_network_health_check_status fl rt' resource now later verdict r.last_matrix in
      write_metrics fl rt r
      ≡ header_lines
        ++ (all_pair_lines fl r.last_matrix (sorted_matrix_keys fl rt r.last_matrix)
            ++ (verdict_text fl r.last_round r.last_verdict
                ++ ((str "netprobe_reachability_pairs{state=\"healthy\"} "
                      ++ decimal status.reachability_summary.healthy_pairs)
                    ∷ (str "netprobe_reachability_pairs{state=\"degraded\"} "
                        ++ decimal status.reachability_summary.degraded_count)
                    ∷ (str "netprobe_reachability_pairs{state=\"failed\"} "
                        ++ decimal status.reachability_summary.failed_pairs)
                    ∷ (str "netprobe_reachability_pairs{state=\"nodata\"} "
                        ++ decimal (if status.reachability_total == 0 then 1 else 0))
                    ∷ [])))
unfolding write_metrics
write_metrics-agrees fl rt rt' r resource now later verdict unique =
    let m = r.last_matrix in
    let (total, _, _, _, _) = status_totals fl m rt' resource now later verdict unique in
    ap₂ (λ ls tail. header_lines ++ (ls ++ tail))
      (write_pairs-lines fl m (sorted_matrix_keys fl rt m) no_counts)
      (ap₂ (λ ls tail. ls ++ tail) (verdict_lines-text fl r.last_round r.last_verdict)
        (ap₂ state_lines (write_pairs-summary fl rt rt' m resource now later verdict unique) (
            ap (λ n. if n == 0 then 1 else 0)
              (length-perm (keys-perm fl m rt) ∙ length-map (λ e. e.0) m ∙ sym total))
          ∙ state_lines_lem _ _))
