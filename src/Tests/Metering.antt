-- ===== src/Tests/Metering.antt =====
-- The metrics and the status of sample matrices.
use mathlib.Core.Path.{◌≡◌, refl}
use cs331_t011_kubernetes_se.Common.{
  ◌≢◌, true, false, none, some, arith, [], ◌∷◌, ◌++◌, Memᴰ, All, all_at, ◌==◌, if◌then◌else◌,
}
use cs331_t011_kubernetes_se.Go.Text.{Str, str, split_arrow, decimal}
use cs331_t011_kubernetes_se.Contract.{Verdict, degraded}
use cs331_t011_kubernetes_se.Analysis.Evidence.{is_pair, Entry}
use cs331_t011_kubernetes_se.Analysis.Classifier.{classify}
use cs331_t011_kubernetes_se.Analysis.Hypotheses.{confidence_floor_of}
use cs331_t011_kubernetes_se.Controller.Reconcile.{Reconciler, config_for}
use cs331_t011_kubernetes_se.Controller.Reconcile.Shown.{Shows, classify-Shows}
use cs331_t011_kubernetes_se.Controller.Status.{
  sorted_matrix_keys, build_network_health_check_status,
}
use cs331_t011_kubernetes_se.Controller.Metrics.{
  prom_label, replace_byte, header_lines, write_metrics,
}
use cs331_t011_kubernetes_se.Controller.Metrics.Labels.{read_label, read_label-prom_label}
use cs331_t011_kubernetes_se.Controller.Metrics.Agreement.{
  verdict_text, all_pair_lines, write_metrics-agrees,
}
use cs331_t011_kubernetes_se.Tests.Fractions.{Fraction, fractions, fraction_laws}
use cs331_t011_kubernetes_se.Tests.Samples.{as_listed, backwards}
use cs331_t011_kubernetes_se.Tests.Reconciling.{fresh, spec}
use cs331_t011_kubernetes_se.Tests.Reporting.{resource, mixed, mixed-IsMap}

-- a"\b
abbrev odd_name : Str
odd_name = b'a' ∷ b'"' ∷ b'\\' ∷ b'b' ∷ []

escaped_name : prom_label odd_name ≡ b'a' ∷ b'\\' ∷ b'"' ∷ b'\\' ∷ b'\\' ∷ b'b' ∷ []
unfolding prom_label replace_byte
escaped_name = refl

-- A line feed passes as it is, and ends no value that a reader accepts.
broken_label : read_label false (prom_label (b'a' ∷ 10 ∷ []) ++ b'"' ∷ []) ≡ none
unfolding prom_label replace_byte read_label
broken_label = refl

odd_name_lines : All (λ c. c ≢ 10) odd_name
odd_name_lines =
    ((λ e. ground arith), ((λ e. ground arith), ((λ e. ground arith), ((λ e. ground arith), tt))))

read_label-prom_label_example :
    read_label false (prom_label odd_name ++ b'"' ∷ str "} 1") ≡ some (odd_name, str "} 1")
read_label-prom_label_example = read_label-prom_label odd_name (str "} 1") odd_name_lines

abbrev lossy_verdict : Verdict Fraction
lossy_verdict = record { class = degraded; confidence = (1, 0); suspect_nodes = []; summary = [] }

abbrev measured : Reconciler Fraction
measured = record fresh { last_matrix = mixed; last_verdict = lossy_verdict }

write_metrics-agrees_example :
    let status =
      build_network_health_check_status fractions backwards resource
        (str "now")
        (str "later")
        lossy_verdict
        mixed in
    write_metrics fractions as_listed measured
    ≡ header_lines
      ++ (all_pair_lines fractions mixed (sorted_matrix_keys fractions as_listed mixed)
          ++ (verdict_text fractions measured.last_round lossy_verdict
              ++ ((str "netprobe_reachability_pairs{state=\"healthy\"} "
                    ++ decimal status.reachability_summary.healthy_pairs)
                  ∷ (str "netprobe_reachability_pairs{state=\"degraded\"} "
                      ++ decimal status.reachability_summary.degraded_count)
                  ∷ (str "netprobe_reachability_pairs{state=\"failed\"} "
                      ++ decimal status.reachability_summary.failed_pairs)
                  ∷ (str "netprobe_reachability_pairs{state=\"nodata\"} "
                      ++ decimal (if status.reachability_total == 0 then 1 else 0))
                  ∷ [])))
write_metrics-agrees_example =
    write_metrics-agrees fractions as_listed backwards measured resource (str "now") (str "later")
      lossy_verdict mixed-IsMap

mixed_pairs : (e : Entry fractions) → Memᴰ e mixed → is_pair e.0 ≡ true
unfolding split_arrow str
mixed_pairs e i = all_at (λ x. is_pair x.0) mixed refl e i

classify-Shows_example :
    let verdict = classify as_listed fractions mixed (config_for fractions spec) in
    let status =
      build_network_health_check_status fractions backwards resource
        (str "now")
        (str "later")
        verdict
        mixed in
    Shows fractions
      (confidence_floor_of fractions (config_for fractions spec))
      status.reachability_summary
      status.reachability_total
      verdict.class
      verdict.confidence
classify-Shows_example =
    classify-Shows as_listed backwards fraction_laws spec mixed resource (str "now") (str "later")
      mixed-IsMap mixed_pairs
