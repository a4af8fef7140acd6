-- ===== src/Analysis/Justified.antt =====
-- What a verdict of each class claims of the matrix, stated without the classifier's tallies.
use cs331_t011_kubernetes_se.Common.{
  ℕ, ◌≡◌, ◌≢◌, ◌⊎◌, Bool, true, false, not, ◌&&◌, [], ◌∷◌, Memᴰ, length, count_if,
}
use cs331_t011_kubernetes_se.Go.Text.{Str, str, contains, sort_strings}
use cs331_t011_kubernetes_se.Go.Floats.{Floats, quot}
use cs331_t011_kubernetes_se.Contract.{
  Matrix, Classification, healthy, pair_local_failure, node_ingress_failure, node_egress_failure,
  node_isolated, cluster_partition, policy_scoped, unknown, no_data, degraded, other, Verdict,
}
use cs331_t011_kubernetes_se.Analysis.Config.{Config}
use cs331_t011_kubernetes_se.Analysis.Scan.{loss_threshold}
use cs331_t011_kubernetes_se.Analysis.Hypotheses.{confidence_floor_of}
use cs331_t011_kubernetes_se.Analysis.Evidence.{
  is_pair, source_is, dest_is, Entry, failed_pair, degraded_pair,
}

module _ (fl : Floats) (m : Matrix fl.F) where
  -- Every entry that passes the first test passes the second; some entry passes the test.
  abbrev pub Every : (Entry fl → Bool) → (Entry fl → Bool) → Type 0
  Every p q = (e : Entry fl) → Memᴰ e m → p e ≡ true → q e ≡ true

  abbrev pub Exists : (Entry fl → Bool) → Type 0
  Exists p = (e : Entry fl) × Memᴰ e m × (p e ≡ true)

  abbrev pub failures : ℕ
  failures = count_if (failed_pair fl) m

  abbrev pub failed : Entry fl → Bool
  failed e = not e.1.success

  abbrev pub NoAgentError : Type 0
  NoAgentError = Every (λ e. true) (λ e. not e.1.agent_error)

  -- The share of the entries that failed.
  abbrev pub failed_share : fl.F
  failed_share = quot fl failures (length m)

  module _ (n : Str) where
    abbrev pub from_node : Entry fl → Bool
    from_node e = source_is n e.0

    abbrev pub to_node : Entry fl → Bool
    to_node e = dest_is n e.0

    -- Every pair out of the node failed, and there is one; so for the pairs into it.
    abbrev pub RowDown : Type 0
    RowDown = Every from_node failed × Exists from_node

    abbrev pub ColDown : Type 0
    ColDown = Every to_node failed × Exists to_node

    -- There is no pair of the kind, or one that succeeded.
    abbrev pub RowUp : Type 0
    RowUp = (¬ Exists from_node) ⊎ Exists (λ e. from_node e && e.1.success)

    abbrev pub ColUp : Type 0
    ColUp = (¬ Exists to_node) ⊎ Exists (λ e. to_node e && e.1.success)

  module _ (cfg : Config fl.F) where
    abbrev pub Because : Classification → Verdict fl.F → Type 0
    Because no_data v = m ≡ []
    Because healthy v =
        (m ≢ [])
        × NoAgentError
        × Every (λ e. is_pair e.0) (λ e. e.1.success)
        × ((e : Entry fl) → Memᴰ e m → degraded_pair fl (loss_threshold fl cfg) e ≡ false)
    Because degraded v =
        NoAgentError
        × Every (λ e. is_pair e.0) (λ e. e.1.success)
        × Exists (degraded_pair fl (loss_threshold fl cfg))
    Because pair_local_failure v =
        NoAgentError
        × (failures ≡ 1)
        × (s : Str) × (d : Str) × (v.suspect_nodes ≡ sort_strings (s ∷ d ∷ []))
        × Exists (λ e. source_is s e.0 && dest_is d e.0 && failed e)
        × Exists (λ e. source_is s e.0 && e.1.success)
        × Exists (λ e. dest_is d e.0 && e.1.success)
    Because node_isolated v =
        NoAgentError × (n : Str) × (v.suspect_nodes ≡ n ∷ []) × RowDown n × ColDown n
    Because node_egress_failure v =
        NoAgentError × (n : Str) × (v.suspect_nodes ≡ n ∷ []) × RowDown n × ColUp n
    Because node_ingress_failure v =
        NoAgentError × (n : Str) × (v.suspect_nodes ≡ n ∷ []) × ColDown n × RowUp n
    Because policy_scoped v =
        NoAgentError
        × (failures ≡ length m)
        × Every (λ e. true) (λ e. contains e.1.error (str "refused"))
    Because cluster_partition v =
        NoAgentError
        × (v.confidence ≡ failed_share)
        × (fl.fle (confidence_floor_of fl cfg) failed_share ≡ true)
    Because unknown v =
        (Exists (λ e. e.1.agent_error) × (v.confidence ≡ fl.lit 0 0))
        ⊎ (NoAgentError
            × (failures ≢ 0)
            × (v.confidence ≡ failed_share)
            × (fl.fle (confidence_floor_of fl cfg) failed_share ≡ false))
    Because (other s) v = ⊥

    -- The verdict's class is backed by the matrix.
    abbrev pub Justified : Verdict fl.F → Type 0
    Justified v = Because v.class v
