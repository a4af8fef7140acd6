-- ===== src/Analysis/Scan.antt =====
-- code/pkg/analysis/classifier.go, steps 1 to 3 of `classify`: the nodes, the guard against agent
-- errors, and the buckets of failed, degraded and slightly lossy pairs.
use cs331_t011_kubernetes_se.Common.{
  Bool, not, ◌&&◌, Option, none, some, List, [], ◌∷◌, ◌++◌, any, if◌then◌else◌,
}
use cs331_t011_kubernetes_se.Go.Text.{Str, str, split_arrow}
use cs331_t011_kubernetes_se.Go.Maps.{add}
use cs331_t011_kubernetes_se.Go.Floats.{Floats}
use cs331_t011_kubernetes_se.Contract.{ProbeResult}
use cs331_t011_kubernetes_se.Analysis.Config.{Config, default_degraded_loss_threshold}

pub record FailedPair : Type 0 where
  pub key : Str
  pub src : Str
  pub dst : Str

-- What the loop of step 3 fills.
pub record Buckets : Type 0 where
  pub failed : List FailedPair
  pub degraded_summaries : List Str
  pub minor_loss_summaries : List Str
  pub degraded_nodes : List Str

abbrev pub no_buckets : Buckets
no_buckets = record {
  failed = [];
  degraded_summaries = [];
  minor_loss_summaries = [];
  degraded_nodes = [];
}

-- A key of two parts adds both to the set.
unfoldable pub add_ends : Option (Str × Str) → List Str → List Str
add_ends none nodes = nodes
add_ends (some (s, d)) nodes = add d (add s nodes)

-- Step 1, over the entries in the order visited.
unfoldable pub collect_nodes {ℓ} : {V : Type ℓ} → List (Str × V) → List Str → List Str
collect_nodes [] nodes = nodes
collect_nodes ((key, _) ∷ m) nodes = collect_nodes m (add_ends (split_arrow key) nodes)

module _ (fl : Floats) where
  -- Step 2.
  unfoldable pub has_agent_error : List (Str × ProbeResult fl.F) → Bool
  has_agent_error m = any (λ e. e.1.agent_error) m

  unfoldable pub loss_threshold : Config fl.F → fl.F
  loss_threshold cfg =
      if fl.fle cfg.degraded_loss_threshold (fl.lit 0 0)
      then default_degraded_loss_threshold fl
      else cfg.degraded_loss_threshold

  unfoldable pub is_degraded : ProbeResult fl.F → fl.F → Bool
  is_degraded r threshold = r.success && fl.fle threshold r.loss_rate

  -- "%s (%.0f%% loss, %.1fms RTT)"
  unfoldable pub describe_loss : Str → ProbeResult fl.F → Str
  describe_loss key r =
      key
      ++ str " ("
      ++ fl.format 0 (fl.fmul r.loss_rate (fl.lit 100 0))
      ++ str "% loss, "
      ++ fl.format 1 r.rtt_millis
      ++ str "ms RTT)"

  -- The body of the loop of step 3; `none` is the `continue` for a key of one part.
  unfoldable pub bucket_pair :
      fl.F → Str → ProbeResult fl.F → Option (Str × Str) → Buckets → Buckets
  bucket_pair threshold key r none b = b
  bucket_pair threshold key r (some (s, d)) b =
      if not r.success
      then record b { failed = b.failed ++ record { key = key; src = s; dst = d } ∷ [] }
      else if is_degraded r threshold
      then record b {
        degraded_summaries = b.degraded_summaries ++ describe_loss key r ∷ [];
        degraded_nodes = add d (add s b.degraded_nodes);
      }
      else if fl.flt (fl.lit 0 0) r.loss_rate
      then record b { minor_loss_summaries = b.minor_loss_summaries ++ describe_loss key r ∷ [] }
      else b

  unfoldable pub fill_buckets : fl.F → List (Str × ProbeResult fl.F) → Buckets → Buckets
  fill_buckets threshold [] b = b
  fill_buckets threshold ((key, r) ∷ m) b =
      fill_buckets threshold m (bucket_pair threshold key r (split_arrow key) b)
