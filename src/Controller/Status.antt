-- ===== src/Controller/Status.antt =====
-- code/internal/controller/status.go: the status that the operator writes for a round.
pub mod Totals
use cs331_t011_kubernetes_se.Common.{
  ℕ, zero, suc, ◌≡◌, Bool, true, false, not, ◌&&◌, Option, none, some, List, [], ◌∷◌, ◌++◌, ltb,
  length, map, take, if◌then◌else◌,
}
use cs331_t011_kubernetes_se.Common.Int.{ℤ, pos}
use cs331_t011_kubernetes_se.Go.Text.{Str, str, str_eq, is_empty, split_arrow, sort_strings}
use cs331_t011_kubernetes_se.Go.Maps.{MapOrder, get?}
use cs331_t011_kubernetes_se.Go.Floats.{Floats}
use cs331_t011_kubernetes_se.Contract.{
  ProbeResult, Matrix, Verdict, Classification, healthy, class_string,
}
use cs331_t011_kubernetes_se.Analysis.Config.{default_degraded_loss_threshold}
use mathlib.Core.Option

abbrev pub max_status_entries : ℕ
max_status_entries = 500

abbrev pub max_degraded_pairs : ℕ
max_degraded_pairs = 50

-- The three texts for the state of a pair.
pub data PairLevel : Type 0 where
  pair_state_healthy pair_state_degraded pair_state_failed : PairLevel

-- The counts of the summary, and the degraded pairs that it names.
pub record Summary : Type 0 where
  pub healthy_pairs : ℕ
  pub degraded_count : ℕ
  pub failed_pairs : ℕ
  pub degraded_pairs_named : List Str

abbrev pub no_summary : Summary
no_summary = record {
  healthy_pairs = 0;
  degraded_count = 0;
  failed_pairs = 0;
  degraded_pairs_named = [];
}

-- An item of the conditions that the resource holds: a field is `none` where it is missing or no
-- text.
pub record OldCondition : Type 0 where
  pub old_type : Option Str
  pub old_status : Option Str
  pub old_reason : Option Str
  pub old_transition_time : Option Str

pub record Condition : Type 0 where
  pub condition_type : Str
  pub condition_status : Str
  pub last_transition_time : Str
  pub reason : Str
  pub message : Str

-- What the function reads of the resource; an item that is no object is `none`, and conditions
-- that are missing or no list are `[]`.
pub record Resource : Type 0 where
  pub generation : ℤ
  pub conditions : List (Option OldCondition)

-- An entry with the fields of the result; it has a source and a destination if the key has both.
pub record StatusEntry (F : Type 0) : Type 0 where
  pub key : Str
  pub result : ProbeResult F
  pub ends : Option (Str × Str)

pub record Status (F : Type 0) : Type 0 where
  pub observed_generation : ℤ
  pub last_probe_time : Str
  pub verdict_text : Str
  pub classification : Str
  pub classification_confidence : F
  pub suspects : List Str
  pub reachability : List (StatusEntry F)
  pub reachability_truncated : Bool
  pub reachability_total : ℕ
  pub reachability_summary : Summary
  pub summary_text : Str
  pub condition : Condition

unfoldable pub names : Option Str → Str → Bool
names none s = false
names (some t) s = str_eq t s

-- The first condition with the type, the status and the reason, and a time, gives its time.
unfoldable pub previous_condition_transition_time :
    List (Option OldCondition) → Str → Str → Str → Str
previous_condition_transition_time [] kind status reason = []
previous_condition_transition_time (none ∷ rest) kind status reason =
    previous_condition_transition_time rest kind status reason
previous_condition_transition_time (some c ∷ rest) kind status reason =
    let later = previous_condition_transition_time rest kind status reason in
    if names c.old_type kind && names c.old_status status && names c.old_reason reason
    then Option.get_or c.old_transition_time later
    else later

-- `splitPairKey`, as the pair that the entry gets, if the second part is not empty.
unfoldable pub entry_ends : Str → Option (Str × Str)
entry_ends key = elim (split_arrow key) [
  | none ↦ none
  | some (s, d) ↦ if is_empty d then none else some (s, d)
]

unfoldable pub is_healthy_class : Classification → Bool
is_healthy_class healthy = true
is_healthy_class _ = false

module _ (fl : Floats) where
  unfoldable pub pair_state : ProbeResult fl.F → PairLevel
  pair_state r =
      if not r.success
      then pair_state_failed
      else if fl.fle (default_degraded_loss_threshold fl) r.loss_rate
      then pair_state_degraded
      else pair_state_healthy

  -- `matrix[key]` for a key that the matrix may not have.
  unfoldable pub zero_result : ProbeResult fl.F
  zero_result = record {
    success = false;
    loss_rate = fl.lit 0 0;
    rtt_millis = fl.lit 0 0;
    rtt_min_millis = fl.lit 0 0;
    rtt_max_millis = fl.lit 0 0;
    jitter_millis = fl.lit 0 0;
    burst_loss_max = pos 0;
    throughput_bps = fl.lit 0 0;
    bandwidth_bps = fl.lit 0 0;
    bytes_sent = pos 0;
    probe_count = pos 0;
    successful = pos 0;
    duration_millis = fl.lit 0 0;
    error = [];
    agent_error = false;
  }

  unfoldable pub result_at : Matrix fl.F → Str → ProbeResult fl.F
  result_at m key = Option.get_or (get? key m) zero_result

  unfoldable pub sorted_matrix_keys : MapOrder → Matrix fl.F → List Str
  sorted_matrix_keys rt m = sort_strings (map (λ e. e.0) (rt.visit _ 12 m))

  -- The body of the loop over the keys.
  unfoldable pub count_pair : Str → PairLevel → Summary → Summary
  count_pair key pair_state_healthy s = record s { healthy_pairs = suc s.healthy_pairs }
  count_pair key pair_state_failed s = record s { failed_pairs = suc s.failed_pairs }
  count_pair key pair_state_degraded s = record s {
    degraded_count = suc s.degraded_count;
    degraded_pairs_named =
        if ltb (length s.degraded_pairs_named) max_degraded_pairs
        then s.degraded_pairs_named ++ key ∷ []
        else s.degraded_pairs_named;
  }

  unfoldable pub summarize : Matrix fl.F → List Str → Summary → Summary
  summarize m [] s = s
  summarize m (key ∷ keys) s = summarize m keys (count_pair key (pair_state (result_at m key)) s)

  unfoldable pub matrix_to_status_entries : Matrix fl.F → List Str → List (StatusEntry fl.F)
  matrix_to_status_entries m [] = []
  matrix_to_status_entries m (key ∷ keys) =
      record { key = key; result = result_at m key; ends = entry_ends key }
      ∷ matrix_to_status_entries m keys

  -- `now` and `later` are the times of the two calls of the clock.
  unfoldable pub build_condition : Resource → Verdict fl.F → Str → Condition
  build_condition resource verdict later =
      let status = if is_healthy_class verdict.class then str "True" else str "False" in
      let previous =
        previous_condition_transition_time resource.conditions (str "Healthy") status
          (class_string verdict.class) in
      record {
        condition_type = str "Healthy";
        condition_status = status;
        last_transition_time = if is_empty previous then later else previous;
        reason = class_string verdict.class;
        message = verdict.summary;
      }

  unfoldable pub build_network_health_check_status :
      MapOrder → Resource → Str → Str → Verdict fl.F → Matrix fl.F → Status fl.F
  build_network_health_check_status rt resource now later verdict m =
      let keys = sorted_matrix_keys rt m in
      record {
        observed_generation = resource.generation;
        last_probe_time = now;
        verdict_text = class_string verdict.class;
        classification = class_string verdict.class;
        classification_confidence = verdict.confidence;
        suspects = verdict.suspect_nodes;
        reachability = matrix_to_status_entries m (take max_status_entries keys);
        reachability_truncated = ltb max_status_entries (length keys);
        reachability_total = length keys;
        reachability_summary = summarize m keys no_summary;
        summary_text = verdict.summary;
        condition = build_condition resource verdict later;
      }
