-- ===== src/Analysis/Evidence.antt =====
-- What a probe matrix shows, independently of how the classifier computes: which pairs failed,
-- which lost too much, and how often a node is an end of one. A pair is an entry whose key has
-- two parts.
use cs331_t011_kubernetes_se.Common.{Bool, true, false, not, ◌&&◌, ◌||◌, Option, none, some}
use cs331_t011_kubernetes_se.Go.Text.{Str, str_eq, split_arrow}
use cs331_t011_kubernetes_se.Go.Floats.{Floats}
use cs331_t011_kubernetes_se.Contract.{ProbeResult}
use cs331_t011_kubernetes_se.Analysis.Scan.{is_degraded}

-- A test of the two ends of a key; false for a key of one part.
abbrev pub on_ends : (Str → Str → Bool) → Option (Str × Str) → Bool
on_ends test none = false
on_ends test (some (s, d)) = test s d

abbrev pub is_pair : Str → Bool
is_pair key = on_ends (λ s d. true) (split_arrow key)

abbrev pub source_is : Str → Str → Bool
source_is n key = on_ends (λ s d. str_eq s n) (split_arrow key)

abbrev pub dest_is : Str → Str → Bool
dest_is n key = on_ends (λ s d. str_eq d n) (split_arrow key)

-- The node is one of the two ends.
abbrev pub end_is : Str → Str → Bool
end_is n key = on_ends (λ s d. str_eq s n || str_eq d n) (split_arrow key)

module _ (fl : Floats) where
  abbrev pub Entry : Type 0
  Entry = Str × ProbeResult fl.F

  abbrev pub failed_pair : Entry → Bool
  failed_pair e = is_pair e.0 && not e.1.success

  abbrev pub degraded_pair : fl.F → Entry → Bool
  degraded_pair threshold e = is_pair e.0 && is_degraded fl e.1 threshold
