-- ===== src/Analysis/Tallies.antt =====
-- code/pkg/analysis/classifier.go, step 5 of `classify`: how many pairs, and how many failed ones,
-- each node is the source or the destination of.
use cs331_t011_kubernetes_se.Common.{ℕ, Option, none, some, List, [], ◌∷◌}
use cs331_t011_kubernetes_se.Go.Text.{Str, split_arrow}
use cs331_t011_kubernetes_se.Go.Maps.{GoMap, incr}
use cs331_t011_kubernetes_se.Analysis.Scan.{FailedPair}

pub record Tallies : Type 0 where
  pub row_failures : GoMap ℕ
  pub col_failures : GoMap ℕ
  pub row_total : GoMap ℕ
  pub col_total : GoMap ℕ

abbrev pub no_tallies : Tallies
no_tallies = record { row_failures = []; col_failures = []; row_total = []; col_total = [] }

unfoldable pub count_ends : Option (Str × Str) → Tallies → Tallies
count_ends none t = t
count_ends (some (s, d)) t = record t {
  row_total = incr s t.row_total;
  col_total = incr d t.col_total;
}

unfoldable pub count_pairs {ℓ} : {V : Type ℓ} → List (Str × V) → Tallies → Tallies
count_pairs [] t = t
count_pairs ((key, _) ∷ m) t = count_pairs m (count_ends (split_arrow key) t)

unfoldable pub count_failed : List FailedPair → Tallies → Tallies
count_failed [] t = t
count_failed (fp ∷ rest) t = count_failed rest (record t {
  row_failures = incr fp.src t.row_failures;
  col_failures = incr fp.dst t.col_failures;
})
