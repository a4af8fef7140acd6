-- ===== src/Tests/Samples.antt =====
-- Matrices like those of code/contracts/fixtures, over fractions, and two orders of visiting.
use mathlib.Core.List.{reverse}
use mathlib.Core.List.Permᴰ
use cs331_t011_kubernetes_se.Common.{Bool, true, false, List, [], ◌∷◌, Permᴰ, ◌==◌}
use cs331_t011_kubernetes_se.Common.Int.{pos}
use cs331_t011_kubernetes_se.Go.Text.{Str, str}
use cs331_t011_kubernetes_se.Go.Maps.{MapOrder}
use cs331_t011_kubernetes_se.Contract.{ProbeResult, Matrix}
use cs331_t011_kubernetes_se.Analysis.Config.{Config}
use cs331_t011_kubernetes_se.Tests.Fractions.{Fraction}

abbrev pub as_listed : MapOrder
as_listed = record { visit = λ A place xs. xs; visit_perm = λ A place xs. Permᴰ.refl xs }

abbrev pub backwards : MapOrder
backwards = record { visit = λ A place xs. reverse xs; visit_perm = λ A place xs. Permᴰ.reverse xs }

-- Backwards in the loop for isolated nodes alone.
unfoldable pub turn_at_six : (A : Type 0) → Bool → List A → List A
turn_at_six A true xs = reverse xs
turn_at_six A false xs = xs

pub turn_at_six-perm : (A : Type 0) (b : Bool) (xs : List A) → Permᴰ (turn_at_six A b xs) xs
unfolding turn_at_six
turn_at_six-perm A true xs = Permᴰ.reverse xs
turn_at_six-perm A false xs = Permᴰ.refl xs

unfoldable pub late_turn : MapOrder
unfolding turn_at_six
late_turn = record {
  visit = λ A place xs. turn_at_six A (place == 6) xs;
  visit_perm = λ A place xs. turn_at_six-perm A (place == 6) xs;
}

abbrev pub zero_frac : Fraction
zero_frac = (0, 0)

abbrev pub result : Bool → Fraction → Str → Bool → ProbeResult Fraction
result success loss_rate error agent_error = record {
  success = success;
  loss_rate = loss_rate;
  rtt_millis = zero_frac;
  rtt_min_millis = zero_frac;
  rtt_max_millis = zero_frac;
  jitter_millis = zero_frac;
  burst_loss_max = pos 0;
  throughput_bps = zero_frac;
  bandwidth_bps = zero_frac;
  bytes_sent = pos 0;
  probe_count = pos 5;
  successful = pos 5;
  duration_millis = zero_frac;
  error = error;
  agent_error = agent_error;
}

abbrev pub good : ProbeResult Fraction
good = result true (0, 0) (str "") false

-- Two of five probes lost.
abbrev pub lossy : ProbeResult Fraction
lossy = result true (2, 4) (str "") false

abbrev pub lost : ProbeResult Fraction
lost = result false (1, 0) (str "i/o timeout") false

abbrev pub silent : ProbeResult Fraction
silent = result false (1, 0) (str "agent unreachable") true

abbrev pub cfg : Config Fraction
cfg = record {
  failure_threshold = pos 3;
  success_threshold = pos 2;
  confidence_floor = (80, 99);
  degraded_loss_threshold = (5, 99);
}

-- The six pairs of three nodes, in the order a->b, a->c, b->a, b->c, c->a, c->b.
abbrev pub mesh :
    ProbeResult Fraction
    → ProbeResult Fraction
    → ProbeResult Fraction
    → ProbeResult Fraction
    → ProbeResult Fraction
    → ProbeResult Fraction
    → Matrix Fraction
mesh ab ac ba bc ca cb =
    (str "a->b", ab)
    ∷ (str "a->c", ac)
    ∷ (str "b->a", ba)
    ∷ (str "b->c", bc)
    ∷ (str "c->a", ca)
    ∷ (str "c->b", cb)
    ∷ []

abbrev pub egress_matrix : Matrix Fraction
egress_matrix = mesh good good lost lost good good

abbrev pub isolated_matrix : Matrix Fraction
isolated_matrix = mesh lost good lost lost good lost

abbrev pub lossy_matrix : Matrix Fraction
lossy_matrix = mesh good lossy good good good good

abbrev pub silent_matrix : Matrix Fraction
silent_matrix = mesh good silent good good good good

-- Two nodes that cannot reach one another.
abbrev pub split_matrix : Matrix Fraction
split_matrix = (str "a->b", lost) ∷ (str "b->a", lost) ∷ []
