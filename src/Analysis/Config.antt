-- ===== src/Analysis/Config.antt =====
-- code/pkg/analysis/config.go
use cs331_t011_kubernetes_se.Common.Int.{ℤ, pos}
use cs331_t011_kubernetes_se.Go.Floats.{Floats}

pub record Config (F : Type 0) : Type 0 where
  pub failure_threshold : ℤ
  pub success_threshold : ℤ
  pub confidence_floor : F
  pub degraded_loss_threshold : F

module _ (fl : Floats) where
  unfoldable pub default_degraded_loss_threshold : fl.F
  default_degraded_loss_threshold = fl.lit 5 2

  unfoldable pub default_config : Config fl.F
  unfolding default_degraded_loss_threshold
  default_config = record {
    failure_threshold = pos 3;
    success_threshold = pos 2;
    confidence_floor = fl.lit 80 2;
    degraded_loss_threshold = default_degraded_loss_threshold;
  }
