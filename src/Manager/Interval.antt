-- ===== src/Manager/Interval.antt =====
-- The interval between the manager's rounds, from the environment to the ticker.
use cs331_t011_kubernetes_se.Common.{
  ℕ, zero, suc, ◌*◌, ◌<◌, ◌≡◌, refl, ap, ◌∙◌, false, none, [], ◌∷◌, arith,
}
use cs331_t011_kubernetes_se.Common.Int.{ℤ, pos, int_limit, mul_int-pos}
use cs331_t011_kubernetes_se.Go.Text.{Str, str, is_empty, decimal}
use cs331_t011_kubernetes_se.Go.Text.Numbers.{
  atoi-decimal, decimal-BeginsWithDigit, BeginsWithDigit,
}
use cs331_t011_kubernetes_se.Controller.Sweep.{poll_interval}
use cs331_t011_kubernetes_se.Manager.{
  Environment, seconds_duration, positive_some, duration_or_seconds, duration_from_env, settings,
}

seconds_fit :
    (n : ℕ) → n * 1_000_000_000 < int_limit → seconds_duration (pos n) ≡ pos (n * 1_000_000_000)
unfolding seconds_duration
seconds_fit n small = mul_int-pos n 1_000_000_000 small

not_empty : (s : Str) → BeginsWithDigit s → is_empty s ≡ false
not_empty [] h = absurd h
not_empty (c ∷ s) h = refl

duration_of_digits :
    (env : Environment) (n : ℕ) (name : Str) (fallback : ℤ)
    → env.getenv name ≡ decimal (suc n)
    → env.parse_duration (decimal (suc n)) ≡ none
    → suc n < int_limit
    → duration_from_env env name fallback ≡ seconds_duration (pos (suc n))
unfolding duration_from_env positive_some duration_or_seconds
duration_of_digits env n name fallback same no_unit small =
    rw
      (
        same,
        not_empty (decimal (suc n)) (decimal-BeginsWithDigit (suc n)),
        no_unit,
        atoi-decimal (suc n) small,
      )
      refl

poll_interval-pos : (n : ℕ) → 0 < n → poll_interval (pos n) ≡ pos n
unfolding poll_interval
poll_interval-pos zero h = absurd (omega arith)
poll_interval-pos (suc n) h = refl

-- If `POLL_INTERVAL` is the text of a positive number of seconds below 2^63 / 10^9, which is no
-- duration as it has no unit, the ticker waits just as many seconds.
pub poll_interval-seconds :
    (env : Environment) (n : ℕ)
    → env.getenv (str "POLL_INTERVAL") ≡ decimal (suc n)
    → env.parse_duration (decimal (suc n)) ≡ none
    → suc n * 1_000_000_000 < int_limit
    → poll_interval (settings env).poll_interval ≡ pos (suc n * 1_000_000_000)
unfolding settings
poll_interval-seconds env n same no_unit small =
    let below : suc n < int_limit = omega arith in
    ap poll_interval (
      duration_of_digits env n (str "POLL_INTERVAL") (pos 15_000_000_000) same no_unit below
      ∙ seconds_fit (suc n) small)
    ∙ poll_interval-pos (suc n * 1_000_000_000) (omega arith)
