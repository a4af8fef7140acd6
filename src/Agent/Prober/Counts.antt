-- ===== src/Agent/Prober/Counts.antt =====
-- What the counts of a probe say.
use cs331_t011_kubernetes_se.Common.{
  ℕ, zero, suc, ◌+◌, ◌-◌, ◌≤◌, ◌<◌, ◌≡◌, refl, ap, inl, inr, Bool, true, false, ◌&&◌, Option, none,
  some, List, [], ◌∷◌, arith, ltb, length, length-append, count_if, Bool-cases,
}
use Prim.Native.Nat.{max}
use cs331_t011_kubernetes_se.Common.Int.{ℤ, pos}
use cs331_t011_kubernetes_se.Go.Text.{Str}
use cs331_t011_kubernetes_se.Go.Floats.{Floats, FloatLaws, share-lt-one, quot, quot_limit}
use cs331_t011_kubernetes_se.Agent.Options.{ProbeOptions}
use cs331_t011_kubernetes_se.Agent.Attempt.{Attempt}
use cs331_t011_kubernetes_se.Agent.Prober.{
  Progress, no_progress, record_attempt, attempt_for, Rounds, cancelled, finished, probe_loop,
  round_count, with_payload, execute_probe, end_result, cancelled_result, finished_result,
  loss_rate_of,
}

-- Does the attempt of a round succeed?
abbrev pub round_ok : ProbeOptions → Rounds → ℕ → Bool
round_ok opts env i = elim (attempt_for opts (env.exchange i)).failure [
  | none ↦ true
  | some err ↦ false
]

-- The outcomes of `n` rounds from the i-th.
abbrev pub outcomes : ProbeOptions → Rounds → ℕ → ℕ → List Bool
outcomes opts env zero i = []
outcomes opts env (suc n) i = round_ok opts env i ∷ outcomes opts env n (suc i)

abbrev pub successes_in : List Bool → ℕ
successes_in xs = count_if (λ b. b) xs

-- The failures before the first success, and the longest row of failures anywhere.
abbrev pub leading_failures : List Bool → ℕ
leading_failures [] = 0
leading_failures (true ∷ xs) = 0
leading_failures (false ∷ xs) = suc (leading_failures xs)

abbrev pub longest_burst : List Bool → ℕ
longest_burst [] = 0
longest_burst (b ∷ xs) = max (leading_failures (b ∷ xs)) (longest_burst xs)

abbrev pub NeverDone : Rounds → ℕ → ℕ → Type 0
NeverDone env zero i = Unit
NeverDone env (suc n) i = (env.is_done i ≡ false) × NeverDone env n (suc i)

leading-le-longest : (xs : List Bool) → leading_failures xs ≤ longest_burst xs
leading-le-longest [] = omega arith
leading-le-longest (b ∷ xs) = omega arith

successes_in-le :
    (opts : ProbeOptions) (env : Rounds) (n i : ℕ) → successes_in (outcomes opts env n i) ≤ n
successes_in-le opts env zero i = omega arith
successes_in-le opts env (suc n) i = ground (arith, successes_in-le opts env n (suc i))

pub round_count_pos : (opts : ProbeOptions) → 0 < round_count opts
unfolding round_count
round_count_pos opts = ground arith

-- The loop's variables after `n` rounds with the outcomes `xs`, from `p`.
record Counted (p : Progress) (xs : List Bool) (q : Progress) : Type 0 where
  successes : q.successes ≡ p.successes + successes_in xs
  times : length q.rtts ≡ length p.rtts + successes_in xs
  max_burst : q.max_burst ≡ max p.max_burst (max (p.burst + leading_failures xs) (longest_burst xs))

record_attempt-Counted :
    (a : Attempt) (o : Option Str) (p : Progress) (xs : List Bool) (q : Progress)
    → p.burst ≤ p.max_burst
    → Counted (record_attempt a o p) xs q
    → Counted p ((elim o [ none ↦ true | some err ↦ false ]) ∷ xs) q
unfolding record_attempt
record_attempt-Counted a none p xs q fits c = record {
  successes = ground (arith, c.successes);
  times = ground (arith, c.times, length-append p.rtts (a.rtt ∷ []));
  max_burst = ground (arith, c.max_burst, leading-le-longest xs);
}
record_attempt-Counted a (some err) p xs q fits c = record {
  successes = ground (arith, c.successes);
  times = ground (arith, c.times);
  max_burst = ground (arith, c.max_burst);
}

burst_fits :
    (a : Attempt) (o : Option Str) (p : Progress)
    → p.burst ≤ p.max_burst
    → (record_attempt a o p).burst ≤ (record_attempt a o p).max_burst
unfolding record_attempt
burst_fits a none p h = omega arith
burst_fits a (some err) p h = ground arith

-- A loop that is never cancelled does all its rounds.
probe_loop-Counted :
    (opts : ProbeOptions) (env : Rounds) (n i : ℕ) (p : Progress)
    → p.burst ≤ p.max_burst
    → NeverDone env n i
    → (q : Progress) × (probe_loop opts env n i p ≡ finished q)
      × Counted p (outcomes opts env n i) q
unfolding probe_loop
probe_loop-Counted opts env zero i p fits never =
    (p, refl, record { successes = omega arith; times = omega arith; max_burst = omega arith })
probe_loop-Counted opts env (suc n) i p fits never =
    let a = attempt_for opts (env.exchange i) in
    let (q, done, c) =
      probe_loop-Counted opts env n (suc i) (record_attempt a a.failure p)
        (burst_fits a a.failure p fits) never.1 in
    (q, rw never.0 done, record_attempt-Counted a a.failure p _ q fits c)

-- A loop that is cancelled in some round stops in the first such round.
probe_loop_cancelled :
    (opts : ProbeOptions) (env : Rounds) (n i : ℕ) (p : Progress)
    → (NeverDone env n i → ⊥)
    → (j : ℕ) × (s : ℕ) × (probe_loop opts env n i p ≡ cancelled j s)
      × (i ≤ j)
      × (j < i + n)
      × (env.is_done j ≡ true)
unfolding probe_loop
probe_loop_cancelled opts env zero i p some_done = absurd (some_done tt)
probe_loop_cancelled opts env (suc n) i p some_done = elim (Bool-cases (env.is_done i)) [
  | inl e ↦ (i, p.successes, rw e, omega arith, omega arith, e)
  | inr e ↦
      let a = attempt_for opts (env.exchange i) in
      let (j, s, stop, low, high, at) =
        probe_loop_cancelled opts env n (suc i) (record_attempt a a.failure p)
          (λ later. some_done (e, later)) in
      (j, s, rw e stop, omega arith, omega arith, at)
]

-- The second half of the success test adds nothing to the first.
whole_lem : (n : ℕ) (b : Bool) → (0 < n → b ≡ true) → (ltb 0 n && b) ≡ ltb 0 n
whole_lem zero b h = refl
whole_lem (suc n) b h = rw (h (omega arith)) (ground arith)

-- The outcomes of all the rounds of a probe.
abbrev pub results : ProbeOptions → Rounds → List Bool
results opts env = outcomes (with_payload opts) env (round_count opts) 0

module _ {fl : Floats} (laws : FloatLaws fl) (opts : ProbeOptions) (env : Rounds)
    (duration : ℤ) where
  -- Where the context lives to the end, and there are fewer than 2^26 rounds, the report counts
  -- every round: the successes, the share of failures, the longest row of failures; and the probe
  -- succeeds exactly if some round did.
  pub execute_probe_finished :
      (round_count opts) < quot_limit
      → NeverDone env (round_count opts) 0
      → let r = execute_probe fl opts env duration in
        (r.probe_count ≡ pos (round_count opts))
        × (r.successful ≡ pos (successes_in (results opts env)))
        × (r.burst_loss_max ≡ pos (longest_burst (results opts env)))
        × (r.loss_rate
            ≡ quot fl ((round_count opts) - successes_in (results opts env)) (round_count opts))
        × (r.success ≡ ltb 0 (successes_in (results opts env)))
        × (r.agent_error ≡ false)
  unfolding execute_probe
  execute_probe_finished small never =
      let (q, done, c) =
        probe_loop-Counted (with_payload opts) env (round_count opts) 0 no_progress (omega arith)
          never in
      let s : q.successes ≡ successes_in (results opts env) = omega (arith, c.successes) in
      let b : q.max_burst ≡ longest_burst (results opts env) =
        omega (arith, c.max_burst, leading-le-longest (results opts env)) in
      let below : 0 < successes_in (results opts env)
          → fl.flt
              (quot fl ((round_count opts) - successes_in (results opts env)) (round_count opts))
              (fl.lit 1 0)
            ≡ true =
        λ some_ok. share-lt-one laws _ _ (omega (arith, round_count_pos opts)) small in
      rw done (
        unfold end_result finished_result loss_rate_of in
        (
          refl,
          ap pos s,
          ap pos b,
          ap (λ n. quot fl ((round_count opts) - n) (round_count opts)) s,
          rw s (whole_lem _ _ below),
          refl,
        ))

  -- Where the context is done before some round, the report is a failed agent error, and its burst
  -- is the number of rounds from one on before which the context was done.
  pub execute_probe_cancelled :
      (NeverDone env (round_count opts) 0 → ⊥)
      → let r = execute_probe fl opts env duration in
        (j : ℕ) × (j < (round_count opts))
        × (env.is_done j ≡ true)
        × (r.success ≡ false)
        × (r.agent_error ≡ true)
        × (r.burst_loss_max ≡ pos ((round_count opts) - j))
  unfolding execute_probe
  execute_probe_cancelled some_done =
      let (j, s, stop, low, high, at) =
        probe_loop_cancelled (with_payload opts) env (round_count opts) 0 no_progress some_done in
      (
        j,
        omega arith,
        at,
        rw stop (unfold end_result cancelled_result in refl),
        rw stop (unfold end_result cancelled_result in refl),
        rw stop (unfold end_result cancelled_result in refl),
      )
