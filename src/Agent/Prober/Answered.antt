-- ===== src/Agent/Prober/Answered.antt =====
-- A probe in which the network answers every round.
use cs331_t011_kubernetes_se.Common.{
  ℕ, zero, suc, ◌-◌, ◌<◌, ◌≡◌, refl, ap, ◌∙◌, true, false, none, arith, ltb,
}
use cs331_t011_kubernetes_se.Common.Int.{ℤ}
use cs331_t011_kubernetes_se.Go.Text.{str, str_eq, str_eq_refl}
use cs331_t011_kubernetes_se.Go.Floats.{Floats, FloatLaws, quot, quot_limit}
use cs331_t011_kubernetes_se.Agent.Options.{ProbeOptions}
use cs331_t011_kubernetes_se.Agent.Attempt.{Exchange, after_write, probe_tcp}
use cs331_t011_kubernetes_se.Agent.Prober.{
  Rounds, attempt_for, round_count, with_payload, execute_probe,
}
use cs331_t011_kubernetes_se.Agent.Prober.Counts.{
  round_ok, outcomes, round_count_pos, successes_in, NeverDone, execute_probe_finished,
}

-- The context lives on, and no call of the round fails.
abbrev pub AllAnswered : Rounds → Type 0
AllAnswered env =
    (i : ℕ)
    → (env.is_done i ≡ false)
      × ((env.exchange i).dial_error ≡ none)
      × ((env.exchange i).write_error ≡ none)
      × ((env.exchange i).ack_error ≡ none)

probe_tcp-answered :
    (e : Exchange) (payload_bytes : ℤ)
    → e.dial_error ≡ none
    → e.write_error ≡ none
    → e.ack_error ≡ none
    → (probe_tcp e payload_bytes).failure ≡ none
unfolding probe_tcp after_write
probe_tcp-answered e payload_bytes dial write ack = rw dial (ground (arith, write, ack))

module _ (env : Rounds) (answered : AllAnswered env) where
  all-NeverDone : (n i : ℕ) → NeverDone env n i
  all-NeverDone zero i = tt
  all-NeverDone (suc n) i = ((answered i).0, all-NeverDone n (suc i))

  round_ok-answered :
      (opts : ProbeOptions) (i : ℕ) → opts.probetype ≡ str "tcp" → round_ok opts env i ≡ true
  unfolding attempt_for
  round_ok-answered opts i tcp =
      let (_, dial, write, ack) = answered i in
      let is_tcp = ap (λ t. str_eq t (str "tcp")) tcp ∙ str_eq_refl (str "tcp") in
      let ok = probe_tcp-answered (env.exchange i) opts.payload_bytes dial write ack in
      rw (is_tcp, round_ok) (rw ok refl)

  outcomes-answered :
      (opts : ProbeOptions) (n i : ℕ)
      → opts.probetype ≡ str "tcp"
      → successes_in (outcomes opts env n i) ≡ n
  outcomes-answered opts zero i tcp = refl
  outcomes-answered opts (suc n) i tcp =
      rw (round_ok-answered opts i tcp) (omega (arith, outcomes-answered opts n (suc i) tcp))

  -- A TCP probe in which the network answers every round, and there are fewer than 2^26 rounds,
  -- succeeds without loss.
  pub execute_probe-answered :
      {fl : Floats}
      → FloatLaws fl
      → (opts : ProbeOptions) (duration : ℤ) → opts.probetype ≡ str "tcp"
      → round_count opts < quot_limit
      → let r = execute_probe fl opts env duration in
        (r.success ≡ true) × (r.agent_error ≡ false) × (r.loss_rate ≡ quot fl 0 (round_count opts))
  unfolding with_payload
  execute_probe-answered {fl} laws opts duration tcp small =
      let n = round_count opts in
      let (_, _, _, loss, success, clean) =
        execute_probe_finished laws opts env duration small (all-NeverDone n 0) in
      let all_ok = outcomes-answered (with_payload opts) n 0 tcp in
      (
        success ∙ ap (λ k. ltb 0 k) all_ok ∙ some_round n (round_count_pos opts),
        clean,
        loss ∙ ap (λ k. quot fl (n - k) n) all_ok ∙ ap (λ k. quot fl k n) (none_left n),
      )
    where
      some_round : (k : ℕ) → 0 < k → ltb 0 k ≡ true
      some_round k h = ground arith

      none_left : (k : ℕ) → k - k ≡ 0
      none_left k = omega arith
