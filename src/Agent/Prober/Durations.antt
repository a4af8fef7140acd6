-- ===== src/Agent/Prober/Durations.antt =====
-- The least, the average and the greatest time of a probe.
use mathlib.Core.Path.{subst}
use native.Mathlib.Nat.{div-le_of_le-mul}
use cs331_t011_kubernetes_se.Common.{
  ℕ, zero, suc, ◌+◌, ◌*◌, ◌/◌, ◌≤◌, ◌<◌, ◌≡◌, refl, sym, ap, ap₂, ◌∙◌, true, Option, none, some,
  List, [], ◌∷◌, ◌++◌, map, arith, length, length-append, All,
}
use cs331_t011_kubernetes_se.Common.Int.{ℤ, pos, add_int, add_int-pos, div_int, int_limit}
use cs331_t011_kubernetes_se.Go.Text.{Str}
use cs331_t011_kubernetes_se.Go.Floats.{Floats, FloatLaws, quot_limit}
use cs331_t011_kubernetes_se.Agent.Options.{ProbeOptions}
use cs331_t011_kubernetes_se.Agent.Attempt.{Exchange, Attempt, after_write, probe_tcp}
use cs331_t011_kubernetes_se.Agent.Prober.{
  Progress, no_progress, record_attempt, attempt_for, Rounds, finished, probe_loop, round_count,
  with_payload, millis, average_rtt, Times, times_of, end_result, finished_result, execute_probe,
}
use cs331_t011_kubernetes_se.Agent.Prober.Extremes.{
  time_limit, sum, sum-append, sum-le, smallest-pos, largest-pos, least_bounds, most_bounds,
  div_between, short-most,
}
use cs331_t011_kubernetes_se.Agent.Prober.Counts.{NeverDone}

All-snoc :
    (ts : List ℕ) (t : ℕ)
    → All (λ k. k < time_limit) ts
    → t < time_limit
    → All (λ k. k < time_limit) (ts ++ t ∷ [])
All-snoc [] t h k = (k, tt)
All-snoc (u ∷ ts) t h k = (h.0, All-snoc ts t h.1 k)

map-snoc : (ts : List ℕ) (t : ℕ) → map pos (ts ++ t ∷ []) ≡ map pos ts ++ pos t ∷ []
map-snoc [] t = refl
map-snoc (u ∷ ts) t = ap (λ r. pos u ∷ r) (map-snoc ts t)

-- The loop's variables after the successful rounds took these times.
record Timed (p : Progress) (ts : List ℕ) : Type 0 where
  rtts : p.rtts ≡ map pos ts
  total : p.total_rtt ≡ pos (sum ts)
  successes : p.successes ≡ length ts
  short : All (λ t. t < time_limit) ts

record_attempt-Timed :
    (a : Attempt) (p : Progress) (ts : List ℕ) (t : ℕ)
    → a.rtt ≡ pos t
    → t < time_limit
    → length ts < quot_limit
    → Timed p ts
    → Timed (record_attempt a none p) (ts ++ t ∷ [])
unfolding record_attempt
record_attempt-Timed a p ts t took short few timed =
    let below : sum ts + t < int_limit = unfold int_limit in omega (arith, sum-le ts timed.short) in
    record {
      rtts = ap₂ (λ r x. r ++ x ∷ []) timed.rtts took ∙ sym (map-snoc ts t);
      total =
          ap₂ add_int timed.total took
          ∙ add_int-pos (sum ts) t below
          ∙ ap pos (omega (arith, sum-append ts (t ∷ [])));
      successes = omega (arith, timed.successes, length-append {0} ts (t ∷ []));
      short = All-snoc ts t timed.short short;
    }

attempt_rtt :
    (opts : ProbeOptions) (e : Exchange) (t : ℕ)
    → e.elapsed ≡ pos t
    → (attempt_for opts e).failure ≡ none
    → (attempt_for opts e).rtt ≡ pos t
unfolding attempt_for probe_tcp after_write
attempt_rtt opts e t took ok = ground arith

-- Every round's time is one of the clock's and short.
abbrev pub IsShort : Rounds → Type 0
IsShort env = (i : ℕ) → (t : ℕ) × ((env.exchange i).elapsed ≡ pos t) × (t < time_limit)

any_attempt-Timed :
    (a : Attempt) (o : Option Str) (p : Progress) (ts : List ℕ) (t : ℕ)
    → (o ≡ none → a.rtt ≡ pos t)
    → t < time_limit
    → length ts < quot_limit
    → Timed p ts
    → (us : List ℕ) × Timed (record_attempt a o p) us × (length us ≤ suc (length ts))
any_attempt-Timed a none p ts t took short few timed = (
  ts ++ t ∷ [],
  record_attempt-Timed a p ts t (took refl) short few timed,
  omega (arith, length-append {0} ts (t ∷ [])),
)
any_attempt-Timed a (some err) p ts t took short few timed = (
  ts,
  unfold record_attempt in
      record {
        rtts = timed.rtts;
        total = timed.total;
        successes = timed.successes;
        short = timed.short;
      },
  omega arith,
)

probe_loop-Timed :
    (opts : ProbeOptions) (env : Rounds)
    → IsShort env
    → (n i : ℕ) (p : Progress) (ts : List ℕ) → length ts + n < quot_limit
    → NeverDone env n i
    → Timed p ts
    → (q : Progress) × (us : List ℕ) × (probe_loop opts env n i p ≡ finished q) × Timed q us
unfolding probe_loop
probe_loop-Timed opts env short zero i p ts few never timed = (p, ts, refl, timed)
probe_loop-Timed opts env short (suc n) i p ts few never timed =
    let a = attempt_for opts (env.exchange i) in
    let (t, took, low) = short i in
    let (us, next, many) =
      any_attempt-Timed a a.failure p ts t (attempt_rtt opts (env.exchange i) t took) low
        (omega arith) timed in
    let (q, vs, done, timed') =
      probe_loop-Timed opts env short n (suc i) (record_attempt a a.failure p) us (omega arith)
        never.1 next in
    (q, vs, rw never.0 done, timed')

module _ {fl : Floats} (laws : FloatLaws fl) where
  -- Whole microseconds keep their order as floats.
  millis_mono :
      (a b : ℕ)
      → a / 1000 ≤ b / 1000
      → b < time_limit
      → fl.fle (millis fl (pos a)) (millis fl (pos b)) ≡ true
  unfolding millis div_int
  millis_mono a b low short =
      rw (laws.lit_thousand, millis)
        ((laws.quot_le (a / 1000) 1000 (b / 1000) 1000 (omega arith) (omega arith) (omega arith)
            (omega arith) (omega arith) (omega arith)).1
          (omega arith))

  abbrev Ordered : Times fl → Type 0
  Ordered t = (fl.fle t.least t.avg ≡ true) × (fl.fle t.avg t.most ≡ true)

  average_rtt-Timed :
      (p : Progress) (ts : List ℕ) → Timed p ts → average_rtt fl p ≡ pos (sum ts / length ts)
  unfolding average_rtt div_int
  average_rtt-Timed p ts timed = ap₂ div_int timed.total timed.successes

  ordered_at :
      (l s n g : ℕ)
      → 0 < n
      → n * l ≤ s
      → s ≤ n * g
      → g < time_limit
      → (fl.fle (millis fl (pos l)) (millis fl (pos (s / n))) ≡ true)
        × (fl.fle (millis fl (pos (s / n))) (millis fl (pos g)) ≡ true)
  ordered_at l s n g positive low high short =
      let (below, above) = div_between l s n g positive low high in
      let mean : s / n ≤ g = div-le_of_le-mul n high in
      (millis_mono l (s / n) below (omega arith), millis_mono (s / n) g above short)

  zero_ordered : fl.fle (fl.lit 0 0) (fl.lit 0 0) ≡ true
  zero_ordered = laws.le_trans _ _ _ laws.lit_zero.0 laws.lit_zero.1

  times_of-Ordered :
      (p : Progress) (ts : List ℕ) → Timed p ts → Ordered (times_of fl p (map pos ts))
  unfolding times_of
  times_of-Ordered p [] timed = (zero_ordered, zero_ordered)
  times_of-Ordered p (t ∷ ts) timed =
      rw (average_rtt-Timed p (t ∷ ts) timed, smallest-pos t (t ∷ ts), largest-pos t (t ∷ ts))
        (ordered_at _ (sum (t ∷ ts)) (length (t ∷ ts)) _ (omega arith) (least_bounds t (t ∷ ts)).1
          (most_bounds t (t ∷ ts)).1 (short-most t (t ∷ ts) timed.short.0 timed.short))

  -- Where the context lives to the end, there are fewer than 2^26 rounds, and each takes less than
  -- 2^26 microseconds, the least time of the report is not above the average and this is not above
  -- the greatest, as floats.
  pub execute_probe-ordered :
      (opts : ProbeOptions) (env : Rounds) (duration : ℤ)
      → round_count opts < quot_limit
      → NeverDone env (round_count opts) 0
      → IsShort env
      → let r = execute_probe fl opts env duration in
        (fl.fle r.rtt_min_millis r.rtt_millis ≡ true)
        × (fl.fle r.rtt_millis r.rtt_max_millis ≡ true)
  unfolding execute_probe
  execute_probe-ordered opts env duration few never short =
      let start : Timed no_progress [] = record {
        rtts = refl;
        total = refl;
        successes = refl;
        short = tt;
      } in
      let (q, us, done, timed) =
        probe_loop-Timed (with_payload opts) env short (round_count opts) 0 no_progress []
          (omega arith) never start in
      let ordered =
        subst (λ l. Ordered (times_of fl q l)) (sym timed.rtts) (times_of-Ordered q us timed) in
      rw done (unfold end_result finished_result in ordered)
