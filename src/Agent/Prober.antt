-- ===== src/Agent/Prober.antt =====
-- code/pkg/prober.go, `ExecuteProbe`.
pub mod Counts
pub mod Answered
pub mod Extremes
pub mod Durations
use cs331_t011_kubernetes_se.Common.{
  ℕ, zero, suc, ◌+◌, ◌-◌, ◌^◌, ◌≡◌, Bool, true, false, ◌&&◌, Option, none, some, List, [], ◌∷◌,
  ◌++◌, ltb, leb, ◌==◌, if◌then◌else◌,
}
use cs331_t011_kubernetes_se.Common.Int.{
  ℤ, pos, negsuc, pos_part, is_nonpos, ltb_ℤ, add_int, sub_int, div_int,
}
use cs331_t011_kubernetes_se.Go.Text.{Str, str, str_eq}
use cs331_t011_kubernetes_se.Go.Floats.{Floats, quot}
use cs331_t011_kubernetes_se.Contract.{ProbeResult}
use cs331_t011_kubernetes_se.Agent.Options.{ProbeOptions}
use cs331_t011_kubernetes_se.Agent.Attempt.{Exchange, Attempt, probe_tcp, after_write}

-- The variables of the loop. The three counts are of rounds, at most `opts.Count`.
pub record Progress : Type 0 where
  pub successes : ℕ
  pub total_rtt : ℤ
  pub total_bytes : ℤ
  pub last_error : Option Str
  pub rtts : List ℤ
  pub burst : ℕ
  pub max_burst : ℕ

abbrev pub no_progress : Progress
no_progress = record {
  successes = 0;
  total_rtt = pos 0;
  total_bytes = pos 0;
  last_error = none;
  rtts = [];
  burst = 0;
  max_burst = 0;
}

-- The end of the loop's body.
unfoldable pub record_attempt : Attempt → Option Str → Progress → Progress
record_attempt a none p = record p {
  successes = suc p.successes;
  total_rtt = add_int p.total_rtt a.rtt;
  total_bytes = add_int p.total_bytes a.bytes;
  rtts = p.rtts ++ a.rtt ∷ [];
  burst = 0;
}
record_attempt a (some err) p = record p {
  last_error = some err;
  burst = suc p.burst;
  max_burst = if ltb p.max_burst (suc p.burst) then suc p.burst else p.max_burst;
}

unfoldable pub attempt_for : ProbeOptions → Exchange → Attempt
attempt_for opts e =
    if str_eq opts.probetype (str "tcp") then probe_tcp e opts.payload_bytes else record {
      rtt = pos 0;
      bytes = pos 0;
      failure = some (str "unsupported probe type: " ++ opts.probetype);
    }

-- The context's state and the network's behaviour in round `i`.
pub record Rounds : Type 0 where
  pub is_done : ℕ → Bool
  pub exchange : ℕ → Exchange

-- How the loop ends: cancelled in a round, with the successes so far, or with all rounds done.
pub data LoopEnd : Type 0 where
  cancelled : ℕ → ℕ → LoopEnd
  finished : Progress → LoopEnd

-- The loop from round `i`, with the rounds that are left.
unfoldable pub probe_loop : ProbeOptions → Rounds → ℕ → ℕ → Progress → LoopEnd
probe_loop opts env zero i p = finished p
probe_loop opts env (suc left) i p =
    let a = attempt_for opts (env.exchange i) in
    let rest = probe_loop opts env left (suc i) (record_attempt a a.failure p) in
    if env.is_done i then cancelled i p.successes else rest

unfoldable pub smallest : ℤ → List ℤ → ℤ
smallest least [] = least
smallest least (rtt ∷ rtts) = smallest (if ltb_ℤ rtt least then rtt else least) rtts

unfoldable pub largest : ℤ → List ℤ → ℤ
largest most [] = most
largest most (rtt ∷ rtts) = largest (if ltb_ℤ most rtt then rtt else most) rtts

-- `opts.Count`, at least 1.
unfoldable pub round_count : ProbeOptions → ℕ
round_count opts = if is_nonpos opts.count then 1 else pos_part opts.count

unfoldable pub error_text : Option Str → Str
error_text none = []
error_text (some err) = err

-- `opts.PayloadBytes`, 1024 where it is not positive.
unfoldable pub with_payload : ProbeOptions → ProbeOptions
with_payload opts = record opts {
  payload_bytes = if is_nonpos opts.payload_bytes then pos 1024 else opts.payload_bytes;
}

module _ (fl : Floats) where
  -- `float64(d.Microseconds()) / 1000.0`
  unfoldable pub millis : ℤ → fl.F
  millis d = fl.fdiv (fl.of_int (div_int d 1000)) (fl.lit 1000 0)

  -- The loop over the times that sums the squared distances from the average.
  unfoldable pub variance : ℤ → List ℤ → fl.F → fl.F
  variance avg [] sum = sum
  variance avg (rtt ∷ rtts) sum =
      let delta = millis (sub_int rtt avg) in variance avg rtts (fl.fadd sum (fl.fmul delta delta))

  -- The times of a round without a success are zero.
  pub record Times : Type 0 where
    pub avg : fl.F
    pub least : fl.F
    pub most : fl.F
    pub jitter : fl.F

  unfoldable pub average_rtt : Progress → ℤ
  average_rtt p = div_int p.total_rtt p.successes

  unfoldable pub times_of : Progress → List ℤ → Times
  times_of p [] = record {
    avg = fl.lit 0 0;
    least = fl.lit 0 0;
    most = fl.lit 0 0;
    jitter = fl.lit 0 0;
  }
  times_of p (rtt ∷ rtts) = record {
    avg = millis (average_rtt p);
    least = millis (smallest rtt (rtt ∷ rtts));
    most = millis (largest rtt (rtt ∷ rtts));
    jitter = fl.fsqrt (
        fl.fdiv (variance (average_rtt p) (rtt ∷ rtts) (fl.lit 0 0)) (fl.of_int (pos p.successes)));
  }

  unfoldable pub throughput : ℤ → fl.F → fl.F
  throughput total_bytes duration =
      if fl.flt (fl.lit 0 0) duration
      then fl.fdiv (fl.of_int total_bytes) (fl.fdiv duration (fl.lit 1000 0))
      else fl.lit 0 0

  -- The result of a cancelled loop; the fields that it leaves out are zero.
  unfoldable pub cancelled_result : ℕ → ℕ → ℕ → ProbeResult fl.F
  cancelled_result count i successes = record {
    success = false;
    loss_rate = fl.lit 1 0;
    rtt_millis = fl.lit 0 0;
    rtt_min_millis = fl.lit 0 0;
    rtt_max_millis = fl.lit 0 0;
    jitter_millis = fl.lit 0 0;
    burst_loss_max = pos (count - i);
    throughput_bps = fl.lit 0 0;
    bandwidth_bps = fl.lit 0 0;
    bytes_sent = pos 0;
    probe_count = pos count;
    successful = pos successes;
    duration_millis = fl.lit 0 0;
    error = str "probe context cancelled or timed out";
    agent_error = true;
  }

  unfoldable pub loss_rate_of : ℕ → Progress → fl.F
  loss_rate_of count p = quot fl (count - p.successes) count

  unfoldable pub finished_result : ℕ → ℤ → Progress → ProbeResult fl.F
  finished_result count duration p =
      let times = times_of p p.rtts in
      let rate = throughput p.total_bytes (millis duration) in
      record {
        success = ltb 0 p.successes && fl.flt (loss_rate_of count p) (fl.lit 1 0);
        loss_rate = loss_rate_of count p;
        rtt_millis = times.avg;
        rtt_min_millis = times.least;
        rtt_max_millis = times.most;
        jitter_millis = times.jitter;
        burst_loss_max = pos p.max_burst;
        throughput_bps = rate;
        bandwidth_bps = rate;
        bytes_sent = p.total_bytes;
        probe_count = pos count;
        successful = pos p.successes;
        duration_millis = millis duration;
        error = error_text p.last_error;
        agent_error = false;
      }

  unfoldable pub end_result : ℕ → ℤ → LoopEnd → ProbeResult fl.F
  end_result count duration (cancelled i successes) = cancelled_result count i successes
  end_result count duration (finished p) = finished_result count duration p

  -- `duration` is the time since the start at the end of the loop.
  unfoldable pub execute_probe : ProbeOptions → Rounds → ℤ → ProbeResult fl.F
  execute_probe opts env duration =
      let count = round_count opts in
      end_result count duration (probe_loop (with_payload opts) env count 0 no_progress)
