-- ===== src/System/Limits.antt =====
-- The time that the operator gives to a request, beside what the agent reads of it.
use cs331_t011_kubernetes_se.Common.{
  ℕ, Option, zero, suc, ◌+◌, ◌*◌, ◌<◌, ◌≡◌, refl, sym, ap, ap₂, ◌∙◌, some, arith, if◌then◌else◌,
}
use mathlib.Core.Option.{some-injective}
use mathlib.Core.Path.{subst}
use cs331_t011_kubernetes_se.Common.Int.{
  ℤ, pos, negsuc, is_nonpos, int_limit, add_int, mul_int, add_int-pos, mul_int-pos,
}
use cs331_t011_kubernetes_se.Go.Text.{Str}
use cs331_t011_kubernetes_se.Agent.Options.{ProbeOptions, parse_probe_options}
use cs331_t011_kubernetes_se.Agent.Prober.{round_count}
use cs331_t011_kubernetes_se.Controller.Probe.{
  Formats, ProbeCall, positive_else, probe_url, request_limit, client_limit,
}
use cs331_t011_kubernetes_se.System.{Wire, Delivers}
use cs331_t011_kubernetes_se.System.Url.{IsCall, ReadsTimeout, options_of, parse-probe_url}

-- One second, in nanoseconds.
abbrev pub second : ℕ
second = 1_000_000_000

-- The number of rounds of a call.
rounds_of : (c : ProbeCall) → (n : ℕ) × (positive_else c.count (pos 5) ≡ pos (suc n))
unfolding positive_else
rounds_of c = go c.count
  where
    go : (m : ℤ) → (n : ℕ) × ((if is_nonpos m then pos 5 else m) ≡ pos (suc n))
    go (pos zero) = (4, refl)
    go (pos (suc m)) = (m, refl)
    go (negsuc m) = (4, refl)

round_count_lem :
    (c : ProbeCall) (n : ℕ)
    → positive_else c.count (pos 5) ≡ pos (suc n)
    → round_count (options_of c) ≡ suc n
unfolding options_of round_count
round_count_lem c n e = rw e refl

limit_lem :
    (c : ProbeCall) (t n : ℕ)
    → c.timeout ≡ pos t
    → positive_else c.count (pos 5) ≡ pos n
    → t * n + 2 * second < int_limit
    → (request_limit c ≡ pos (t * n + second)) × (client_limit c ≡ pos (t * n + 2 * second))
unfolding request_limit client_limit
limit_lem c t n timeout count fits =
    let product = ap₂ mul_int timeout count ∙ mul_int-pos t n (omega arith) in
    (
      ap (λ z. add_int z (pos second)) product ∙ add_int-pos (t * n) second (omega arith),
      ap (λ z. add_int z (pos (2 * second))) product ∙ add_int-pos (t * n) (2 * second) fits,
    )

-- The options are those that the agent reads from the operator's URL for a call as in
-- `parse-probe_url`. Where the timeout in them times the number of rounds that the agent's probe
-- then makes, and two seconds more, fit in 63 bits of nanoseconds, the request's limit is this
-- product and one second, and that of the client the product and two seconds.
pub request_limit_lem :
    {F : Type 0} (formats : Formats) (parse_duration : Str → Option ℤ) (c : ProbeCall) (host : Str)
    → IsCall c host
    → ReadsTimeout formats parse_duration c.timeout
    → (wire : Wire F) → Delivers wire
    → (opts : ProbeOptions) (t : ℕ)
    → parse_probe_options parse_duration (wire.value_of (probe_url formats c)) ≡ some opts
    → opts.timeout ≡ pos t
    → t * round_count opts + 2 * second < int_limit
    → (request_limit c ≡ pos (t * round_count opts + second))
      × (client_limit c ≡ pos (t * round_count opts + 2 * second))
unfolding options_of
request_limit_lem formats parse_duration c host call reads wire law opts t read timeout fits =
    let same : opts ≡ options_of c =
      some-injective opts (options_of c)
        (sym read ∙ parse-probe_url formats parse_duration c host call reads wire law) in
    let (n, count) = rounds_of c in
    let rounds = ap round_count same ∙ round_count_lem c n count in
    let time : c.timeout ≡ pos t = sym (ap (λ (o : ProbeOptions). o.timeout) same) ∙ timeout in
    subst
      (λ k. (request_limit c ≡ pos (t * k + second)) × (client_limit c ≡ pos (t * k + 2 * second)))
      (sym rounds)
      (limit_lem c t (suc n) time count (subst (λ k. t * k + 2 * second < int_limit) rounds fits))
