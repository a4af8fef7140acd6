-- ===== src/System/Url.antt =====
-- The options that an agent reads from a request are those that the operator has put into it.
use mathlib.Core.List.{append_assoc}
use mathlib.Core.Path.{fun_ext}
use cs331_t011_kubernetes_se.Common.{
  ℕ, zero, suc, ◌+◌, ◌<◌, ◌≡◌, refl, ap, ◌∙◌, true, false, Option, some, [], ◌∷◌, ◌++◌, arith,
}
use cs331_t011_kubernetes_se.Common.Int.{ℤ, pos, negsuc, int_limit}
use cs331_t011_kubernetes_se.Go.Text.{Str, str, str_eq, is_empty, decimal, atoi, to_lower}
use cs331_t011_kubernetes_se.Go.Text.Numbers.{
  BeginsWithDigit, decimal-BeginsWithDigit, atoi-decimal, decimal-all,
}
use cs331_t011_kubernetes_se.Controller.Probe.{
  Formats, ProbeCall, int_text, trim_slashes, positive_else, probe_kind, probe_url,
}
use cs331_t011_kubernetes_se.Agent.Options.{
  ProbeOptions, positive_or, with_port, or_tcp, number_param, parse_probe_options,
}
use cs331_t011_kubernetes_se.System.{
  is_plain_byte, IsHost, IsPlain, Params, query_text, ArePlain, first_value, page_url, Wire,
  Delivers,
}

-- An `int` of Go.
abbrev pub FitsInt : ℤ → Type 0
FitsInt (pos n) = n < int_limit
FitsInt (negsuc n) = n < int_limit

-- The path and the query of a probe's URL.
abbrev pub probe_params : Formats → ProbeCall → Params
probe_params formats c =
    (str "target", c.target_ip)
    ∷ (str "timeout", formats.duration_text c.timeout)
    ∷ (str "count", int_text (positive_else c.count (pos 5)))
    ∷ (str "payloadBytes", int_text (positive_else c.payload_bytes (pos 1024)))
    ∷ (str "type", str "tcp")
    ∷ []

port-filled : (s : Str) → is_empty (s ++ str ":8080") ≡ false
unfolding str
port-filled [] = refl
port-filled (c ∷ s) = refl

trim_slashes-port : (s : Str) → trim_slashes (s ++ str ":8080") ≡ s ++ str ":8080"
unfolding trim_slashes
trim_slashes-port [] = unfold str in refl
trim_slashes-port (c ∷ s) = rw (trim_slashes-port s) (ground (arith, port-filled s))

probe_url-page :
    (formats : Formats) (c : ProbeCall) (host : Str)
    → c.control_url ≡ str "http://" ++ host ++ str ":8080"
    → probe_kind c ≡ str "tcp"
    → probe_url formats c ≡ page_url host (str "probe") (probe_params formats c)
unfolding probe_url page_url query_text
probe_url-page formats c host url tcp =
    rw (tcp, url, trim_slashes-port (str "http://" ++ host)) (unfold str in simp append_assoc)

digit_plain : (d : ℕ) → d < 10 → is_plain_byte (48 + d) ≡ true
digit_plain d h = ground arith

positive-IsPlain : (z : ℤ) (d : ℕ) → IsPlain (int_text (positive_else z (pos d)))
unfolding int_text positive_else
positive-IsPlain (pos zero) d = decimal-all is_plain_byte digit_plain d
positive-IsPlain (pos (suc n)) d = decimal-all is_plain_byte digit_plain (suc n)
positive-IsPlain (negsuc n) d = decimal-all is_plain_byte digit_plain d

-- A positive number comes back from its text.
positive_read :
    (z fallback : ℤ) (d : ℕ)
    → FitsInt z
    → suc d < int_limit
    → positive_or fallback (atoi (int_text (positive_else z (pos (suc d)))))
      ≡ positive_else z (pos (suc d))
unfolding int_text positive_else positive_or
positive_read (pos zero) fallback d fits small = rw (atoi-decimal (suc d) small, positive_or)
positive_read (pos (suc n)) fallback d fits small = rw (atoi-decimal (suc n) fits, positive_or)
positive_read (negsuc n) fallback d fits small = rw (atoi-decimal (suc d) small, positive_or)

decimal-filled : (n : ℕ) → is_empty (decimal n) ≡ false
decimal-filled n = filled (decimal n) (decimal-BeginsWithDigit n)
  where
    filled : (s : Str) → BeginsWithDigit s → is_empty s ≡ false
    filled [] h = absurd h
    filled (c ∷ s) h = refl

positive_filled : (z : ℤ) (d : ℕ) → is_empty (int_text (positive_else z (pos d))) ≡ false
unfolding int_text positive_else
positive_filled (pos zero) d = decimal-filled d
positive_filled (pos (suc n)) d = decimal-filled (suc n)
positive_filled (negsuc n) d = decimal-filled d

-- The timeout as the packages print and read it.
pub record ReadsTimeout (formats : Formats) (parse_duration : Str → Option ℤ) (timeout : ℤ)
    : Type 0 where
  pub plain : IsPlain (formats.duration_text timeout)
  pub filled : is_empty (formats.duration_text timeout) ≡ false
  pub read : parse_duration (formats.duration_text timeout) ≡ some timeout

-- A call of the operator for a TCP probe, whose URL needs no escapes.
pub record IsCall (c : ProbeCall) (host : Str) : Type 0 where
  pub at : c.control_url ≡ str "http://" ++ host ++ str ":8080"
  pub host_plain : IsHost host
  pub target_plain : IsPlain c.target_ip
  pub target_filled : is_empty c.target_ip ≡ false
  pub tcp : probe_kind c ≡ str "tcp"
  pub timeout_positive : (n : ℕ) × (c.timeout ≡ pos (suc n))
  pub count_fits : FitsInt c.count
  pub payload_fits : FitsInt c.payload_bytes

-- What the agent is to read.
unfoldable pub options_of : ProbeCall → ProbeOptions
options_of c = record {
  target = with_port c.target_ip;
  timeout = c.timeout;
  count = positive_else c.count (pos 5);
  payload_bytes = positive_else c.payload_bytes (pos 1024);
  probetype = str "tcp";
}

module _ (formats : Formats) (parse_duration : Str → Option ℤ) (c : ProbeCall) (host : Str)
    (call : IsCall c host) (timeout : ReadsTimeout formats parse_duration c.timeout) where
  probe_params-ArePlain : ArePlain (probe_params formats c)
  probe_params-ArePlain = (
    (unfold str in refl, call.target_plain),
    (
      (unfold str in refl, timeout.plain),
      (
        (unfold str in refl, positive-IsPlain c.count 5),
        (
          (unfold str in refl, positive-IsPlain c.payload_bytes 1024),
          ((unfold str in refl, unfold str in refl), tt),
        ),
      ),
    ),
  )

  probe_params-options :
      parse_probe_options parse_duration (first_value (probe_params formats c))
      ≡ some (options_of c)
  unfolding parse_probe_options number_param first_value str str_eq to_lower or_tcp options_of
  probe_params-options =
      let (n, positive) = call.timeout_positive in
      let kept : positive_or (pos 2_000_000_000) (some c.timeout) ≡ c.timeout =
        rw positive (unfold positive_or in refl) in
      rw
        (
          call.target_filled,
          timeout.filled,
          timeout.read,
          kept,
          positive_filled c.count 5,
          positive_filled c.payload_bytes 1024,
          positive_read c.count (pos 1) 4 call.count_fits (unfold int_limit in omega arith),
          positive_read c.payload_bytes (pos 1024) 1023 call.payload_fits
              (unfold int_limit in omega arith),
        )
        refl

  -- For a TCP call with a positive timeout, whose text is read back, with numbers that fit an
  -- `int`, and with a host and a target that need no escape in a URL, the options that the agent
  -- reads from the operator's URL are the call's: the target, with the agents' port where it
  -- holds no colon, the timeout, and the numbers of probes and of bytes, 5 and 1024 where those
  -- of the call are not positive.
  pub parse-probe_url :
      {F : Type 0} (wire : Wire F)
      → Delivers wire
      → parse_probe_options parse_duration (wire.value_of (probe_url formats c))
        ≡ some (options_of c)
  parse-probe_url wire law =
      ap (λ url. parse_probe_options parse_duration (wire.value_of url))
        (probe_url-page formats c host call.at call.tcp)
      ∙ ap (parse_probe_options parse_duration) (
          fun_ext (
            law.value_read host (str "probe") (probe_params formats c) call.host_plain
              (unfold str in refl) probe_params-ArePlain))
      ∙ probe_params-options

  pub path_of-probe_url :
      {F : Type 0} (wire : Wire F)
      → Delivers wire
      → wire.path_of (probe_url formats c) ≡ str "/probe"
  unfolding str
  path_of-probe_url wire law =
      ap wire.path_of (probe_url-page formats c host call.at call.tcp)
      ∙ law.path_read host (str "probe") (probe_params formats c) call.host_plain refl
          probe_params-ArePlain
