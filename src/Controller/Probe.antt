-- ===== src/Controller/Probe.antt =====
-- code/internal/controller/probe.go: one request to an agent's control port.
use cs331_t011_kubernetes_se.Common.{ℕ, suc, not, ◌&&◌, [], ◌∷◌, ◌++◌, ◌==◌, if◌then◌else◌}
use cs331_t011_kubernetes_se.Common.Int.{ℤ, pos, negsuc, is_nonpos, add_int, mul_int}
use cs331_t011_kubernetes_se.Go.Text.{Str, str, str_eq, is_empty, to_lower, decimal}
use cs331_t011_kubernetes_se.Contract.{ProbeResult}

-- What comes of a request: it cannot be built, it gets no answer, or it gets one, whose body the
-- JSON decoder reads or refuses.
pub data Decoded (F : Type 0) : Type 0 where
  undecoded : Str → Decoded F
  decoded : ProbeResult F → Decoded F

pub data Answer (F : Type 0) : Type 0 where
  unsent : Str → Answer F
  unanswered : Str → Answer F
  answered : ℕ → Decoded F → Answer F

-- The pair of a result and an error.
pub data Outcome (F : Type 0) : Type 0 where
  fails : Str → Outcome F
  reports : ProbeResult F → Outcome F

-- The verbs `%q` and `%s` for a text and a duration, and `os.Getenv("AGENT_PROBE_TOKEN")`.
pub record Formats : Type 0 where
  pub quote : Str → Str
  pub duration_text : ℤ → Str
  pub agent_probe_token : Str

-- The arguments of the function.
pub record ProbeCall : Type 0 where
  pub control_url : Str
  pub target_ip : Str
  pub probe_type : Str
  pub timeout : ℤ
  pub count : ℤ
  pub payload_bytes : ℤ

-- `%d`
unfoldable pub int_text : ℤ → Str
int_text (pos n) = decimal n
int_text (negsuc n) = str "-" ++ decimal (suc n)

-- `strings.TrimRight(s, "/")`
unfoldable pub trim_slashes : Str → Str
trim_slashes [] = []
trim_slashes (c ∷ s) =
    let rest = trim_slashes s in if c == 47 && is_empty rest then [] else c ∷ rest

unfoldable pub positive_else : ℤ → ℤ → ℤ
positive_else n fallback = if is_nonpos n then fallback else n

unfoldable pub probe_kind : ProbeCall → Str
probe_kind c = to_lower (if is_empty c.probe_type then str "tcp" else c.probe_type)

-- The value of the header `Authorization`, the empty text where it is not set.
unfoldable pub authorization_of : Formats → Str
authorization_of formats =
    if is_empty formats.agent_probe_token then [] else str "Bearer " ++ formats.agent_probe_token

unfoldable pub probe_url : Formats → ProbeCall → Str
probe_url formats c =
    trim_slashes c.control_url
    ++ str "/probe?target="
    ++ c.target_ip
    ++ str "&timeout="
    ++ formats.duration_text c.timeout
    ++ str "&count="
    ++ int_text (positive_else c.count (pos 5))
    ++ str "&payloadBytes="
    ++ int_text (positive_else c.payload_bytes (pos 1024))
    ++ str "&type="
    ++ probe_kind c

-- The time limits of the request's context and of the client, in nanoseconds.
unfoldable pub request_limit : ProbeCall → ℤ
request_limit c = add_int (mul_int c.timeout (positive_else c.count (pos 5))) (pos 1_000_000_000)

unfoldable pub client_limit : ProbeCall → ℤ
client_limit c = add_int (mul_int c.timeout (positive_else c.count (pos 5))) (pos 2_000_000_000)

module _ {F : Type 0} where
  unfoldable pub read_body : Decoded F → Outcome F
  read_body (undecoded err) = fails err
  read_body (decoded result) = reports result

  unfoldable pub read_answer : Answer F → Outcome F
  read_answer (unsent err) = fails err
  read_answer (unanswered err) = fails err
  read_answer (answered status body) =
      if not (status == 200)
      then fails (str "probe request failed with status " ++ decimal status)
      else read_body body

  -- `ask` sends the request to a URL with a value for the header `Authorization`.
  unfoldable pub probe_endpoint : Formats → (Str → Str → Answer F) → ProbeCall → Outcome F
  probe_endpoint formats ask c =
      if not (str_eq (probe_kind c) (str "tcp"))
      then fails (str "unsupported probe type " ++ formats.quote (probe_kind c))
      else read_answer (ask (probe_url formats c) (authorization_of formats))
