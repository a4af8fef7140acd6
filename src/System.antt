-- ===== src/System.antt =====
-- The operator and the agents as one system: the requests of code/internal/controller/probe.go are
-- answered by the handlers of code/pkg/server.go.
pub mod Url
pub mod Limits
pub mod Conversation
pub mod Mesh
use cs331_t011_kubernetes_se.Common.{
  ℕ, ◌≡◌, Bool, true, ◌&&◌, ◌||◌, List, [], ◌∷◌, ◌++◌, ltb, ◌==◌, if◌then◌else◌, all, All,
}
use cs331_t011_kubernetes_se.Go.Text.{Str, str, str_eq}
use cs331_t011_kubernetes_se.Go.Floats.{Floats}
use cs331_t011_kubernetes_se.Controller.Probe.{Decoded, Answer, answered}
use cs331_t011_kubernetes_se.Agent.Server.{Server, Request, Body, World, handler}

-- Letters, digits, dots and dashes; in a value of a query also colons. They stand for themselves in
-- a URL.
abbrev pub is_host_byte : ℕ → Bool
is_host_byte c =
    (ltb 47 c && ltb c 58)
    || (ltb 64 c && ltb c 91)
    || (ltb 96 c && ltb c 123)
    || c == 45
    || c == 46

abbrev pub is_plain_byte : ℕ → Bool
is_plain_byte c = is_host_byte c || c == 58

abbrev pub IsHost : Str → Type 0
IsHost s = all is_host_byte s ≡ true

abbrev pub IsPlain : Str → Type 0
IsPlain s = all is_plain_byte s ≡ true

-- The parameters of a query in their order, and its text.
abbrev pub Params : Type 0
Params = List (Str × Str)

unfoldable pub query_text : Params → Str
query_text [] = []
query_text ((name, value) ∷ []) = name ++ (str "=" ++ value)
query_text ((name, value) ∷ p ∷ ps) =
    name ++ (str "=" ++ (value ++ (str "&" ++ query_text (p ∷ ps))))

abbrev pub ArePlain : Params → Type 0
ArePlain ps = All (λ p. IsPlain p.0 × IsPlain p.1) ps

-- The first value of a name, the empty text where there is none.
unfoldable pub first_value : Params → Str → Str
first_value [] name = []
first_value ((k, value) ∷ ps) name = if str_eq k name then value else first_value ps name

-- A URL on an agent's control port.
unfoldable pub page_url : Str → Str → Params → Str
page_url host page ps =
    str "http://" ++ (host ++ (str ":8080/" ++ (page ++ (str "?" ++ query_text ps))))

-- What net/http, net/url and encoding/json do between the two ends: the path and `Get` of the query
-- of a request to a URL, as the server finds them, and what the client's decoder makes of a body.
pub record Wire (F : Type 0) : Type 0 where
  pub path_of : Str → Str
  pub value_of : Str → Str → Str
  pub decode : Body F → Decoded F

-- Bytes that need no escape come through a URL as they are.
pub record Delivers {F : Type 0} (wire : Wire F) : Type 0 where
  pub path_read :
      (host page : Str) (ps : Params)
      → IsHost host
      → IsPlain page
      → ArePlain ps
      → wire.path_of (page_url host page ps) ≡ str "/" ++ page
  pub value_read :
      (host page : Str) (ps : Params)
      → IsHost host
      → IsPlain page
      → ArePlain ps
      → (name : Str) → wire.value_of (page_url host page ps) name ≡ first_value ps name

-- The request that the server meets.
unfoldable pub request_to : {F : Type 0} → Wire F → Str → Str → Request
request_to wire url authorization = record {
  path = wire.path_of url;
  authorization = authorization;
  query = wire.value_of url;
}

-- An agent that is reached answers by its handler, and in time.
module _ (fl : Floats) (wire : Wire fl.F) where
  unfoldable pub ask_agent : World → Server → Str → Str → Answer fl.F
  ask_agent w s url authorization =
      let reply = (handler fl w s (request_to wire url authorization)).0 in
      answered reply.status (wire.decode reply.body)
