-- ===== src/Tests/Wiring.antt =====
-- A reader of URLs that delivers what needs no escape, as net/url does.
use mathlib.Core.Path.{◌≡◌, refl, sym, ap, ◌∙◌}
use mathlib.Core.List.{append-nil}
use native.Mathlib.Omega.{arith}
use cs331_t011_kubernetes_se.Common.{
  ℕ, true, false, not, List, [], ◌∷◌, ◌++◌, ◌==◌, if◌then◌else◌, all,
}
use cs331_t011_kubernetes_se.Go.Text.{Str, str, str_eq}
use cs331_t011_kubernetes_se.Controller.Probe.{decoded, undecoded}
use cs331_t011_kubernetes_se.Agent.Server.{probed}
use cs331_t011_kubernetes_se.System.{
  is_host_byte, is_plain_byte, IsHost, IsPlain, Params, query_text, ArePlain, first_value, page_url,
  Wire, Delivers,
}
use cs331_t011_kubernetes_se.Tests.Fractions.{Fraction}

-- The text before the first such byte, and the text behind it.
unfoldable pub cut : ℕ → Str → Str × Str
cut b [] = ([], [])
cut b (c ∷ s) = let rest = cut b s in if c == b then ([], s) else (c ∷ rest.0, rest.1)

-- The parts of a query.
unfoldable pub cells : Str → Str × List Str
cells [] = ([], [])
cells (c ∷ s) =
    let rest = cells s in if c == b'&' then ([], rest.0 ∷ rest.1) else (c ∷ rest.0, rest.1)

unfoldable pub find_value : List Str → Str → Str
unfolding cut
find_value [] name = []
find_value (cell ∷ rest) name =
    let parts = cut b'=' cell in if str_eq parts.0 name then parts.1 else find_value rest name

abbrev pub Avoids : ℕ → Str → Type 0
Avoids b s = all (λ c. not (c == b)) s ≡ true

plain-Avoids : (b : ℕ) (s : Str) → is_plain_byte b ≡ false → IsPlain s → Avoids b s
plain-Avoids b [] out plain = refl
plain-Avoids b (c ∷ s) out plain = ground (arith, plain-Avoids b s out)

host-Avoids : (b : ℕ) (s : Str) → is_host_byte b ≡ false → IsHost s → Avoids b s
host-Avoids b [] out plain = refl
host-Avoids b (c ∷ s) out plain = ground (arith, host-Avoids b s out)

cut-append : (b : ℕ) (u s : Str) → Avoids b u → cut b (u ++ s) ≡ (u ++ (cut b s).0, (cut b s).1)
unfolding cut
cut-append b [] s free = refl
cut-append b (c ∷ u) s free = ground (arith, cut-append b u s)

cells-append : (u s : Str) → Avoids b'&' u → cells (u ++ s) ≡ (u ++ (cells s).0, (cells s).1)
unfolding cells
cells-append [] s free = refl
cells-append (c ∷ u) s free = ground (arith, cells-append u s)

-- The text from a value on does not change the parts before it.
cells_of-pair :
    (k v s : Str)
    → IsPlain k
    → IsPlain v
    → cells (k ++ (str "=" ++ (v ++ s))) ≡ (k ++ (str "=" ++ (v ++ (cells s).0)), (cells s).1)
unfolding cells str
cells_of-pair k v s k_plain v_plain =
    rw
      (
        cells-append k (b'=' ∷ (v ++ s)) (plain-Avoids b'&' k refl k_plain),
        cells-append v s (plain-Avoids b'&' v refl v_plain),
      )
      refl

cut-pair : (k v : Str) → IsPlain k → cut b'=' (k ++ (str "=" ++ v)) ≡ (k, v)
unfolding cut str
cut-pair k v k_plain =
    rw (cut-append b'=' k (b'=' ∷ v) (plain-Avoids b'=' k refl k_plain)) (rw (append-nil k) refl)

find_value-pair :
    (k v name : Str) (rest : List Str)
    → IsPlain k
    → find_value ((k ++ (str "=" ++ v)) ∷ rest) name
      ≡ (if str_eq k name then v else find_value rest name)
unfolding find_value
find_value-pair k v name rest k_plain = rw (cut-pair k v k_plain) refl

find_in : Str → Str → Str
find_in query name = find_value ((cells query).0 ∷ (cells query).1) name

find_in-pair :
    (k v s name : Str)
    → IsPlain k
    → IsPlain v
    → find_in (k ++ (str "=" ++ (v ++ s))) name
      ≡ (if str_eq k name then v ++ (cells s).0 else find_value (cells s).1 name)
unfolding find_in
find_in-pair k v s name k_plain v_plain =
    ap (λ z. find_value (z.0 ∷ z.1) name) (cells_of-pair k v s k_plain v_plain)
    ∙ find_value-pair k (v ++ (cells s).0) name (cells s).1 k_plain

find_in-last :
    (k v name : Str)
    → IsPlain k
    → IsPlain v
    → find_in (k ++ (str "=" ++ v)) name ≡ (if str_eq k name then v else [])
unfolding cells find_value
find_in-last k v name k_plain v_plain =
    ap (λ t. find_in (k ++ (str "=" ++ t)) name) (sym (append-nil v))
    ∙ find_in-pair k v [] name k_plain v_plain
    ∙ ap (λ t. if str_eq k name then t else []) (append-nil v)

find_in-next :
    (k v s name : Str)
    → IsPlain k
    → IsPlain v
    → find_in (k ++ (str "=" ++ (v ++ (str "&" ++ s)))) name
      ≡ (if str_eq k name then v else find_in s name)
unfolding cells str find_in
find_in-next k v s name k_plain v_plain =
    find_in-pair k v (str "&" ++ s) name k_plain v_plain
    ∙ ap (λ t. if str_eq k name then t else find_in s name) (append-nil v)

find_in-query_text :
    (ps : Params) (name : Str) → ArePlain ps → find_in (query_text ps) name ≡ first_value ps name
unfolding query_text first_value
find_in-query_text [] name plain = unfold find_in cells find_value in ground arith
find_in-query_text ((k, v) ∷ []) name plain = find_in-last k v name plain.0.0 plain.0.1
find_in-query_text ((k, v) ∷ p ∷ ps) name plain =
    find_in-next k v (query_text (p ∷ ps)) name plain.0.0 plain.0.1
    ∙ ap (λ t. if str_eq k name then v else t) (find_in-query_text (p ∷ ps) name plain.1)

behind : ℕ → Str → Str
behind b s = (cut b s).1

-- The host, the page and the query of a URL.
unfoldable pub reader : Wire Fraction
unfolding cut cells find_value find_in behind
reader = record {
  path_of = λ url. b'/' ∷ (cut b'?' (behind b'/' (behind b'/' (behind b'/' url)))).0;
  value_of = λ url. find_in (behind b'?' url);
  decode = λ body. elim body [ probed r ↦ decoded r | _ ↦ undecoded (str "not a result") ];
}

behind-append : (b : ℕ) (u s : Str) → Avoids b u → behind b (u ++ s) ≡ behind b s
unfolding behind
behind-append b u s free = ap (λ z. z.1) (cut-append b u s free)

before_query : (s page : Str) → IsPlain page → (cut b'?' (page ++ (str "?" ++ s))).0 ≡ page
unfolding cut str
before_query s page plain =
    rw (cut-append b'?' page (b'?' ∷ s) (plain-Avoids b'?' page refl plain)) (append-nil page)

page_url-page :
    (host rest : Str)
    → IsHost host
    → behind b'/' (behind b'/' (behind b'/' (str "http://" ++ (host ++ (str ":8080/" ++ rest)))))
      ≡ rest
unfolding behind cut str
page_url-page host rest plain =
    behind-append b'/' host (str ":8080/" ++ rest) (host-Avoids b'/' host refl plain)

page_url-query :
    (host page q : Str)
    → IsHost host
    → IsPlain page
    → behind b'?' (str "http://" ++ (host ++ (str ":8080/" ++ (page ++ (str "?" ++ q))))) ≡ q
unfolding behind cut str
page_url-query host page q host_plain page_plain =
    behind-append b'?' host (str ":8080/" ++ (page ++ (str "?" ++ q)))
      (host-Avoids b'?' host refl host_plain)
    ∙ behind-append b'?' page (str "?" ++ q) (plain-Avoids b'?' page refl page_plain)

pub reader-Delivers : Delivers reader
reader-Delivers = record {
  path_read = λ host page ps hp pp qp.
      unfold reader page_url str in
      ap (λ t. b'/' ∷ t)
        (ap (λ t. (cut b'?' t).0) (page_url-page host _ hp) ∙ before_query (query_text ps) page pp);
  value_read = λ host page ps hp pp qp name.
      unfold reader page_url in
      ap (λ t. find_in t name) (page_url-query host page (query_text ps) hp pp)
      ∙ find_in-query_text ps name qp;
}
