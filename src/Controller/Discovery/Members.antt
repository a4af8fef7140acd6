-- ===== src/Controller/Discovery/Members.antt =====
-- Which endpoints discovery returns.
use cs331_t011_kubernetes_se.Common.{
  ◌≡◌, refl, sym, ap, ◌∙◌, ◌↔◌, Bool, true, false, List, [], ◌∷◌, Memᴰ, if◌then◌else◌, ◌≢◌, ◌&&◌,
  not, Option, none, some, arith,
}
use mathlib.Core.Path.{subst}
use mathlib.Core.Option
use cs331_t011_kubernetes_se.Go.Text.{Str, str, str_eq, str_eq_iff, is_empty}
use cs331_t011_kubernetes_se.Go.Maps.{get?}
use cs331_t011_kubernetes_se.Contract.{Endpoint}
use cs331_t011_kubernetes_se.Controller.Discovery.{
  Pod, is_agent, endpoint_of, build_agent_endpoints_from_pods,
}

-- The endpoint of every agent is found.
found :
    (pods : List Pod) (pod : Pod)
    → Memᴰ pod pods
    → is_agent pod ≡ true
    → Memᴰ (endpoint_of pod) (build_agent_endpoints_from_pods pods)
unfolding build_agent_endpoints_from_pods
found [] pod i h = elim i [ ]
found (p ∷ pods) pod (Memᴰ.head e) h = rw (sym (ap is_agent e) ∙ h) (Memᴰ.head (ap endpoint_of e))
found (p ∷ pods) pod (Memᴰ.tail i) h = behind (is_agent p) (found pods pod i h)
  where
    behind :
        (b : Bool)
        → Memᴰ (endpoint_of pod) (build_agent_endpoints_from_pods pods)
        → Memᴰ (endpoint_of pod) (
            if b
            then endpoint_of p ∷ build_agent_endpoints_from_pods pods
            else build_agent_endpoints_from_pods pods)
    behind true j = Memᴰ.tail j
    behind false j = j

-- Only agents are found.
of_agent :
    (pods : List Pod) (e : Endpoint)
    → Memᴰ e (build_agent_endpoints_from_pods pods)
    → (pod : Pod) × Memᴰ pod pods × (is_agent pod ≡ true) × (e ≡ endpoint_of pod)
unfolding build_agent_endpoints_from_pods
of_agent [] e i = elim i [ ]
of_agent (p ∷ pods) e i = by_test (is_agent p) refl i (of_agent pods e)
  where
    by_test :
        (b : Bool)
        → is_agent p ≡ b
        → Memᴰ e (
            if b
            then endpoint_of p ∷ build_agent_endpoints_from_pods pods
            else build_agent_endpoints_from_pods pods)
        → (Memᴰ e (build_agent_endpoints_from_pods pods)
            → (pod : Pod) × Memᴰ pod pods × (is_agent pod ≡ true) × (e ≡ endpoint_of pod))
        → (pod : Pod) × Memᴰ pod (p ∷ pods) × (is_agent pod ≡ true) × (e ≡ endpoint_of pod)
    by_test true h (Memᴰ.head same) rest = (p, Memᴰ.head refl, h, same)
    by_test true h (Memᴰ.tail j) rest =
        let (pod, i, ok, same) = rest j in (pod, Memᴰ.tail i, ok, same)
    by_test false h j rest = let (pod, i, ok, same) = rest j in (pod, Memᴰ.tail i, ok, same)

-- A pod of a running agent: with the label and an address.
abbrev pub IsAgent : Pod → Type 0
IsAgent pod =
    (get? (str "app") pod.labels ≡ some (str "netprobe-agent"))
    × (pod.phase ≡ str "Running")
    × (pod.pod_ip ≢ [])

not_empty : (s : Str) → (not (is_empty s) ≡ true) ↔ (s ≢ [])
not_empty [] = (λ h. absurd (ground arith), λ h. absurd (h refl))
not_empty (c ∷ s) = (λ h e. cc, λ h. refl)

no_label : str_eq [] (str "netprobe-agent") ≡ true → ⊥
unfolding str str_eq
no_label h = absurd (ground arith)

labelled :
    (o : Option Str)
    → (str_eq (Option.get_or o []) (str "netprobe-agent") ≡ true)
      ↔ (o ≡ some (str "netprobe-agent"))
labelled none = (λ h. absurd (no_label h), λ h. absurd (ground arith))
labelled (some s) = ground (arith, str_eq_iff s (str "netprobe-agent"))

is_agent_iff : (pod : Pod) → (is_agent pod ≡ true) ↔ IsAgent pod
unfolding is_agent
is_agent_iff pod =
    let label = labelled (get? (str "app") pod.labels) in
    let phase = str_eq_iff pod.phase (str "Running") in
    let address = not_empty pod.pod_ip in
    (
      λ h. let (a, b, c) = (all_three _ _ _).0 h in (label.0 a, phase.0 b, address.0 c),
      λ h. (all_three _ _ _).1 (label.1 h.0, phase.1 h.1, address.1 h.2),
    )
  where
    all_three : (a b c : Bool) → ((a && b && c) ≡ true) ↔ ((a ≡ true) × (b ≡ true) × (c ≡ true))
    all_three a b c = ground arith

-- The endpoints built from the pods are exactly those of the pods that carry the agents' label, run,
-- and have an address.
pub build_agent_endpoints_from_pods_iff :
    (pods : List Pod) (e : Endpoint)
    → Memᴰ e (build_agent_endpoints_from_pods pods)
      ↔ ((pod : Pod) × Memᴰ pod pods × IsAgent pod × (e ≡ endpoint_of pod))
build_agent_endpoints_from_pods_iff pods e = (
  λ i. let (pod, j, ok, same) = of_agent pods e i in (pod, j, (is_agent_iff pod).0 ok, same),
  λ w.
      subst (λ x. Memᴰ x (build_agent_endpoints_from_pods pods)) (sym w.3)
        (found pods w.0 w.1 ((is_agent_iff w.0).1 w.2)),
)
