-- ===== src/Agent/Target.antt =====
-- code/pkg/server.go: the list of allowed networks and the guard on a probe's target.
pub mod Guard
use cs331_t011_kubernetes_se.Common.{
  Bool, true, false, Option, none, some, List, [], ◌∷◌, any, ◌==◌, leb, ltb, ◌&&◌, ◌||◌,
  if◌then◌else◌,
}
use cs331_t011_kubernetes_se.Go.Text.{Str, str, is_empty, split_on_comma, trim_space}
use cs331_t011_kubernetes_se.Agent.Net.{
  Ip, Cidr, is_loopback, is_link_local_unicast, is_multicast, is_unspecified, cidr_contains,
  NetSyntax,
}

-- The errors of `validateTarget`, by their case; each names the host in its text.
pub data TargetError : Type 0 where
  invalid_target not_an_ip loopback link_local multicast unspecified not_allowed : TargetError

module _ (syntax : NetSyntax) where
  -- The loop of `defaultAllowedCIDRs`: a text that does not parse is left out.
  unfoldable pub parse_all : List Str → List Cidr
  parse_all [] = []
  parse_all (s ∷ rest) = elim (syntax.parse_cidr s) [
    | none ↦ parse_all rest
    | some cidr ↦ cidr ∷ parse_all rest
  ]

  unfoldable pub default_allowed_cidrs : List Cidr
  unfolding parse_all
  default_allowed_cidrs =
      parse_all (str "192.168.0.0/16" ∷ str "10.0.0.0/8" ∷ str "172.16.0.0/12" ∷ [])

  -- The loop of `parseAllowedCIDRs`: blank parts and parts that do not parse are skipped.
  unfoldable pub parse_parts : List Str → List Cidr
  parse_parts [] = []
  parse_parts (part ∷ rest) =
      let text = trim_space part in
      if is_empty text then parse_parts rest else elim (syntax.parse_cidr text) [
        | none ↦ parse_parts rest
        | some cidr ↦ cidr ∷ parse_parts rest
      ]

  unfoldable pub or_default : List Cidr → List Cidr
  or_default [] = default_allowed_cidrs
  or_default (c ∷ cs) = c ∷ cs

  unfoldable pub parse_allowed_cidrs : Str → List Cidr
  parse_allowed_cidrs raw =
      let text = trim_space raw in
      if is_empty text
      then default_allowed_cidrs
      else or_default (parse_parts (split_on_comma text))

  unfoldable pub in_allowed : List Cidr → Ip → Bool
  in_allowed allowed ip = any (λ cidr. cidr_contains cidr ip) allowed

  -- The checks on a parsed address; `none` is nil, the target is accepted.
  unfoldable pub check_ip : List Cidr → Ip → Option TargetError
  check_ip allowed ip =
      if is_loopback ip
      then (if in_allowed allowed ip then none else some loopback)
      else if is_link_local_unicast ip
      then some link_local
      else if is_multicast ip
      then some multicast
      else if is_unspecified ip
      then some unspecified
      else if in_allowed allowed ip
      then none
      else some not_allowed

  unfoldable pub check_host : List Cidr → Option Ip → Option TargetError
  check_host allowed none = some not_an_ip
  check_host allowed (some ip) = check_ip allowed ip

  unfoldable pub validate_target : Str → List Cidr → Option TargetError
  validate_target target allowed = elim (syntax.split_host_port target) [
    | none ↦ some invalid_target
    | some (host, port) ↦ check_host allowed (syntax.parse_ip host)
  ]
