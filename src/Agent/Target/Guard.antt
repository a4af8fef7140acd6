-- ===== src/Agent/Target/Guard.antt =====
-- Which targets the guard lets through.
use cs331_t011_kubernetes_se.Common.{
  ℕ, ◌≤◌, ◌≡◌, refl, sym, ◌∙◌, ◌⊎◌, inl, inr, ◌↔◌, true, false, none, some, List, [], ◌∷◌, arith,
  Option-cases,
}
use cs331_t011_kubernetes_se.Go.Text.{Str}
use cs331_t011_kubernetes_se.Agent.Net.{
  Ip, v4, v6, Cidr, net4, is_loopback, is_link_local_unicast, is_multicast, is_unspecified,
  cidr_contains, NetSyntax, ReadsDefaults,
}
use cs331_t011_kubernetes_se.Agent.Target.{
  default_allowed_cidrs, in_allowed, check_ip, check_host, validate_target,
}

-- The address is of no special kind, or is a loopback address.
abbrev pub IsOrdinary : Ip → Type 0
IsOrdinary ip =
    (is_loopback ip ≡ true)
    ⊎ ((is_link_local_unicast ip ≡ false) × (is_multicast ip ≡ false) × (is_unspecified ip ≡ false))

abbrev pub InPrivateRange : ℕ → Type 0
InPrivateRange n =
    ((0x0a000000 ≤ n) × (n ≤ 0x0affffff))
    ⊎ ((0xac100000 ≤ n) × (n ≤ 0xac1fffff))
    ⊎ ((0xc0a80000 ≤ n) × (n ≤ 0xc0a8ffff))

module _ (syntax : NetSyntax) where
  check_ip_iff :
      (allowed : List Cidr) (ip : Ip)
      → (check_ip syntax allowed ip ≡ none)
        ↔ ((in_allowed syntax allowed ip ≡ true) × IsOrdinary ip)
  unfolding check_ip
  check_ip_iff allowed ip = (λ h. (ground arith, ground arith), λ (listed, ordinary). ground arith)

  validate-check_ip :
      (target : Str) (allowed : List Cidr) (host port : Str) (ip : Ip)
      → syntax.split_host_port target ≡ some (host, port)
      → syntax.parse_ip host ≡ some ip
      → validate_target syntax target allowed ≡ check_ip syntax allowed ip
  unfolding validate_target check_host
  validate-check_ip target allowed host port ip e e' = rw (e, validate_target) (rw (e', check_host))

  -- A target is accepted exactly when it splits into a host and a port, the host is an address, an
  -- allowed network contains the address, and it is a loopback address or else neither link-local,
  -- multicast nor unspecified.
  pub validate_target_iff :
      (target : Str) (allowed : List Cidr)
      → (validate_target syntax target allowed ≡ none) ↔ (
          (host : Str) × (port : Str) × (ip : Ip) × (syntax.split_host_port target
            ≡ some (host, port))
          × (syntax.parse_ip host ≡ some ip)
          × (in_allowed syntax allowed ip ≡ true)
          × IsOrdinary ip)
  validate_target_iff target allowed = (
    λ h. elim (Option-cases (syntax.split_host_port target)) [
      | inl e ↦ absurd (unfold validate_target in ground arith)
      | inr ((host, port), e) ↦ elim (Option-cases (syntax.parse_ip host)) [
        | inl e' ↦ absurd (unfold validate_target check_host in ground arith)
        | inr (ip, e') ↦
            let (listed, ordinary) =
              (check_ip_iff allowed ip).0
                (sym (validate-check_ip target allowed host port ip e e') ∙ h) in
            (host, port, ip, e, e', listed, ordinary)
      ]
    ],
    λ (host, port, ip, e, e', listed, ordinary).
        validate-check_ip target allowed host port ip e e'
        ∙ (check_ip_iff allowed ip).1 (listed, ordinary),
  )

  abbrev private_networks : List Cidr
  private_networks = net4 0xc0a80000 16 ∷ net4 0x0a000000 8 ∷ net4 0xac100000 12 ∷ []

  default-private : ReadsDefaults syntax → default_allowed_cidrs syntax ≡ private_networks
  unfolding default_allowed_cidrs
  default-private reads = ground arith

  check_ip-private :
      (ip : Ip)
      → (check_ip syntax private_networks ip ≡ none) ↔ ((n : ℕ) × (ip ≡ v4 n) × InPrivateRange n)
  unfolding check_ip cidr_contains is_loopback is_link_local_unicast is_multicast is_unspecified
      in_allowed
  check_ip-private (v4 n) = (λ h. (n, refl, ground arith), λ (k, e, range). ground arith)
  check_ip-private (v6 n) = (λ h. absurd (ground arith), λ (k, e, range). cc)

  -- With the default list, as the package reads it, the target at an address is accepted exactly
  -- when the address lies in one of the three private IPv4 ranges.
  pub validate_target-default :
      (target host port : Str) (ip : Ip)
      → ReadsDefaults syntax
      → syntax.split_host_port target ≡ some (host, port)
      → syntax.parse_ip host ≡ some ip
      → (validate_target syntax target (default_allowed_cidrs syntax) ≡ none)
        ↔ ((n : ℕ) × (ip ≡ v4 n) × InPrivateRange n)
  validate_target-default target host port ip reads split parse =
      rw (validate-check_ip target _ host port ip split parse)
        (rw (default-private reads) (check_ip-private ip))
