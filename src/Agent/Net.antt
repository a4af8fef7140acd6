-- ===== src/Agent/Net.antt =====
-- What the agent uses of the package `net`: addresses and networks as numbers, and the syntax of
-- texts as a parameter.
use cs331_t011_kubernetes_se.Common.{
  ℕ, ◌-◌, ◌/◌, ◌^◌, Bool, false, Option, some, ◌≡◌, ◌++◌, ◌==◌, if◌then◌else◌,
}
use cs331_t011_kubernetes_se.Go.Text.{Str, str, contains}

-- An address that has a form of 4 bytes is `v4`, as `To4` finds.
pub data Ip : Type 0 where
  v4 : ℕ → Ip
  v6 : ℕ → Ip

-- The network's address and the length of its prefix.
pub data Cidr : Type 0 where
  net4 : ℕ → ℕ → Cidr
  net6 : ℕ → ℕ → Cidr

unfoldable pub is_loopback : Ip → Bool
is_loopback (v4 n) = n / 2 ^ 24 == 127
is_loopback (v6 n) = n == 1

unfoldable pub is_link_local_unicast : Ip → Bool
is_link_local_unicast (v4 n) = n / 2 ^ 16 == 0xa9fe
is_link_local_unicast (v6 n) = n / 2 ^ 118 == 0x3fa

unfoldable pub is_multicast : Ip → Bool
is_multicast (v4 n) = n / 2 ^ 28 == 14
is_multicast (v6 n) = n / 2 ^ 120 == 255

unfoldable pub is_unspecified : Ip → Bool
is_unspecified (v4 n) = n == 0
is_unspecified (v6 n) = n == 0

-- `cidr.Contains(ip)`: the same family, and the same prefix.
unfoldable pub cidr_contains : Cidr → Ip → Bool
cidr_contains (net4 net len) (v4 n) = n / 2 ^ (32 - len) == net / 2 ^ (32 - len)
cidr_contains (net6 net len) (v6 n) = n / 2 ^ (128 - len) == net / 2 ^ (128 - len)
cidr_contains (net4 net len) (v6 n) = false
cidr_contains (net6 net len) (v4 n) = false

-- `net.JoinHostPort`
unfoldable pub join_host_port : Str → Str → Str
join_host_port host port =
    if contains host (str ":") then str "[" ++ host ++ str "]:" ++ port else host ++ str ":" ++ port

-- How the package reads texts; `none` is an error.
pub record NetSyntax : Type 0 where
  pub split_host_port : Str → Option (Str × Str)
  pub parse_ip : Str → Option Ip
  pub parse_cidr : Str → Option Cidr

-- The three networks of the agent's default list, as the package reads them.
pub record ReadsDefaults (syntax : NetSyntax) : Type 0 where
  pub private_16 : syntax.parse_cidr (str "192.168.0.0/16") ≡ some (net4 0xc0a80000 16)
  pub private_8 : syntax.parse_cidr (str "10.0.0.0/8") ≡ some (net4 0x0a000000 8)
  pub private_12 : syntax.parse_cidr (str "172.16.0.0/12") ≡ some (net4 0xac100000 12)
