-- ===== src/Crawl/Addresses.antt =====
-- Addresses that must never be dialled (`is_blocked_address` of backend/geolytics/crawl/guard.py),
-- with the properties of the standard library's `ipaddress` that it reads. An address is its
-- number.
pub mod Blocked
use geolytics.Prelude.{
  ℕ, ◌+◌, ◌-◌, ◌*◌, ◌/◌, ◌%◌, ◌^◌, Bool, true, false, ◌&&◌, ◌||◌, Option, none, some, List, [], ◌∷◌,
  if◌then◌else◌, ◌==◌, eq_ℕ, any, not,
}

pub data Address : Type 0 where
  v4 v6 : ℕ → Address

abbrev pub quad : ℕ → ℕ → ℕ → ℕ → ℕ
quad a b c d = ((a * 256 + b) * 256 + c) * 256 + d

-- The first three groups of an IPv6 address, and its last four as a number.
abbrev pub groups : ℕ → ℕ → ℕ → ℕ → ℕ
groups a b c low = ((a * 65536 + b) * 65536 + c) * 65536 * 2 ^ 64 + low

-- A network is its address and how many bits of it are free.
pub record Network : Type 0 where
  pub address : ℕ
  pub free_bits : ℕ

abbrev pub net4 : ℕ → ℕ → Network
net4 address prefix = record { address = address; free_bits = 32 - prefix }

abbrev pub net6 : ℕ → ℕ → Network
net6 address prefix = record { address = address; free_bits = 128 - prefix }

unfoldable pub in_network : ℕ → Network → Bool
in_network ip n = ip / 2 ^ n.free_bits == n.address / 2 ^ n.free_bits

abbrev pub in_any : ℕ → List Network → Bool
in_any ip networks = any (in_network ip) networks

-- `_EXTRA_BLOCKED`, by version.
abbrev pub extra_blocked_v4 : List ℕ
extra_blocked_v4 =
    quad 169 254 169 254 ∷ quad 169 254 170 2 ∷ quad 100 100 100 200 ∷ quad 192 0 0 192 ∷ []

abbrev pub extra_blocked_v6 : List ℕ
extra_blocked_v6 = groups 64768 3778 0 596 ∷ []

-- `_BLOCKED_NETWORKS`, by version.
abbrev pub blocked_networks_v4 : List Network
blocked_networks_v4 =
    net4 (quad 0 0 0 0) 8
    ∷ net4 (quad 10 0 0 0) 8
    ∷ net4 (quad 100 64 0 0) 10
    ∷ net4 (quad 127 0 0 0) 8
    ∷ net4 (quad 169 254 0 0) 16
    ∷ net4 (quad 172 16 0 0) 12
    ∷ net4 (quad 192 0 0 0) 24
    ∷ net4 (quad 192 0 2 0) 24
    ∷ net4 (quad 192 168 0 0) 16
    ∷ net4 (quad 198 18 0 0) 15
    ∷ net4 (quad 198 51 100 0) 24
    ∷ net4 (quad 203 0 113 0) 24
    ∷ net4 (quad 224 0 0 0) 4
    ∷ net4 (quad 240 0 0 0) 4
    ∷ net4 (quad 255 255 255 255) 32
    ∷ []

abbrev pub blocked_networks_v6 : List Network
blocked_networks_v6 =
    net6 0 128
    ∷ net6 1 128
    ∷ net6 (groups 64512 0 0 0) 7
    ∷ net6 (groups 65152 0 0 0) 10
    ∷ net6 (groups 65280 0 0 0) 8
    ∷ net6 (groups 8193 3512 0 0) 32
    ∷ []

-- `is_private` of `ipaddress`: the networks, less the exceptions among them.
abbrev private_networks_v4 : List Network
private_networks_v4 =
    net4 (quad 0 0 0 0) 8
    ∷ net4 (quad 10 0 0 0) 8
    ∷ net4 (quad 127 0 0 0) 8
    ∷ net4 (quad 169 254 0 0) 16
    ∷ net4 (quad 172 16 0 0) 12
    ∷ net4 (quad 192 0 0 0) 24
    ∷ net4 (quad 192 0 0 170) 31
    ∷ net4 (quad 192 0 2 0) 24
    ∷ net4 (quad 192 168 0 0) 16
    ∷ net4 (quad 198 18 0 0) 15
    ∷ net4 (quad 198 51 100 0) 24
    ∷ net4 (quad 203 0 113 0) 24
    ∷ net4 (quad 240 0 0 0) 4
    ∷ net4 (quad 255 255 255 255) 32
    ∷ []

abbrev private_exceptions_v4 : List Network
private_exceptions_v4 = net4 (quad 192 0 0 9) 32 ∷ net4 (quad 192 0 0 10) 32 ∷ []

abbrev private_networks_v6 : List Network
private_networks_v6 =
    net6 1 128
    ∷ net6 0 128
    ∷ net6 (65535 * 2 ^ 32) 96
    ∷ net6 (groups 100 65435 1 0) 48
    ∷ net6 (groups 256 0 0 0) 64
    ∷ net6 (groups 8193 0 0 0) 23
    ∷ net6 (groups 8193 3512 0 0) 32
    ∷ net6 (groups 8194 0 0 0) 16
    ∷ net6 (groups 64512 0 0 0) 7
    ∷ net6 (groups 65152 0 0 0) 10
    ∷ []

abbrev private_exceptions_v6 : List Network
private_exceptions_v6 =
    net6 (groups 8193 1 0 1) 128
    ∷ net6 (groups 8193 1 0 2) 128
    ∷ net6 (groups 8193 3 0 0) 32
    ∷ net6 (groups 8193 4 274 0) 48
    ∷ net6 (groups 8193 32 0 0) 28
    ∷ net6 (groups 8193 48 0 0) 28
    ∷ []

abbrev reserved_networks_v6 : List Network
reserved_networks_v6 =
    net6 0 8
    ∷ net6 (groups 256 0 0 0) 8
    ∷ net6 (groups 512 0 0 0) 7
    ∷ net6 (groups 1024 0 0 0) 6
    ∷ net6 (groups 2048 0 0 0) 5
    ∷ net6 (groups 4096 0 0 0) 4
    ∷ net6 (groups 16384 0 0 0) 3
    ∷ net6 (groups 24576 0 0 0) 3
    ∷ net6 (groups 32768 0 0 0) 3
    ∷ net6 (groups 40960 0 0 0) 3
    ∷ net6 (groups 49152 0 0 0) 3
    ∷ net6 (groups 57344 0 0 0) 4
    ∷ net6 (groups 61440 0 0 0) 5
    ∷ net6 (groups 63488 0 0 0) 6
    ∷ net6 (groups 65024 0 0 0) 9
    ∷ []

abbrev is_private_v4 : ℕ → Bool
is_private_v4 ip = in_any ip private_networks_v4 && not (in_any ip private_exceptions_v4)

abbrev is_private_v6 : ℕ → Bool
is_private_v6 ip = in_any ip private_networks_v6 && not (in_any ip private_exceptions_v6)

-- `is_loopback`, `is_link_local`, `is_reserved`, `is_multicast` and `is_unspecified`.
abbrev special_v4 : ℕ → Bool
special_v4 ip =
    in_any ip (
      net4 (quad 127 0 0 0) 8
      ∷ net4 (quad 169 254 0 0) 16
      ∷ net4 (quad 240 0 0 0) 4
      ∷ net4 (quad 224 0 0 0) 4
      ∷ [])
    || ip == 0

abbrev special_v6 : ℕ → Bool
special_v6 ip =
    ip == 1
    || in_network ip (net6 (groups 65152 0 0 0) 10)
    || in_any ip reserved_networks_v6
    || in_network ip (net6 (groups 65280 0 0 0) 8)
    || ip == 0

-- `ipv4_mapped` of an IPv6 address.
unfoldable pub ipv4_mapped : ℕ → Option ℕ
ipv4_mapped ip = if ip / 2 ^ 32 == 65535 then some (ip % 2 ^ 32) else none

unfoldable pub is_blocked_v4 : ℕ → Bool
unfolding in_network
is_blocked_v4 ip =
    any (λ blocked. blocked == ip) extra_blocked_v4
    || (is_private_v4 ip || (special_v4 ip || in_any ip blocked_networks_v4))

is_blocked_v6 : ℕ → Bool
unfolding in_network
is_blocked_v6 ip =
    any (λ blocked. blocked == ip) extra_blocked_v6
    || (is_private_v6 ip || (special_v6 ip || in_any ip blocked_networks_v6))

blocked_v6_or_mapped : ℕ → Option ℕ → Bool
blocked_v6_or_mapped ip none = is_blocked_v6 ip
blocked_v6_or_mapped ip (some mapped) = is_blocked_v4 mapped

unfoldable pub is_blocked_address : Address → Bool
unfolding is_blocked_v4 is_blocked_v6 blocked_v6_or_mapped ipv4_mapped
is_blocked_address (v4 ip) = is_blocked_v4 ip
is_blocked_address (v6 ip) = blocked_v6_or_mapped ip (ipv4_mapped ip)
