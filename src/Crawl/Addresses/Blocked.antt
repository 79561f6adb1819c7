-- ===== src/Crawl/Addresses/Blocked.antt =====
-- Which addresses are refused.
use geolytics.Prelude.{ℕ, ◌+◌, ◌*◌, ◌^◌, ◌<◌, ◌≤◌, ◌≡◌, true, arith, some, eq_ℕ, ap, ◌⊎◌}
use geolytics.Crawl.Addresses.{
  v4, v6, quad, in_network, ipv4_mapped, is_blocked_v4, is_blocked_address, blocked_v6_or_mapped,
  blocked_networks_v4, in_any,
}

mapped_parts : (n : ℕ) → n < 2 ^ 32 → ipv4_mapped (65535 * 2 ^ 32 + n) ≡ some n
unfolding ipv4_mapped
mapped_parts n h = ground arith

-- An IPv4 address that is written as an IPv6 one is judged as the IPv4 address it reaches.
pub is_blocked_address-mapped :
    (n : ℕ) → n < 2 ^ 32 → is_blocked_address (v6 (65535 * 2 ^ 32 + n)) ≡ is_blocked_address (v4 n)
unfolding is_blocked_address blocked_v6_or_mapped
is_blocked_address-mapped n h = ap (blocked_v6_or_mapped (65535 * 2 ^ 32 + n)) (mapped_parts n h)

abbrev IsWithin : ℕ → ℕ → ℕ → Type 0
IsWithin low high n = (low ≤ n) × (n ≤ high)

blocked_by_network :
    (n : ℕ) → in_any n blocked_networks_v4 ≡ true → is_blocked_address (v4 n) ≡ true
unfolding is_blocked_address is_blocked_v4
blocked_by_network n h = ground arith

-- Every address of the IPv4 loopback, link-local and private ranges is refused.
pub is_blocked_address-private :
    (n : ℕ)
    → IsWithin (quad 127 0 0 0) (quad 127 255 255 255) n
      ⊎ IsWithin (quad 169 254 0 0) (quad 169 254 255 255) n
      ⊎ IsWithin (quad 10 0 0 0) (quad 10 255 255 255) n
      ⊎ IsWithin (quad 172 16 0 0) (quad 172 31 255 255) n
      ⊎ IsWithin (quad 192 168 0 0) (quad 192 168 255 255) n
    → is_blocked_address (v4 n) ≡ true
unfolding in_network
is_blocked_address-private n h = blocked_by_network n (ground arith)
