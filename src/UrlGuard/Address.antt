-- ===== src/UrlGuard/Address.antt =====
-- Addresses, and `_is_private_ip` of app/core/url_validator.py. An address of Python's `ipaddress` is its
-- version and its number.
use xzcccc_smart_media.Base.{
  ℕ, ◌+◌, ◌*◌, ◌/◌, ◌%◌, ◌^◌, [], ◌∷◌, List, Bool, true, false, ltb, leb, ◌&&◌, ◌==◌, if◌then◌else◌,
  any,
}

pub data Address : Type 0 where
  v4 : ℕ → Address
  v6 : ℕ → Address

-- `ip in network`: the network's first address, and how many there are.
abbrev pub in_network : ℕ → ℕ × ℕ → Bool
in_network ip network = leb network.0 ip && ltb ip (network.0 + network.1)

-- The number of the address with four octets.
abbrev pub octets : ℕ → ℕ → ℕ → ℕ → ℕ
octets a b c d = a * 16777216 + b * 65536 + c * 256 + d

abbrev pub private_ipv4_ranges : List (ℕ × ℕ)
private_ipv4_ranges =
    (octets 10 0 0 0, 16777216)
    ∷ (octets 172 16 0 0, 1048576)
    ∷ (octets 192 168 0 0, 65536)
    ∷ (octets 127 0 0 0, 16777216)
    ∷ (octets 169 254 0 0, 65536)
    ∷ (octets 0 0 0 0, 16777216)
    ∷ []

unfoldable pub private_ipv6_ranges : List (ℕ × ℕ)
private_ipv6_ranges =
    (1, 1) ∷ (252 * 2 ^ 120, 2 ^ 121) ∷ (65152 * 2 ^ 112, 2 ^ 118) ∷ (65535 * 2 ^ 32, 2 ^ 32) ∷ []

unfoldable pub is_private_v4 : ℕ → Bool
is_private_v4 ip = any (in_network ip) private_ipv4_ranges

-- Where `ip.ipv4_mapped` is an address, it is tested too.
unfoldable pub is_private_v6 : ℕ → Bool
is_private_v6 ip =
    if any (in_network ip) private_ipv6_ranges
    then true
    else if ip / 2 ^ 32 == 65535
    then is_private_v4 (ip % 2 ^ 32)
    else false

abbrev pub is_private_ip : Address → Bool
is_private_ip (v4 ip) = is_private_v4 ip
is_private_ip (v6 ip) = is_private_v6 ip
