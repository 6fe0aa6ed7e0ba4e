-- ===== src/Worker/Send.antt =====
-- `rn_udp_send`: the send of one datagram, with an IPv4 destination mapped into IPv6 for a socket of
-- that family. `sendto` is a parameter, which gives the number of bytes sent; the logs are left out.
use rl_nginx.Base.{
  ℕ, Bool, false, Option, none, some, [], ◌∷◌, ◌++◌, Bytes, length, ◌==◌, ◌≡◌, refl, strip_prefix,
}
use rl_nginx.Conf.{Family, unspecified, ipv4, ipv6, other_family}
use rl_nginx.Worker.Endpoint.{Endpoint}

-- A `struct sockaddr_storage`: the fields of `sockaddr_in` and `sockaddr_in6`, or other bytes.
pub data SockAddr : Type 0 where
  in4 : (port : ℕ) → (address : Bytes) → SockAddr
  in6 : (port flowinfo : ℕ) → (address : Bytes) → (scope : ℕ) → SockAddr
  in_other : Bytes → SockAddr

-- `r_addr_t`.
pub record Destination : Type 0 where
  pub sa : SockAddr
  pub len : ℕ

abbrev pub sockaddr_in6_size : ℕ
sockaddr_in6_size = 28

-- The first 12 bytes of a mapped address.
abbrev pub mapped_prefix : Bytes
mapped_prefix = 0 ∷ 0 ∷ 0 ∷ 0 ∷ 0 ∷ 0 ∷ 0 ∷ 0 ∷ 0 ∷ 0 ∷ 255 ∷ 255 ∷ []

unfoldable pub mapped : Family → SockAddr → ℕ → Destination
mapped ipv6 (in4 port address) n = record {
  sa = in6 port 0 (mapped_prefix ++ address) 0;
  len = sockaddr_in6_size;
}
mapped _ sa n = record { sa = sa; len = n }

module _ (sendto : ℕ → Bytes → Destination → Option ℕ) where
  -- Whether the datagram was sent whole.
  unfoldable pub udp_send : Option Endpoint → Destination → Bytes → Bool
  unfolding mapped
  udp_send none to buf = false
  udp_send (some e) to buf = elim (sendto e.fd buf (mapped e.family to.sa to.len)) [
    | none ↦ false
    | some n ↦ n == length buf
  ]

-- The port and the IPv4 address that a socket address reaches, by the rule of RFC 4291 for mapped
-- addresses.
unfoldable pub ipv4_target : SockAddr → Option (ℕ × Bytes)
ipv4_target (in4 port address) = some (port, address)
ipv4_target (in6 port flowinfo address scope) = elim (strip_prefix mapped_prefix address) [
  | none ↦ none
  | some v4 ↦ some (port, v4)
]
ipv4_target (in_other bytes) = none

-- A datagram reaches the IPv4 target it is meant for, on a socket of any family.
pub ipv4_target-mapped :
    (family : Family) (sa : SockAddr) (n : ℕ) → ipv4_target (mapped family sa n).sa ≡ ipv4_target sa
unfolding ipv4_target mapped strip_prefix
ipv4_target-mapped ipv6 (in4 port address) n = refl
ipv4_target-mapped ipv6 (in6 port flowinfo address scope) n = refl
ipv4_target-mapped ipv6 (in_other bytes) n = refl
ipv4_target-mapped unspecified sa n = refl
ipv4_target-mapped ipv4 sa n = refl
ipv4_target-mapped other_family sa n = refl
