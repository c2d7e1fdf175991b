-- ===== src/Address.antt =====
-- net/InetAddress.hpp and net/InetAddress.cpp: an IPv4 address and a port, as the kernel keeps them. The
-- byte order functions and the conversions of <arpa/inet.h> are parameters.
mod Examples
use tiny_network_library.Base.{
  ℕ, ◌+◌, ◌≤◌, ◌<◌, ◌≡◌, refl, ap, ◌∙◌, arith, Option, none, some, ◌∷◌, ◌++◌, length, length-append,
  Bytes, decimal, length-decimal_port,
}

-- `sockaddr_in`, in network byte order; the family is always AF_INET.
pub record InetAddress : Type 0 where
  pub port : ℕ
  pub address : ℕ

module _ (htons ntohs htonl : ℕ → ℕ) (inet_pton : Bytes → Option ℕ) (inet_ntop : ℕ → Bytes) where
  -- The constructor of a port: INADDR_ANY, whatever the text.
  unfoldable pub at_port : ℕ → Bytes → InetAddress
  at_port port ip = record { port = htons port; address = htonl 0 }

  -- The other constructor: a text that `inet_pton` refuses leaves the zeros.
  abbrev pub address_or_zero : Option ℕ → ℕ
  address_or_zero none = 0
  address_or_zero (some a) = a

  unfoldable pub at_ip : Bytes → ℕ → InetAddress
  at_ip ip port = record { port = htons port; address = address_or_zero (inet_pton ip) }

  unfoldable pub to_ip : InetAddress → Bytes
  to_ip a = inet_ntop a.address

  unfoldable pub to_port : InetAddress → ℕ
  to_port a = ntohs a.port

  unfoldable pub to_ip_port : InetAddress → Bytes
  to_ip_port a = inet_ntop a.address ++ (58 ∷ decimal (ntohs a.port))

  -- A text that is no address is taken without a word for all addresses: the result is that of the
  -- constructor of a port, on a system where INADDR_ANY is zero in both byte orders.
  pub at_ip_invalid :
      (any : htonl 0 ≡ 0) (ip other : Bytes) (port : ℕ)
      → inet_pton ip ≡ none
      → at_ip ip port ≡ at_port port other
  unfolding at_ip at_port
  at_ip_invalid any ip other port e = rw (e, any) refl

  -- The print of an address has at most 21 bytes, so that it fits into the names that a server gives to
  -- its connections. The conditions on the system are that `inet_ntop` writes at most 15 bytes and
  -- `ntohs` returns 16 bits.
  pub length-to_ip_port :
      (short : (a : ℕ) → length (inet_ntop a) ≤ 15) (word : (p : ℕ) → ntohs p < 65536)
      (a : InetAddress)
      → length (to_ip_port a) ≤ 21
  unfolding to_ip_port
  length-to_ip_port short word a = omega (
    arith,
    length-append (inet_ntop a.address) (58 ∷ decimal (ntohs a.port)),
    short a.address,
    length-decimal_port (ntohs a.port) (word a.port),
  )
