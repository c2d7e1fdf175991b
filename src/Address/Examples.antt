-- ===== src/Address/Examples.antt =====
-- The theorems on net/InetAddress.cpp at a system of little-endian words whose texts are one byte.
use tiny_network_library.Base.{
  ℕ, ◌+◌, ◌*◌, ◌/◌, ◌%◌, ◌≤◌, arith, Option, none, some, [], ◌∷◌, length, Bytes,
}
use tiny_network_library.Address.{to_ip_port, length-to_ip_port}

abbrev swap_bytes : ℕ → ℕ
swap_bytes n = n % 256 * 256 + n / 256 % 256

abbrev keep : ℕ → ℕ
keep n = n

abbrev read_byte : Bytes → Option ℕ
read_byte (c ∷ []) = some c
read_byte _ = none

abbrev write_byte : ℕ → Bytes
write_byte a = a ∷ []

length-to_ip_port_example :
    length (
      to_ip_port swap_bytes swap_bytes keep read_byte write_byte
        (record { port = 20480; address = 7 }))
    ≤ 21
length-to_ip_port_example =
    length-to_ip_port swap_bytes swap_bytes keep read_byte write_byte (λ a. omega arith)
      (λ p. omega arith) (record { port = 20480; address = 7 })
