-- ===== src/Server/Names.antt =====
-- The names that net/TcpServer.cpp gives to its connections.
use tiny_network_library.Base.{
  ℕ, ◌≤◌, ◌<◌, ◌≡◌, refl, ap, sym, ◌∙◌, arith, ◌∷◌, ◌++◌, [], drop, length, length-append, take_all,
  drop-append_self, Bytes, decimal, decimal_injective, length-decimal, append_assoc, false,
  bytes_eq, bytes_eq_sound, ◌==◌, Bool-cases, inl, inr,
}
use tiny_network_library.Server.Accepting.{conn_name}

-- What comes before the number.
abbrev front : Bytes → Bytes → Bytes
front name ip_port = name ++ (45 ∷ (ip_port ++ (35 ∷ [])))

-- An address of at most 51 bytes leaves room for ten digits.
conn_name-front :
    (name ip_port : Bytes) (i : ℕ)
    → length ip_port ≤ 51
    → i < 2147483648
    → conn_name name ip_port i ≡ front name ip_port ++ decimal i
unfolding conn_name
conn_name-front name ip_port i h k =
    let short : length (45 ∷ (ip_port ++ (35 ∷ decimal i))) ≤ 63 =
      omega (arith, length-append ip_port (35 ∷ decimal i), length-decimal i k) in
    ap (λ s. name ++ s) (take_all 63 (45 ∷ (ip_port ++ (35 ∷ decimal i))) short)
    ∙ rw
        (
          append_assoc name (45 ∷ (ip_port ++ (35 ∷ []))) (decimal i),
          append_assoc ip_port (35 ∷ []) (decimal i),
        )
        refl

cancel : (p s t : Bytes) → p ++ s ≡ p ++ t → s ≡ t
cancel p s t e =
    sym (drop-append_self (length p) p s refl)
    ∙ ap (drop (length p)) e
    ∙ drop-append_self (length p) p t refl

-- Two connections of one server have different names, as long as the address of the server is no
-- longer than 51 bytes and their numbers fit an `int`: the cut of `snprintf` takes nothing away.
pub conn_name_injective :
    (name ip_port : Bytes) (i j : ℕ)
    → length ip_port ≤ 51
    → i < 2147483648
    → j < 2147483648
    → conn_name name ip_port i ≡ conn_name name ip_port j
    → i ≡ j
conn_name_injective name ip_port i j h k l e = decimal_injective i j (
    cancel (front name ip_port) _ _
      (sym (conn_name-front name ip_port i h k) ∙ e ∙ conn_name-front name ip_port j h l))

pub conn_name_apart :
    (name ip_port : Bytes) (i j : ℕ)
    → length ip_port ≤ 51
    → i < 2147483648
    → j < 2147483648
    → (i == j) ≡ false
    → bytes_eq (conn_name name ip_port i) (conn_name name ip_port j) ≡ false
conn_name_apart name ip_port i j h k l d =
    elim (Bool-cases (bytes_eq (conn_name name ip_port i) (conn_name name ip_port j))) [
      | inr no' ↦ no'
      | inl same ↦
          let e = conn_name_injective name ip_port i j h k l (bytes_eq_sound _ _ same) in
          absurd (ground (arith, e, d))
    ]
