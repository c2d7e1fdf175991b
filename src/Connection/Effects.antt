-- ===== src/Connection/Effects.antt =====
-- The bytes that a connection's effects gave to the kernel, and its invariant.
use tiny_network_library.Base.{
  Bool, ◌&&◌, Bool-cases, inl, inr, ℕ, ◌≤◌, ◌≡◌, refl, arith, true, false, not, List, [], ◌∷◌, ◌++◌,
  append_assoc, length, Bytes, ◌==◌,
}
use tiny_network_library.Buffer.{Buffer, contents, readable_bytes}
use tiny_network_library.Buffer.Bounds.{IsValid, length-contents}
use tiny_network_library.Channel.{is_writing}
use tiny_network_library.Channel.Events.{IsMask}
use tiny_network_library.Connection.{
  Connection, Effect, wrote, is_disconnected, WriteResult, accepted, refused,
}

abbrev pub written_by : Effect → Bytes
written_by (wrote d) = d
written_by _ = []

abbrev pub written : List Effect → Bytes
written [] = []
written (e ∷ es) = written_by e ++ written es

pub written-append : (es fs : List Effect) → written (es ++ fs) ≡ written es ++ written fs
written-append [] fs = refl
written-append (e ∷ es) fs = rw (written-append es fs, append_assoc)

-- A `write` of `n` bytes answers with at most `n`.
abbrev pub IsHonest : ℕ → WriteResult → Type 0
IsHonest n (accepted k) = k ≤ n
IsHonest n (refused e) = Unit

-- The output buffer is sound, and the connection asks for write events exactly while bytes wait in
-- it; a disconnected one asks for none.
pub record Inv (c : Connection) : Type 0 where
  pub sound : IsValid c.output
  pub mask : IsMask c.channel.events
  pub interest :
      is_writing c.channel ≡ (not (is_disconnected c.state) && not (readable_bytes c.output == 0))

pub interest_of :
    (down writes more : Bool)
    → (down ≡ false → writes ≡ more)
    → (down ≡ true → writes ≡ false)
    → writes ≡ (not down && more)
interest_of down writes more h k = elim (Bool-cases down) [
  | inl e ↦ rw (e, k e)
  | inr e ↦ rw (e, h e)
]

pub waiting :
    {c : Connection}
    → Inv c
    → is_disconnected c.state ≡ false
    → is_writing c.channel ≡ not (readable_bytes c.output == 0)
waiting v up = rw up at v.interest

pub quiet : {c : Connection} → Inv c → is_disconnected c.state ≡ true → is_writing c.channel ≡ false
quiet v down = rw down at v.interest

pub contents-nil : {b : Buffer} → IsValid b → (readable_bytes b == 0) ≡ true → contents b ≡ []
contents-nil {b} v h = nil_of_length (contents b) (ground (arith, length-contents v))
  where
    nil_of_length : (s : Bytes) → length s ≡ 0 → s ≡ []
    nil_of_length [] e = refl
    nil_of_length (x ∷ s) e = absurd (omega arith)

pub readable-contents : {b : Buffer} → IsValid b → readable_bytes b ≡ length (contents b)
readable-contents v = omega (arith, length-contents v)
