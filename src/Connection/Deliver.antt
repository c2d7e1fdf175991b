-- ===== src/Connection/Deliver.antt =====
-- A read event of net/TcpConnection.cpp together with the user's message callback that it calls.
use tiny_network_library.Base.{
  ◌+◌, ◌≤◌, ◌<◌, ◌≡◌, refl, ◌∙◌, arith, Bool, true, false, List, [], ◌∷◌, ◌++◌, Option, none, some,
  Bytes, length, if◌then◌else◌,
}
use tiny_network_library.Buffer.{ReadResult, received, contents, read_fd, extra_size}
use tiny_network_library.Buffer.Bounds.{IsValid, max_size}
use tiny_network_library.Buffer.Reads.{read_fd_refines, length-read_fd}
use tiny_network_library.Connection.{
  Connection, Effect, call_message, Outcome, is_connected, handle_read,
}
use tiny_network_library.Connection.Effects.{Inv}

abbrev pub calls_message : List Effect → Bool
calls_message [] = false
calls_message (call_message ∷ es) = true
calls_message (e ∷ es) = calls_message es

abbrev pub behind : List Effect → Option Outcome → Option Outcome
behind es none = none
behind es (some (c, fs)) = some (c, es ++ fs)

-- `on_message` is the callback; `none` is one that does not return, or reads outside the storage.
unfoldable pub deliver : (Connection → Option Outcome) → ReadResult → Connection → Option Outcome
deliver on_message r c =
    let (c1, es) = handle_read r c in
    if calls_message es then behind es (on_message c1) else some (c1, es)

-- The connection is up and its input has been read.
pub record Listens (c : Connection) : Type 0 where
  pub inv : Inv c
  pub up : is_connected c.state ≡ true
  pub sound : IsValid c.input
  pub read : contents c.input ≡ []

-- The connection when the callback is called.
abbrev pub filled : Bytes → Connection → Connection
filled d c = record c { input = (read_fd (received d) c.input).0 }

-- What the callback finds: exactly the bytes that arrived.
pub record Finds (d : Bytes) (c : Connection) : Type 0 where
  pub all : contents (filled d c).input ≡ d
  pub sound : IsValid (filled d c).input
  pub growth : length (filled d c).input.bytes ≤ length c.input.bytes + length d

pub Listens-Finds :
    (d : Bytes) {c : Connection}
    → Listens c
    → length d ≤ extra_size
    → length c.input.bytes + extra_size < max_size
    → Finds d c
Listens-Finds d {c} v short fits =
    let (_, got, sound) = read_fd_refines d v.sound (omega arith) fits in
    record {
      all = got ∙ rw v.read refl;
      sound = sound;
      growth = length-read_fd d v.sound (omega arith) fits;
    }

pub deliver-filled :
    (on_message : Connection → Option Outcome) (d : Bytes) (c : Connection)
    → 0 < length d
    → deliver on_message (received d) c ≡ behind (call_message ∷ []) (on_message (filled d c))
unfolding deliver handle_read
deliver-filled on_message [] c h = absurd (omega arith)
deliver-filled on_message (x ∷ d) c h = refl
