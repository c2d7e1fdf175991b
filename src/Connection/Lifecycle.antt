-- ===== src/Connection/Lifecycle.antt =====
-- The states of net/TcpConnection.cpp: establishing, half-closing and closing a connection.
use tiny_network_library.Base.{
  ℕ, ◌+◌, ◌≤◌, ◌<◌, ◌≡◌, refl, arith, Bool, true, false, ◌||◌, List, [], ◌∷◌, length, Bytes,
  Bool-cases, inl, inr,
}
use tiny_network_library.Buffer.{ReadResult, received, read_failed, new, initial_size}
use tiny_network_library.Buffer.Bounds.{max_size, new-IsValid}
use tiny_network_library.Channel.{new as new_channel, is_writing, disable_all, enable_reading, tie}
use tiny_network_library.Channel.Events.{reads, disable_all_lem}
use tiny_network_library.Connection.{
  new as new_connection, after_attempt, buffer_rest, ConnState, disconnected, connecting, connected,
  disconnecting, Connection, Effect, Outcome, send_in_loop, send, handle_write, handle_read,
  handle_close, shutdown, shutdown_in_loop, connect_established, connect_destroyed, drained,
  is_disconnected, is_connected, WriteResult, accepted, refused, shutdown_write,
}
use tiny_network_library.Connection.Effects.{IsHonest, Inv}
use tiny_network_library.Connection.Send.{IsUsable, send_in_loop-Sends}
use tiny_network_library.Connection.Stream.{handle_write-Sends}

-- Every operation of an established connection.
pub data Operation : Type 0 where
  sends_in_loop sends_elsewhere : Bytes → WriteResult → Operation
  writable : WriteResult → Operation
  readable : ReadResult → Operation
  closes : Operation
  shuts : Bool → Operation
  shuts_in_loop is_destroyed : Operation

unfoldable pub perform : Operation → Connection → Outcome
perform (sends_in_loop m w) c = send_in_loop m w c
perform (sends_elsewhere m w) c = send false m w c
perform (writable w) c = handle_write w c
perform (readable r) c = handle_read r c
perform closes c = handle_close c
perform (shuts here) c = shutdown here c
perform shuts_in_loop c = shutdown_in_loop c
perform is_destroyed c = connect_destroyed c

-- What the kernel promises, and that the output buffer stays below the largest vector.
abbrev pub Allows : Operation → Connection → Type 0
Allows (sends_in_loop m w) c =
    IsHonest (length m) w × IsUsable w × (length c.output.bytes + length m < max_size)
Allows (sends_elsewhere m w) c = Unit
Allows (writable w) c = Unit
Allows (readable r) c = Unit
Allows closes c = Unit
Allows (shuts here) c = Unit
Allows shuts_in_loop c = Unit
Allows is_destroyed c = Unit

down-Inv :
    (c : Connection)
    → Inv c
    → Inv (record c { state = disconnected; channel = disable_all c.channel })
down-Inv c v =
    let (_, off, mask) = disable_all_lem c.channel v.mask in
    record { sound = v.sound; mask = mask; interest = off }

-- A change of state that stays on the same side of `disconnected`, and of the input.
same-Inv :
    (c d : Connection)
    → Inv c
    → is_disconnected d.state ≡ is_disconnected c.state
    → d.output ≡ c.output
    → d.channel ≡ c.channel
    → Inv d
same-Inv c d v s o ch = record {
  sound = rw o v.sound;
  mask = rw ch v.mask;
  interest = rw (ch, o, s) v.interest;
}

pub send_down :
    (m : Bytes) (w : WriteResult) (c : Connection)
    → is_disconnected c.state ≡ true
    → send_in_loop m w c ≡ (c, [])
unfolding send_in_loop
send_down m w c e = rw e

pub send-keeps : (m : Bytes) (w : WriteResult) (c : Connection) → (send false m w c).0 ≡ c
unfolding send
send-keeps m w c = ground arith

handle_read-Inv : (r : ReadResult) (c : Connection) → Inv c → Inv (handle_read r c).0
unfolding handle_read
handle_read-Inv (read_failed e) c v = v
handle_read-Inv (received []) c v = down-Inv c v
handle_read-Inv (received (x ∷ d)) c v = same-Inv c _ v refl refl refl

handle_close-Inv : (c : Connection) → Inv c → Inv (handle_close c).0
unfolding handle_close
handle_close-Inv c v = down-Inv c v

shutdown-Inv : (here : Bool) (c : Connection) → Inv c → Inv (shutdown here c).0
unfolding shutdown shutdown_in_loop
shutdown-Inv here c v = elim (Bool-cases (is_connected c.state)) [
  | inr other ↦ rw other v
  | inl up ↦ elim (Bool-cases here) [
    | inl same ↦ rw (up, same) (same-Inv c _ v (ground arith) refl refl)
    | inr far ↦ rw (up, far) (same-Inv c _ v (ground arith) refl refl)
  ]
]

connect_destroyed-Inv : (c : Connection) → Inv c → Inv (connect_destroyed c).0
unfolding connect_destroyed
connect_destroyed-Inv c v = elim (Bool-cases (is_connected c.state)) [
  | inl up ↦ rw up (down-Inv c v)
  | inr other ↦ rw other v
]

-- Every operation, in every state, keeps the invariant of the output buffer and its write interest,
-- if the kernel takes no more than it is given, reports no broken connection to a direct write, and
-- the output stays below the largest vector.
pub perform-Inv : (o : Operation) (c : Connection) → Inv c → Allows o c → Inv (perform o c).0
unfolding perform
perform-Inv (sends_in_loop m w) c v (h, u, small) = elim (Bool-cases (is_disconnected c.state)) [
  | inl down ↦ rw (send_down m w c down) v
  | inr up ↦ (send_in_loop-Sends m w v up h u small).inv
]
perform-Inv (sends_elsewhere m w) c v h = rw (send-keeps m w c) v
perform-Inv (writable w) c v h = (handle_write-Sends w v).inv
perform-Inv (readable r) c v h = handle_read-Inv r c v
perform-Inv closes c v h = handle_close-Inv c v
perform-Inv (shuts here) c v h = shutdown-Inv here c v
perform-Inv shuts_in_loop c v h = unfold shutdown_in_loop in v
perform-Inv is_destroyed c v h = connect_destroyed-Inv c v

-- A new connection satisfies it, and so does an established one.
pub established-Inv : (fd : ℕ) → Inv (connect_established (new_connection fd)).0
unfolding connect_established new_connection new_channel enable_reading tie is_writing
established-Inv fd = record {
  sound = new-IsValid initial_size (omega arith);
  mask = reads refl;
  interest = unfold new in refl;
}

-- How far a connection has come.
abbrev pub rank : ConnState → ℕ
rank connecting = 0
rank connected = 1
rank disconnecting = 2
rank disconnected = 3

pub state-send_in_loop :
    (m : Bytes) (w : WriteResult) (c : Connection) → (send_in_loop m w c).0.state ≡ c.state
unfolding send_in_loop after_attempt buffer_rest
state-send_in_loop m w c = ground arith

pub state-handle_write : (w : WriteResult) (c : Connection) → (handle_write w c).0.state ≡ c.state
unfolding handle_write drained shutdown_in_loop
state-handle_write (accepted n) c = ground arith
state-handle_write (refused e) c = refl

rank-handle_read : (r : ReadResult) (c : Connection) → rank c.state ≤ rank (handle_read r c).0.state
unfolding handle_read handle_close
rank-handle_read (read_failed e) c = omega arith
rank-handle_read (received []) c = ground arith
rank-handle_read (received (x ∷ d)) c = omega arith

-- No operation takes an established connection back to an earlier state: it is connected, then
-- half-closed, then disconnected, and stays so.
pub rank-perform : (o : Operation) (c : Connection) → rank c.state ≤ rank (perform o c).0.state
unfolding perform
rank-perform (sends_in_loop m w) c = rw (state-send_in_loop m w c) (omega arith)
rank-perform (sends_elsewhere m w) c = rw (send-keeps m w c) (omega arith)
rank-perform (writable w) c = rw (state-handle_write w c) (omega arith)
rank-perform (readable r) c = rank-handle_read r c
rank-perform closes c = unfold handle_close in ground arith
rank-perform (shuts here) c = unfold shutdown shutdown_in_loop in ground arith
rank-perform shuts_in_loop c = unfold shutdown_in_loop in omega arith
rank-perform is_destroyed c = unfold connect_destroyed in ground arith

-- The half-close of the socket among the effects.
abbrev pub is_shutdown_write : Effect → Bool
is_shutdown_write shutdown_write = true
is_shutdown_write _ = false

abbrev pub half_closes : List Effect → Bool
half_closes [] = false
half_closes (e ∷ es) = is_shutdown_write e || half_closes es
