-- ===== src/Connection/Interest.antt =====
-- net/TcpConnection.cpp and its poller: whenever the events that a connection wants change, the poller
-- is told in the same operation.
use tiny_network_library.Base.{
  add_size, ℕ, ◌≡◌, refl, ◌∙◌, arith, Bool, true, false, not, ◌&&◌, List, [], ◌∷◌, ◌++◌, Bytes, ltb,
  leb, ◌==◌, if◌then◌else◌, Bool-cases, inl, inr, ◌⊎◌,
}
use tiny_network_library.Buffer.{ReadResult, received, read_failed, retrieve, readable_bytes}
use tiny_network_library.Channel.{
  is_writing, Callback, close_callback, error_callback, read_callback, write_callback, handle_event,
}
use tiny_network_library.Connection.{
  queue_high_water, Connection, Effect, update_channel, Outcome, Attempt, WriteResult, accepted,
  refused, when, after_attempt, buffer_rest, attempt, no_attempt, is_idle, is_disconnected,
  is_connected, is_disconnecting, send_in_loop, send, handle_write, drained, handle_read,
  handle_close, shutdown, shutdown_in_loop, connect_destroyed,
}
use tiny_network_library.Connection.Lifecycle.{
  Operation, sends_in_loop, sends_elsewhere, writable, readable, closes, shuts, shuts_in_loop,
  is_destroyed, perform,
}
use tiny_network_library.Connection.Dispatch.{call, call_all, dispatch}

-- The poller is told.
abbrev pub updates : List Effect → Bool
updates [] = false
updates (update_channel ∷ es) = true
updates (e ∷ es) = updates es

updates_left : (es fs : List Effect) → updates es ≡ true → updates (es ++ fs) ≡ true
updates_left [] fs h = cc
updates_left (e ∷ es) fs h = ground (arith, h, updates_left es fs)

updates_right : (es fs : List Effect) → updates fs ≡ true → updates (es ++ fs) ≡ true
updates_right [] fs h = h
updates_right (e ∷ es) fs h = ground (arith, updates_right es fs h)

-- An operation on `c` tells the poller, or leaves the channel as it is.
abbrev pub Told : Connection → Outcome → Type 0
Told c r = (updates r.1 ≡ true) ⊎ (r.0.channel ≡ c.channel)

Told-behind : (c : Connection) (es : List Effect) (r : Outcome) → Told c r → Told c (r.0, es ++ r.1)
Told-behind c es r (inl h) = inl (updates_right es r.1 h)
Told-behind c es r (inr e) = inr e

buffer_rest-Told : (m : Bytes) (n k : ℕ) (c : Connection) → Told c (buffer_rest m n k c)
unfolding buffer_rest
buffer_rest-Told m n k c = elim (Bool-cases (is_writing c.channel)) [
  | inl on ↦ rw on (inr refl)
  | inr off ↦
      let len = readable_bytes c.output in
      let high =
        when
          (leb c.high_water_mark (add_size len k) && ltb len c.high_water_mark && c.has_high_water)
          (queue_high_water (add_size len k)) in
      rw off (inl (updates_right high (update_channel ∷ []) refl))
]

after_attempt-Told : (m : Bytes) (a : Attempt) (c : Connection) → Told c (after_attempt m a c)
unfolding after_attempt
after_attempt-Told m a c = elim (Bool-cases (not a.error && ltb 0 a.remaining)) [
  | inl more ↦ rw more (
      Told-behind c a.effects (buffer_rest m a.nwrote a.remaining c)
        (buffer_rest-Told m a.nwrote a.remaining c))
  | inr enough ↦ rw enough (inr refl)
]

send_in_loop-Told : (m : Bytes) (w : WriteResult) (c : Connection) → Told c (send_in_loop m w c)
unfolding send_in_loop
send_in_loop-Told m w c = elim (Bool-cases (is_disconnected c.state)) [
  | inl down ↦ rw down (inr refl)
  | inr up ↦ rw up (
      after_attempt-Told m (if is_idle c then attempt m w c.has_write_complete else no_attempt m) c)
]

send-Told : (m : Bytes) (w : WriteResult) (c : Connection) → Told c (send false m w c)
unfolding send
send-Told m w c = elim (Bool-cases (is_connected c.state)) [
  | inl up ↦ rw up (inr refl)
  | inr other ↦ rw other (inr refl)
]

shutdown-Told : (here : Bool) (c : Connection) → Told c (shutdown here c)
unfolding shutdown shutdown_in_loop
shutdown-Told here c = elim (Bool-cases (is_connected c.state)) [
  | inr other ↦ rw other (inr refl)
  | inl up ↦ elim (Bool-cases here) [
    | inl same ↦ rw (up, same) (inr refl)
    | inr far ↦ rw (up, far) (inr refl)
  ]
]

drained-Told : (c : Connection) → updates (drained c).1 ≡ true
unfolding drained
drained-Told c = elim (Bool-cases (is_disconnecting c.state)) [
  | inl closing ↦ rw closing refl
  | inr other ↦ rw other refl
]

handle_write-Told : (w : WriteResult) (c : Connection) → Told c (handle_write w c)
unfolding handle_write
handle_write-Told (refused e) c = inr refl
handle_write-Told (accepted n) c = elim (Bool-cases (is_writing c.channel && ltb 0 n)) [
  | inr idle ↦ rw idle (inr refl)
  | inl busy ↦ elim (Bool-cases (readable_bytes (retrieve n c.output) == 0)) [
    | inl empty ↦ rw (busy, empty) (inl (drained-Told (record c { output = retrieve n c.output })))
    | inr left ↦ rw (busy, left) (inr refl)
  ]
]

handle_read-Told : (r : ReadResult) (c : Connection) → Told c (handle_read r c)
unfolding handle_read handle_close
handle_read-Told (read_failed e) c = inr refl
handle_read-Told (received []) c = inl refl
handle_read-Told (received (x ∷ d)) c = inr refl

connect_destroyed-Told : (c : Connection) → Told c (connect_destroyed c)
unfolding connect_destroyed
connect_destroyed-Told c = elim (Bool-cases (is_connected c.state)) [
  | inl up ↦ rw up (inl refl)
  | inr other ↦ rw other (inr refl)
]

-- No operation of a connection changes the events that it wants behind the poller's back: it tells the
-- poller, or it leaves the channel as it is.
pub perform-Told : (o : Operation) (c : Connection) → Told c (perform o c)
unfolding perform handle_close shutdown_in_loop
perform-Told (sends_in_loop m w) c = send_in_loop-Told m w c
perform-Told (sends_elsewhere m w) c = send-Told m w c
perform-Told (writable w) c = handle_write-Told w c
perform-Told (readable r) c = handle_read-Told r c
perform-Told closes c = inl refl
perform-Told (shuts here) c = shutdown-Told here c
perform-Told shuts_in_loop c = inr refl
perform-Told is_destroyed c = connect_destroyed-Told c

call-Told :
    (r : ReadResult) (w : WriteResult) (cb : Callback) (c : Connection) → Told c (call r w cb c)
unfolding call handle_close
call-Told r w close_callback c = inl refl
call-Told r w error_callback c = inr refl
call-Told r w read_callback c = handle_read-Told r c
call-Told r w write_callback c = handle_write-Told w c

Told-then : (c : Connection) (a b : Outcome) → Told c a → Told a.0 b → Told c (b.0, a.1 ++ b.1)
Told-then c a b (inl h) k = inl (updates_left a.1 b.1 h)
Told-then c a b (inr e) (inl k) = inl (updates_right a.1 b.1 k)
Told-then c a b (inr e) (inr k) = inr (k ∙ e)

call_all-Told :
    (r : ReadResult) (w : WriteResult) (cbs : List Callback) (c : Connection)
    → Told c (call_all r w cbs c)
unfolding call_all
call_all-Told r w [] c = inr refl
call_all-Told r w (cb ∷ cbs) c =
    Told-then c (call r w cb c) (call_all r w cbs (call r w cb c).0) (call-Told r w cb c)
      (call_all-Told r w cbs (call r w cb c).0)

-- Neither do the callbacks of an event, whatever is reported and whatever the kernel answers.
pub dispatch-Told : (r : ReadResult) (w : WriteResult) (c : Connection) → Told c (dispatch r w c)
unfolding dispatch
dispatch-Told r w c = call_all-Told r w (handle_event true c.channel) c
