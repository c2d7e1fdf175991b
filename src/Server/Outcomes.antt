-- ===== src/Server/Outcomes.antt =====
-- What the operations of net/TcpConnection.cpp mean to the life of an open connection.
use tiny_network_library.Base.{
  ℕ, ◌≡◌, refl, ap, ◌∙◌, arith, Bool, true, false, List, [], ◌∷◌, ◌++◌, length, Bytes, ◌==◌, not,
  ◌&&◌, ltb, sub_size, Bool-cases, inl, inr,
}
use tiny_network_library.Connection.{
  Attempt, queue_write_complete, is_disconnected, is_idle, is_connected, shutdown_write, when,
  after_attempt, buffer_rest, attempt, no_attempt, send_in_loop, send, handle_write, drained,
  shutdown_in_loop, handle_read, handle_close, shutdown, WriteResult, accepted, refused, Connection,
  disconnected, Effect, call_connection, call_close, send_in_loop, after_attempt, buffer_rest,
  attempt, no_attempt, when, send, handle_write, drained, shutdown_in_loop, handle_read,
  handle_close, shutdown, WriteResult, accepted, refused,
}
use tiny_network_library.Channel.{is_writing}
use tiny_network_library.Buffer.{received, read_failed}
use tiny_network_library.Connection.Lifecycle.{
  state-send_in_loop, state-handle_write, Operation, perform, sends_in_loop, sends_elsewhere,
  writable, readable, closes, shuts, shuts_in_loop, is_destroyed,
}
use tiny_network_library.Server.Accepting.{is_open, closes_in, is_event}
use tiny_network_library.Server.Stages.{life_of, lifecycle}

-- What an operation of an open connection does to its stage: it stays open, or it is closed and the
-- server is told.
pub data Outcomes (c : Connection) (es : List Effect) : Type 0 where
  stays : is_open c.state ≡ true → closes_in es ≡ false → lifecycle es ≡ [] → Outcomes c es
  shuts_down :
      c.state ≡ disconnected
      → closes_in es ≡ true
      → lifecycle es ≡ call_connection ∷ call_close ∷ []
      → Outcomes c es

closed-Outcomes : (c : Connection) → Outcomes (handle_close c).0 (handle_close c).1
unfolding handle_close
closed-Outcomes c = shuts_down refl refl refl

-- Effects that are no part of the life of a connection.
abbrev Quiet : List Effect → Type 0
Quiet es = (closes_in es ≡ false) × (lifecycle es ≡ [])

Quiet-append : (es fs : List Effect) → Quiet es → Quiet fs → Quiet (es ++ fs)
Quiet-append [] fs h k = k
Quiet-append (e ∷ es) fs h k = ground (arith, Quiet-append es fs, h, k)

when-Quiet :
    (b : Bool) (e : Effect) → life_of e ≡ [] → closes_in (e ∷ []) ≡ false → Quiet (when b e)
when-Quiet true e h k = (k, rw h refl)
when-Quiet false e h k = (refl, refl)

attempt-Quiet : (m : Bytes) (w : WriteResult) (b : Bool) → Quiet (attempt m w b).effects
unfolding attempt
attempt-Quiet m (accepted n) b =
    when-Quiet (sub_size (length m) n == 0 && b) queue_write_complete refl refl
attempt-Quiet m (refused e) b = (refl, refl)

buffer_rest-Quiet : (m : Bytes) (n r : ℕ) (c : Connection) → Quiet (buffer_rest m n r c).1
unfolding buffer_rest
buffer_rest-Quiet m n r c = ground arith

after_attempt-Quiet :
    (m : Bytes) (a : Attempt) (c : Connection) → Quiet a.effects → Quiet (after_attempt m a c).1
unfolding after_attempt
after_attempt-Quiet m a c h = elim (Bool-cases (not a.error && ltb 0 a.remaining)) [
  | inl more ↦ rw more (Quiet-append a.effects _ h (buffer_rest-Quiet m a.nwrote a.remaining c))
  | inr none' ↦ rw none' h
]

send_in_loop-Quiet : (m : Bytes) (w : WriteResult) (c : Connection) → Quiet (send_in_loop m w c).1
unfolding send_in_loop no_attempt
send_in_loop-Quiet m w c = elim (Bool-cases (is_disconnected c.state)) [
  | inl down ↦ rw down (refl, refl)
  | inr up ↦ elim (Bool-cases (is_idle c)) [
    | inl idle ↦
        rw (up, idle)
          (after_attempt-Quiet m (attempt m w c.has_write_complete) c
            (attempt-Quiet m w c.has_write_complete))
    | inr busy ↦ rw (up, busy) (after_attempt-Quiet m (no_attempt m) c (refl, refl))
  ]
]

handle_write-Quiet : (w : WriteResult) (c : Connection) → Quiet (handle_write w c).1
unfolding handle_write drained shutdown_in_loop
handle_write-Quiet (accepted n) c = ground arith
handle_write-Quiet (refused e) c = (refl, refl)

Quiet-Outcomes :
    (c d : Connection) {es : List Effect}
    → is_open c.state ≡ true
    → d.state ≡ c.state
    → Quiet es
    → Outcomes d es
Quiet-Outcomes c d h e (q, r) = stays (ap is_open e ∙ h) q r

sends_elsewhere-Outcomes :
    (m : Bytes) (w : WriteResult) (c : Connection)
    → is_open c.state ≡ true
    → Outcomes (send false m w c).0 (send false m w c).1
unfolding send
sends_elsewhere-Outcomes m w c h = elim (Bool-cases (is_connected c.state)) [
  | inl up ↦ rw up (stays h refl refl)
  | inr other ↦ rw other (stays h refl refl)
]

shutdown-Outcomes :
    (here : Bool) (c : Connection)
    → is_open c.state ≡ true
    → Outcomes (shutdown here c).0 (shutdown here c).1
unfolding shutdown shutdown_in_loop
shutdown-Outcomes here c h = elim (Bool-cases (is_connected c.state)) [
  | inr other ↦ rw other (stays h refl refl)
  | inl up ↦ elim (Bool-cases here) [
    | inr far ↦ rw (up, far) (stays refl refl refl)
    | inl same ↦
        let (q, r) = when-Quiet (not (is_writing c.channel)) shutdown_write refl refl in
        rw (up, same) (stays refl q r)
  ]
]

pub perform-Outcomes :
    (op : Operation) (c : Connection)
    → is_open c.state ≡ true
    → is_event op ≡ true
    → Outcomes (perform op c).0 (perform op c).1
unfolding perform
perform-Outcomes (sends_in_loop m w) c h k =
    Quiet-Outcomes c _ h (state-send_in_loop m w c) (send_in_loop-Quiet m w c)
perform-Outcomes (sends_elsewhere m w) c h k = sends_elsewhere-Outcomes m w c h
perform-Outcomes (writable w) c h k =
    Quiet-Outcomes c _ h (state-handle_write w c) (handle_write-Quiet w c)
perform-Outcomes (readable (read_failed e)) c h k = unfold handle_read in stays h refl refl
perform-Outcomes (readable (received [])) c h k = unfold handle_read in closed-Outcomes c
perform-Outcomes (readable (received (x ∷ d))) c h k = unfold handle_read in stays h refl refl
perform-Outcomes closes c h k = closed-Outcomes c
perform-Outcomes (shuts here) c h k = shutdown-Outcomes here c h
perform-Outcomes shuts_in_loop c h k =
    unfold shutdown_in_loop in Quiet-Outcomes c _ h refl (when-Quiet _ _ refl refl)
perform-Outcomes is_destroyed c h k = cc
