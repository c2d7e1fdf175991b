-- ===== src/Server/Events.antt =====
-- What an event on an open connection means to its life: net/Channel.cpp may call several callbacks of
-- net/TcpConnection.cpp in a row.
use Prim.Native.Nat.{bit_or}
use tiny_network_library.Base.{
  ◌≡◌, refl, sym, arith, Bool, true, false, not, ◌&&◌, List, [], ◌∷◌, ◌++◌, append-nil, Bool-cases,
  inl, inr, subst,
}
use tiny_network_library.Buffer.{ReadResult, received, read_failed}
use tiny_network_library.Channel.{
  Callback, close_callback, error_callback, read_callback, write_callback, call_if, handle_event,
  handle_event_with_guard, has_bits, epoll_hup, epoll_in, epoll_pri, is_writing,
}
use tiny_network_library.Channel.Events.{disable_all_lem}
use tiny_network_library.Connection.{
  Connection, Effect, call_message, WriteResult, accepted, refused, handle_close, handle_read,
  handle_write,
}
use tiny_network_library.Connection.Effects.{Inv}
use tiny_network_library.Connection.Lifecycle.{perform, writable}
use tiny_network_library.Connection.Dispatch.{call, call_all, dispatch}
use tiny_network_library.Channel.{Channel}
use tiny_network_library.Server.Accepting.{is_open}
use tiny_network_library.Server.Outcomes.{Outcomes, stays, shuts_down, perform-Outcomes}

-- A connection that asks for no write events ignores them.
idle_write :
    (w : WriteResult) (c : Connection) → is_writing c.channel ≡ false → handle_write w c ≡ (c, [])
unfolding handle_write
idle_write (accepted n) c h = rw h refl
idle_write (refused e) c h = refl

closed_quiet : (c : Connection) → Inv c → is_writing (handle_close c).0.channel ≡ false
unfolding handle_close
closed_quiet c v = (disable_all_lem c.channel v.mask).1

abbrev write_part : Bool → List Callback
write_part b = call_if b write_callback

-- After a close, only the write callback may follow, and does nothing.
closed_write :
    (r : ReadResult) (w : WriteResult) (b : Bool) (c : Connection)
    → is_writing c.channel ≡ false
    → call_all r w (write_part b) c ≡ (c, [])
unfolding call_all call
closed_write r w false c h = refl
closed_write r w true c h = rw (idle_write w c h, call_all) refl

close_first :
    (r : ReadResult) (w : WriteResult) (b : Bool) (c : Connection)
    → Inv c
    → Outcomes
        (call_all r w (close_callback ∷ write_part b) c).0
        (call_all r w (close_callback ∷ write_part b) c).1
unfolding call_all call
close_first r w b c v =
    rw (call_all, closed_write r w b (handle_close c).0 (closed_quiet c v))
      (unfold handle_close in shuts_down refl refl refl)

open_write :
    (r : ReadResult) (w : WriteResult) (b : Bool) (c : Connection)
    → is_open c.state ≡ true
    → Outcomes (call_all r w (write_part b) c).0 (call_all r w (write_part b) c).1
unfolding call_all call
open_write r w false c h = stays h refl refl
open_write r w true c h = rw append-nil (unfold perform in perform-Outcomes (writable w) c h refl)

after_message : {c : Connection} {es : List Effect} → Outcomes c es → Outcomes c (call_message ∷ es)
after_message (stays h q k) = stays h q k
after_message (shuts_down h q k) = shuts_down h q k

read_first :
    (r : ReadResult) (w : WriteResult) (b : Bool) (c : Connection)
    → Inv c
    → is_open c.state ≡ true
    → Outcomes
        (call_all r w (read_callback ∷ write_part b) c).0
        (call_all r w (read_callback ∷ write_part b) c).1
unfolding call_all call handle_read
read_first (read_failed e) w b c v h = open_write (read_failed e) w b c h
read_first (received []) w b c v h = close_first (received []) w b c v
read_first (received (x ∷ d)) w b c v h = after_message (open_write (received (x ∷ d)) w b _ h)

guarded :
    (r : ReadResult) (w : WriteResult) (hangs errs reads writes : Bool) (c : Connection)
    → Inv c
    → is_open c.state ≡ true
    → hangs && reads ≡ false
    → Outcomes
        (call_all r w
          (call_if hangs close_callback
            ++ (call_if errs error_callback ++ (call_if reads read_callback ++ write_part writes)))
          c).0
        (call_all r w
          (call_if hangs close_callback
            ++ (call_if errs error_callback ++ (call_if reads read_callback ++ write_part writes)))
          c).1
unfolding call_all call
guarded r w true errs true writes c v h k = cc
guarded r w true true false writes c v h k = close_first r w writes c v
guarded r w true false false writes c v h k = close_first r w writes c v
guarded r w false true true writes c v h k = read_first r w writes c v h
guarded r w false false true writes c v h k = read_first r w writes c v h
guarded r w false true false writes c v h k = open_write r w writes c h
guarded r w false false false writes c v h k = open_write r w writes c h

guarded_mask :
    (r : ReadResult) (w : WriteResult) (c : Connection)
    → Inv c
    → is_open c.state ≡ true
    → (has_bits c.channel.revents epoll_hup
        && not (has_bits c.channel.revents epoll_in)
        && has_bits c.channel.revents (bit_or epoll_in epoll_pri))
      ≡ false
    → Outcomes
        (call_all r w (handle_event_with_guard c.channel) c).0
        (call_all r w (handle_event_with_guard c.channel) c).1
unfolding handle_event_with_guard
guarded_mask r w c v h k = guarded r w _ _ _ _ c v h (
    apart (has_bits c.channel.revents epoll_hup) (has_bits c.channel.revents epoll_in) _
      c.channel.has_close c.channel.has_read k)
  where
    apart :
        (hup inn any close read : Bool)
        → (hup && not inn && any) ≡ false
        → ((hup && not inn && close) && (any && read)) ≡ false
    apart hup inn any close read e = ground (arith, e)

alive_event : (c : Channel) → handle_event true c ≡ handle_event_with_guard c
unfolding handle_event
alive_event c = elim (Bool-cases c.tied) [ inl yes' ↦ rw yes' refl | inr no' ↦ rw no' refl ]

-- An event on an open connection ends it at most once. Whatever events are reported and whatever the
-- kernel answers, the connection stays open and no callback about its life is called, or it is
-- disconnected, and the user's callback and the server's are called once each. The condition is that
-- a hang-up without EPOLLIN comes without EPOLLPRI, and that the invariant of the connection holds.
pub dispatch-Outcomes :
    (r : ReadResult) (w : WriteResult) (c : Connection)
    → Inv c
    → is_open c.state ≡ true
    → (has_bits c.channel.revents epoll_hup
        && not (has_bits c.channel.revents epoll_in)
        && has_bits c.channel.revents (bit_or epoll_in epoll_pri))
      ≡ false
    → Outcomes (dispatch r w c).0 (dispatch r w c).1
unfolding dispatch
dispatch-Outcomes r w c v h k =
    subst (λ cbs. Outcomes (call_all r w cbs c).0 (call_all r w cbs c).1)
      (sym (alive_event c.channel)) (guarded_mask r w c v h k)
