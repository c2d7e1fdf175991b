-- ===== src/Connection/HalfClose.antt =====
-- When net/TcpConnection.cpp half-closes its socket: never over bytes that still wait.
use tiny_network_library.Base.{◌≡◌, refl, arith, true, false, [], ◌∷◌, Bytes, ◌==◌, Bool}
use tiny_network_library.Buffer.{ReadResult, received, read_failed, contents, readable_bytes}
use tiny_network_library.Connection.{
  Connection, send_in_loop, send, handle_write, handle_read, handle_close, attempt, no_attempt,
  after_attempt, buffer_rest, shutdown, shutdown_in_loop, connect_destroyed, drained,
  is_disconnected, WriteResult, accepted, refused,
}
use tiny_network_library.Connection.Effects.{waiting, Inv, contents-nil}
use tiny_network_library.Connection.Stream.{handle_write-Sends}
use tiny_network_library.Connection.Lifecycle.{
  Operation, sends_in_loop, sends_elsewhere, writable, readable, closes, shuts, shuts_in_loop,
  is_destroyed, perform, half_closes,
}

send_in_loop_open :
    (m : Bytes) (w : WriteResult) (c : Connection) → half_closes (send_in_loop m w c).1 ≡ false
unfolding send_in_loop after_attempt buffer_rest attempt no_attempt
send_in_loop_open m (accepted n) c = ground arith
send_in_loop_open m (refused e) c = ground arith

handle_read_open : (r : ReadResult) (c : Connection) → half_closes (handle_read r c).1 ≡ false
unfolding handle_read handle_close
handle_read_open (read_failed e) c = refl
handle_read_open (received []) c = refl
handle_read_open (received (x ∷ d)) c = refl

handle_write_empty :
    (w : WriteResult) (c : Connection)
    → half_closes (handle_write w c).1 ≡ true
    → (readable_bytes (handle_write w c).0.output == 0) ≡ true
unfolding handle_write drained shutdown_in_loop
handle_write_empty (refused e) c h = cc
handle_write_empty (accepted n) c h = ground arith

shutdown_drained :
    (here : Bool) (c : Connection)
    → Inv c
    → is_disconnected c.state ≡ false
    → half_closes (shutdown here c).1 ≡ true
    → contents (shutdown here c).0.output ≡ []
unfolding shutdown shutdown_in_loop
shutdown_drained here c v up h =
    let kept : (shutdown here c).0.output ≡ c.output = ground arith in
    let empty : (readable_bytes c.output == 0) ≡ true = ground (arith, waiting v up) in
    rw kept (contents-nil v.sound empty)

-- On a connection that satisfies the invariant and is not disconnected, whatever operation
-- half-closes the socket leaves the output buffer empty.
pub half_close_drained :
    (o : Operation) (c : Connection)
    → Inv c
    → is_disconnected c.state ≡ false
    → half_closes (perform o c).1 ≡ true
    → contents (perform o c).0.output ≡ []
unfolding perform shutdown_in_loop
half_close_drained (sends_in_loop m w) c v up h = cc (send_in_loop_open m w c)
half_close_drained (sends_elsewhere m w) c v up h = unfold send in ground arith
half_close_drained (writable w) c v up h =
    contents-nil (handle_write-Sends w v).inv.sound (handle_write_empty w c h)
half_close_drained (readable r) c v up h = cc (handle_read_open r c)
half_close_drained closes c v up h = unfold handle_close in ground arith
half_close_drained (shuts here) c v up h = shutdown_drained here c v up h
half_close_drained shuts_in_loop c v up h = contents-nil v.sound (ground (arith, waiting v up))
half_close_drained is_destroyed c v up h = unfold connect_destroyed in ground arith
