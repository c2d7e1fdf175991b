-- ===== src/Connection/Drained.antt =====
-- The outgoing stream of net/TcpConnection.cpp up to its half-close, over all operations.
use tiny_network_library.Base.{
  ◌≡◌, refl, sym, ap, ◌∙◌, arith, Bool, true, false, not, List, [], ◌∷◌, ◌++◌, append_assoc,
  append-nil, Bytes, Bool-cases, inl, inr, if◌then◌else◌,
}
use tiny_network_library.Buffer.{ReadResult, received, read_failed, contents}
use tiny_network_library.Connection.{
  Connection, Outcome, send, handle_read, handle_close, shutdown, shutdown_in_loop,
  connect_destroyed, is_disconnected, WriteResult,
}
use tiny_network_library.Channel.{is_writing}
use tiny_network_library.Connection.Effects.{written, written-append, Inv}
use tiny_network_library.Connection.Send.{send_in_loop-Sends}
use tiny_network_library.Connection.Stream.{handle_write-Sends, written-when_shutdown}
use tiny_network_library.Connection.Lifecycle.{
  Operation, sends_in_loop, sends_elsewhere, writable, readable, closes, shuts, shuts_in_loop,
  is_destroyed, perform, perform-Inv, Allows, half_closes, send_down,
}
use tiny_network_library.Connection.HalfClose.{half_close_drained}

-- The bytes that an operation takes for sending. A send from another thread takes none yet: it queues a
-- send in the loop.
abbrev pub taken : Operation → Connection → Bytes
taken (sends_in_loop m w) c = if is_disconnected c.state then [] else m
taken (sends_elsewhere m w) c = []
taken (writable w) c = []
taken (readable r) c = []
taken closes c = []
taken (shuts here) c = []
taken shuts_in_loop c = []
taken is_destroyed c = []

unfoldable pub perform_all : List Operation → Connection → Outcome
perform_all [] c = (c, [])
perform_all (o ∷ os) c =
    let (c1, out) = perform o c in let (c2, more) = perform_all os c1 in (c2, out ++ more)

abbrev pub taken_all : List Operation → Connection → Bytes
taken_all [] c = []
taken_all (o ∷ os) c = taken o c ++ taken_all os (perform o c).0

-- What the kernel promises at each operation.
abbrev pub AllowsAll : List Operation → Connection → Type 0
AllowsAll [] c = Unit
AllowsAll (o ∷ os) c = Allows o c × AllowsAll os (perform o c).0

-- What went to the kernel and then what waits is what waited and then what was taken.
abbrev Streams : Connection → Bytes → Outcome → Type 0
Streams c m o = contents c.output ++ m ≡ written o.1 ++ contents o.0.output

still : (c : Connection) (o : Outcome) → o.0.output ≡ c.output → written o.1 ≡ [] → Streams c [] o
still c o e k = rw (e, k) (append-nil (contents c.output))

send-still : (m : Bytes) (w : WriteResult) (c : Connection) → Streams c [] (send false m w c)
unfolding send
send-still m w c = still c (send false m w c) (ground arith) (ground arith)

handle_read-still : (r : ReadResult) (c : Connection) → Streams c [] (handle_read r c)
unfolding handle_read handle_close
handle_read-still (read_failed e) c = append-nil (contents c.output)
handle_read-still (received []) c = append-nil (contents c.output)
handle_read-still (received (x ∷ d)) c = append-nil (contents c.output)

shutdown-still : (here : Bool) (c : Connection) → Streams c [] (shutdown here c)
unfolding shutdown shutdown_in_loop
shutdown-still here c = still c (shutdown here c) (ground arith) (ground arith)

connect_destroyed-still : (c : Connection) → Streams c [] (connect_destroyed c)
unfolding connect_destroyed
connect_destroyed-still c = still c (connect_destroyed c) (ground arith) (ground arith)

perform-Streams :
    (o : Operation) (c : Connection) → Inv c → Allows o c → Streams c (taken o c) (perform o c)
unfolding perform
perform-Streams (sends_in_loop m w) c v (h, u, small) =
    elim (Bool-cases (is_disconnected c.state)) [
      | inl down ↦ rw (down, send_down m w c down) (append-nil (contents c.output))
      | inr up ↦ rw up (send_in_loop-Sends m w v up h u small).stream
    ]
perform-Streams (sends_elsewhere m w) c v h = send-still m w c
perform-Streams (writable w) c v h = (handle_write-Sends w v).stream
perform-Streams (readable r) c v h = handle_read-still r c
perform-Streams closes c v h = unfold handle_close in append-nil (contents c.output)
perform-Streams (shuts here) c v h = shutdown-still here c
perform-Streams shuts_in_loop c v h =
    still c (shutdown_in_loop c) (unfold shutdown_in_loop in refl)
      (unfold shutdown_in_loop in written-when_shutdown (not (is_writing c.channel)))
perform-Streams is_destroyed c v h = connect_destroyed-still c

-- Two stretches of the stream, one behind the other.
joins :
    (c : Connection) (m n : Bytes) (o p : Outcome)
    → Streams c m o
    → Streams o.0 n p
    → Streams c (m ++ n) (p.0, o.1 ++ p.1)
joins c m n o p h k =
    sym (append_assoc (contents c.output) m n)
    ∙ ap (λ t. t ++ n) h
    ∙ append_assoc (written o.1) (contents o.0.output) n
    ∙ ap (◌++◌ (written o.1)) k
    ∙ sym (append_assoc (written o.1) (written p.1) (contents p.0.output))
    ∙ ap (λ t. t ++ contents p.0.output) (sym (written-append o.1 p.1))

perform_all-Streams :
    (os : List Operation) (c : Connection)
    → Inv c
    → AllowsAll os c
    → Streams c (taken_all os c) (perform_all os c) × Inv (perform_all os c).0
unfolding perform_all
perform_all-Streams [] c v h = (append-nil (contents c.output), v)
perform_all-Streams (o ∷ os) c v (h, hs) =
    let (rest, v') = perform_all-Streams os (perform o c).0 (perform-Inv o c v h) hs in
    (
      joins c (taken o c) (taken_all os (perform o c).0) (perform o c)
          (perform_all os (perform o c).0) (perform-Streams o c v h) rest,
      v',
    )

-- When a connection half-closes its socket, the kernel has been given, in order, exactly the bytes that
-- waited at first and then all that was taken for sending up to then, and none waits any more. This
-- is over any sequence of operations, the last of which half-closes, from a connection that satisfies the
-- invariant and at the end is not disconnected, with a kernel that takes no more than it is given and
-- reports no broken connection to a direct write, and with an output that stays below the largest vector.
pub half_close_delivers :
    (os : List Operation) (o : Operation) (c : Connection)
    → Inv c
    → AllowsAll os c
    → Allows o (perform_all os c).0
    → is_disconnected (perform_all os c).0.state ≡ false
    → half_closes (perform o (perform_all os c).0).1 ≡ true
    → (contents c.output ++ (taken_all os c ++ taken o (perform_all os c).0)
        ≡ written ((perform_all os c).1 ++ (perform o (perform_all os c).0).1))
      × (contents (perform o (perform_all os c).0).0.output ≡ [])
half_close_delivers os o c v hs h up closing =
    let c1 = (perform_all os c).0 in
    let (front, v1) = perform_all-Streams os c v hs in
    let empty = half_close_drained o c1 v1 up closing in
    (
      joins c (taken_all os c) (taken o c1) (perform_all os c) (perform o c1) front
            (perform-Streams o c1 v1 h)
          ∙ ap (λ t. written ((perform_all os c).1 ++ (perform o c1).1) ++ t) empty
          ∙ append-nil (written ((perform_all os c).1 ++ (perform o c1).1)),
      empty,
    )
