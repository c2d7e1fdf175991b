-- ===== src/Echo/Whole.antt =====
-- The echo server of example/example_echoServer.cpp from the first byte to the last.
use tiny_network_library.Base.{
  subst, ℕ, ◌+◌, ◌≤◌, ◌<◌, ◌≡◌, refl, sym, ◌∙◌, arith, List, [], ◌∷◌, ◌++◌, some, All, Bytes,
  length, length-append,
}
use tiny_network_library.Buffer.{
  ReadResult, received, read_failed, retrieve, readable_bytes, extra_size,
}
use tiny_network_library.Buffer.Bounds.{max_size, retrieve-IsValid, length-bytes-retrieve}
use tiny_network_library.Buffer.Reads.{retrieve_all_as_string_lem}
use tiny_network_library.Connection.Deliver.{
  Listens, Finds, filled, deliver, Listens-Finds, deliver-filled,
}
use tiny_network_library.Connection.Answers.{
  Answers, nothing-Answers, writable-Answers, send_in_loop-Answers, Answers-then, called-Answers,
}
use tiny_network_library.Connection.{
  Connection, Outcome, WriteResult, handle_write, send, send_in_loop, handle_read, call_message,
}
use tiny_network_library.Connection.Effects.{IsHonest}
use tiny_network_library.Connection.Send.{IsUsable}
use tiny_network_library.Echo.{Event, arrives, writable, step, run, on_message}

-- The bytes that an event brings.
abbrev pub bytes_of : ReadResult → Bytes
bytes_of (received d) = d
bytes_of (read_failed e) = []

abbrev pub brought : Event → Bytes
brought (arrives r w) = bytes_of r
brought (writable w) = []

abbrev pub arrived : List Event → Bytes
arrived [] = []
arrived (e ∷ es) = brought e ++ arrived es

-- A read brings at least a byte and no more than the extra buffer holds, or fails; `write` takes no more than
-- it is given and reports no broken connection.
abbrev pub IsFair : Event → Type 0
IsFair (arrives (received d) w) =
    (0 < length d) × (length d ≤ extra_size) × IsHonest (length d) w × IsUsable w
IsFair (arrives (read_failed e) w) = Unit
IsFair (writable w) = Unit

-- What `d` leads to is `d`.
abbrev pub Echoes : Bytes → Connection → Outcome → Type 0
Echoes d c o = Answers (length d) d c o

on_message-Answers :
    (d : Bytes) (w : WriteResult) {c : Connection}
    → Listens c
    → Finds d c
    → IsHonest (length d) w
    → IsUsable w
    → length c.output.bytes + length d < max_size
    → (o : Outcome) × (on_message w (filled d c) ≡ some o) × Echoes d c o
unfolding on_message send
on_message-Answers d w {c} v f honest usable fits =
    let (taken, rest) = retrieve_all_as_string_lem f.sound in
    let b = (filled d c).input in
    let left = retrieve (readable_bytes b) b in
    let emptied : Connection = record c { input = left } in
    (
      send_in_loop d w emptied,
      rw (taken, on_message, f.all, v.up) refl,
      send_in_loop-Answers (length d) d w {c = c} {e = emptied} v honest usable fits refl
          (retrieve-IsValid (readable_bytes b) f.sound) rest
          (omega (arith, f.growth, length-bytes-retrieve (readable_bytes b) b)),
    )

-- Room for all that arrives, in both buffers.
abbrev pub HasRoom : ℕ → Connection → Type 0
HasRoom n c =
    (length c.input.bytes + n + extra_size < max_size) × (length c.output.bytes + n < max_size)

step-Echoes :
    (e : Event) {c : Connection}
    → Listens c
    → IsFair e
    → HasRoom (length (brought e)) c
    → (o : Outcome) × (step e c ≡ some o) × Echoes (brought e) c o
unfolding step
step-Echoes (writable w) {c} v fair room = (handle_write w c, refl, writable-Answers w v)
step-Echoes (arrives (read_failed e) w) {c} v fair room =
    ((c, []), unfold deliver handle_read in refl, nothing-Answers v)
step-Echoes (arrives (received d) w) {c} v (some', short, honest, usable) room =
    let (o, done, echo) =
      on_message-Answers d w v (Listens-Finds d v short (omega (arith, room))) honest usable
        (omega (arith, room)) in
    (
      (o.0, call_message ∷ o.1),
      deliver-filled (on_message w) d c some' ∙ rw done refl,
      called-Answers echo,
    )

-- On a connection that is up and has read its input: whatever arrives in pieces, and however slowly the
-- kernel takes bytes, the echo server never reads outside a buffer, and what was written and then what
-- waits is what waited at first and then exactly the bytes that arrived, in order; at the end
-- the connection is up and has read its input. A read must bring a byte at least and no more than the
-- extra buffer holds, the kernel must take no more than it is given and report no broken
-- connection, and all that arrives must fit below the largest vector.
pub run-Echoes :
    (es : List Event) {c : Connection}
    → Listens c
    → All IsFair es
    → HasRoom (length (arrived es)) c
    → (o : Outcome) × (run es c ≡ some o) × Echoes (arrived es) c o
unfolding run
run-Echoes [] {c} v fair room = ((c, []), refl, nothing-Answers v)
run-Echoes (e ∷ es) {c} v (h, hs) room =
    let total = length-append (brought e) (arrived es) in
    let (o, done, s) = step-Echoes e v h (omega (arith, total, room), omega (arith, total, room)) in
    let (p, rest, r) =
      run-Echoes es s.listens hs
        (omega (arith, total, room, s.input_growth), omega (arith, total, room, s.output_growth)) in
    (
      (p.0, o.1 ++ p.1),
      rw (done, rest, run) refl,
      subst (λ n. Answers n (brought e ++ arrived es) c (p.0, o.1 ++ p.1)) (sym total)
          (Answers-then s r),
    )
