-- ===== src/Connection/Stream.antt =====
-- `handleWrite` of net/TcpConnection.cpp, and the whole outgoing stream of a connection.
use tiny_network_library.Base.{
  ℕ, ◌+◌, ◌<◌, ◌≡◌, inl, inr, refl, sym, ap, ◌∙◌, arith, Bool, true, false, ◌&&◌, List, [], ◌∷◌,
  ◌++◌, append_assoc, append-nil, length, take, Bytes, ◌==◌, ltb, Bool-cases, take-append-drop,
  length-append, All,
}
use tiny_network_library.Buffer.{contents, readable_bytes, retrieve}
use tiny_network_library.Buffer.Bounds.{length-bytes-retrieve, IsValid, max_size, retrieve-IsValid}
use tiny_network_library.Buffer.Reads.{contents-retrieve}
use tiny_network_library.Channel.{is_writing, disable_writing}
use tiny_network_library.Channel.Events.{IsMask, disable_writing_lem}
use tiny_network_library.Connection.{
  Connection, Outcome, send_in_loop, handle_write, drained, shutdown_in_loop, is_disconnected,
  WriteResult, accepted, refused, when, shutdown_write,
}
use tiny_network_library.Connection.Effects.{
  interest_of, quiet, written, written-append, IsHonest, Inv,
}
use tiny_network_library.Connection.Send.{Sends, IsUsable, send_in_loop-Sends}

pub written-when_shutdown : (b : Bool) → written (when b shutdown_write) ≡ []
written-when_shutdown true = refl
written-when_shutdown false = refl

-- The buffer has just run empty, while the channel still asked for write events.
drained-Inv :
    (c : Connection)
    → IsValid c.output
    → IsMask c.channel.events
    → (readable_bytes c.output == 0) ≡ true
    → Inv (record c { channel = disable_writing c.channel })
drained-Inv c sound mask empty =
    let (_, off, mask') = disable_writing_lem c.channel mask in
    record {
      sound = sound;
      mask = mask';
      interest = interest_of (is_disconnected c.state) _ _ (λ _. rw (empty, off)) (λ _. off);
    }

drained_lem :
    (c : Connection)
    → ((drained c).0 ≡ record c { channel = disable_writing c.channel })
      × (written (drained c).1 ≡ [])
unfolding drained shutdown_in_loop
drained_lem c = (ground arith, ground arith)

-- Part of the waiting bytes is gone, and the channel goes on asking for write events.
partly-Inv :
    (n : ℕ) {c : Connection}
    → Inv c
    → is_writing c.channel ≡ true
    → (readable_bytes (retrieve n c.output) == 0) ≡ false
    → Inv (record c { output = retrieve n c.output })
partly-Inv n {c} v writing more = record {
  sound = retrieve-IsValid n v.sound;
  mask = v.mask;
  interest =
      interest_of (is_disconnected c.state) _ _ (λ _. rw (writing, more)) (λ down. quiet v down);
}

flushed :
    (n : ℕ) {c : Connection}
    → Inv c
    → contents c.output ++ [] ≡ (take n (contents c.output) ++ []) ++ contents (retrieve n c.output)
flushed n {c} v =
    append-nil (contents c.output)
    ∙ sym (take-append-drop n (contents c.output))
    ∙ ap (◌++◌ (take n (contents c.output))) (sym (contents-retrieve n v.sound))
    ∙ ap (λ s. s ++ contents (retrieve n c.output)) (sym (append-nil (take n (contents c.output))))

idle-Sends : {c : Connection} → Inv c → Sends [] c (c, [])
idle-Sends {c} v = record {
  stream = append-nil (contents c.output);
  inv = v;
  same_state = refl;
  growth = omega arith;
}

-- On a connection that satisfies the invariant, `handleWrite` gives the kernel bytes from the front of those that wait, keeps the others in order,
-- and keeps the invariant and the state; on an error, or where nothing is to be written, it changes
-- nothing.
pub handle_write-Sends : (w : WriteResult) {c : Connection} → Inv c → Sends [] c (handle_write w c)
unfolding handle_write
handle_write-Sends (refused e) v = idle-Sends v
handle_write-Sends (accepted n) {c} v = elim (Bool-cases (is_writing c.channel && ltb 0 n)) [
  | inr still ↦ rw still (idle-Sends v)
  | inl go ↦
      let writing : is_writing c.channel ≡ true = ground arith in
      let c1 : Connection = record c { output = retrieve n c.output } in
      elim (Bool-cases (readable_bytes (retrieve n c.output) == 0)) [
        | inl empty ↦
            rw (go, empty, (drained_lem c1).0)
              (record {
                stream = rw (drained_lem c1).1 (flushed n v);
                inv = drained-Inv c1 (retrieve-IsValid n v.sound) v.mask empty;
                same_state = refl;
                growth = omega (arith, length-bytes-retrieve n c.output);
              })
        | inr more ↦
            rw (go, more)
              (record {
                stream = flushed n v;
                inv = partly-Inv n v writing more;
                same_state = refl;
                growth = omega (arith, length-bytes-retrieve n c.output);
              })
      ]
]

-- The two operations that move outgoing bytes.
pub data Event : Type 0 where
  sends : Bytes → WriteResult → Event
  writable : WriteResult → Event

unfoldable pub step : Event → Connection → Outcome
step (sends m w) c = send_in_loop m w c
step (writable w) c = handle_write w c

unfoldable pub run : List Event → Connection → Outcome
unfolding step
run [] c = (c, [])
run (e ∷ es) c = let (c1, out) = step e c in let (c2, more) = run es c1 in (c2, out ++ more)

abbrev pub message : Event → Bytes
message (sends m w) = m
message (writable w) = []

abbrev pub messages : List Event → Bytes
messages [] = []
messages (e ∷ es) = message e ++ messages es

-- What the kernel promises at an event.
abbrev pub IsFairAt : Event → Type 0
IsFairAt (sends m w) = IsHonest (length m) w × IsUsable w
IsFairAt (writable w) = Unit

step-Sends :
    (e : Event) {c : Connection}
    → Inv c
    → is_disconnected c.state ≡ false
    → IsFairAt e
    → length c.output.bytes + length (message e) < max_size
    → Sends (message e) c (step e c)
unfolding step
step-Sends (sends m w) v up (h, u) small = send_in_loop-Sends m w v up h u small
step-Sends (writable w) v up h small = handle_write-Sends w v

-- On a connection that satisfies the invariant and is not disconnected, over any sequence of sends
-- and write events in which the kernel takes no more than it is given and reports no broken
-- connection to a direct write, and with all messages fitting below the largest vector: what the kernel has
-- accepted and then what waits is what waited at first and then all messages in the order in which
-- they were sent; the invariant holds at the end.
pub run-Sends :
    (es : List Event) {c : Connection}
    → Inv c
    → is_disconnected c.state ≡ false
    → All IsFairAt es
    → length c.output.bytes + length (messages es) < max_size
    → Sends (messages es) c (run es c)
unfolding run
run-Sends [] v up h small = idle-Sends v
run-Sends (e ∷ es) {c} v up (h, hs) small =
    let total = length-append (message e) (messages es) in
    let s = step-Sends e v up h (omega (arith, total)) in
    let c1 = (step e c).0 in
    let r = run-Sends es s.inv (rw s.same_state up) hs (omega (arith, total, s.growth)) in
    record {
      stream =
          sym (append_assoc (contents c.output) (message e) (messages es))
          ∙ ap (λ t. t ++ messages es) s.stream
          ∙ append_assoc (written (step e c).1) (contents c1.output) (messages es)
          ∙ ap (◌++◌ (written (step e c).1)) r.stream
          ∙ sym (
              append_assoc (written (step e c).1) (written (run es c1).1)
                (contents (run es c1).0.output))
          ∙ ap (λ t. t ++ contents (run es c1).0.output)
              (sym (written-append (step e c).1 (run es c1).1));
      inv = r.inv;
      same_state = r.same_state ∙ s.same_state;
      growth = omega (arith, total, s.growth, r.growth);
    }
