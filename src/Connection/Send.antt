-- ===== src/Connection/Send.antt =====
-- `sendInLoop` of net/TcpConnection.cpp: no byte is lost, repeated or reordered.
use tiny_network_library.Base.{
  ℕ, ◌+◌, ◌≤◌, ◌<◌, ◌≡◌, ◌⊎◌, inl, inr, refl, sym, ap, ◌∙◌, arith, Bool, true, false, ◌&&◌, [],
  ◌++◌, append_assoc, append-nil, length, take, drop, Bytes, ◌==◌, ltb, Bool-cases,
  take-append-drop, length-drop, take_all, drop_all, sub_size, length-append, ltb→lt,
}
use tiny_network_library.Buffer.{contents, append}
use tiny_network_library.Buffer.Bounds.{max_size, length-bytes-append}
use tiny_network_library.Buffer.Contents.{append_refines}
use tiny_network_library.Channel.{Channel, is_writing, enable_writing}
use tiny_network_library.Channel.Events.{IsMask, enable_writing_lem}
use tiny_network_library.Connection.{
  Connection, Outcome, Attempt, attempt, no_attempt, after_attempt, buffer_rest, is_idle, is_fatal,
  send_in_loop, is_disconnected, WriteResult, accepted, refused, when, queue_write_complete,
  queue_high_water, Errno,
}
use tiny_network_library.Connection.Effects.{
  written, written-append, IsHonest, Inv, contents-nil, readable-contents,
}

pub written-when_complete : (b : Bool) → written (when b queue_write_complete) ≡ []
written-when_complete true = refl
written-when_complete false = refl

written-when_high : (b : Bool) (n : ℕ) → written (when b (queue_high_water n)) ≡ []
written-when_high true n = refl
written-when_high false n = refl

-- What an operation that takes `message` owes: the bytes that it gave to the kernel and then those
-- that it keeps are those that were kept and then the message; the rest is as it was.
pub record Sends (message : Bytes) (c : Connection) (o : Outcome) : Type 0 where
  pub stream : contents c.output ++ message ≡ written o.1 ++ contents o.0.output
  pub inv : Inv o.0
  pub same_state : o.0.state ≡ c.state
  pub growth : length o.0.output.bytes ≤ length c.output.bytes + length message

-- An attempt wrote the first `nwrote` bytes, and those only if nothing was waiting.
record Splits (message : Bytes) (c : Connection) (a : Attempt) : Type 0 where
  total : a.nwrote + a.remaining ≡ length message
  front : written a.effects ≡ take a.nwrote message
  first : (contents c.output ≡ []) ⊎ (a.nwrote ≡ 0)

module _ (message : Bytes) {c : Connection} (v : Inv c) where
  attempt-Splits :
      (w : WriteResult)
      → IsHonest (length message) w
      → length message < max_size
      → contents c.output ≡ []
      → Splits message c (attempt message w c.has_write_complete)
  unfolding attempt
  attempt-Splits (accepted n) h small empty = record {
    total = omega arith;
    front =
        rw (written-when_complete (sub_size (length message) n == 0 && c.has_write_complete))
          (append-nil (take n message));
    first = inl empty;
  }
  attempt-Splits (refused e) h small empty = record {
    total = omega arith;
    front = refl;
    first = inl empty;
  }

  no_attempt-Splits : Splits message c (no_attempt message)
  unfolding no_attempt
  no_attempt-Splits = record { total = omega arith; front = refl; first = inr refl }

  -- The order of the bytes, whatever part was written directly.
  seam :
      (a : Attempt)
      → Splits message c a
      → contents c.output ++ message
        ≡ take a.nwrote message ++ (contents c.output ++ drop a.nwrote message)
  seam a s = elim s.first [
    | inl empty ↦ rw empty (sym (take-append-drop a.nwrote message))
    | inr none' ↦ rw none' refl
  ]

  -- The output buffer with `d` appended, in a connection that asks for write events.
  kept :
      (d : Bytes) (ch : Channel)
      → is_disconnected c.state ≡ false
      → 0 < length d
      → length c.output.bytes + length d < max_size
      → is_writing ch ≡ true
      → IsMask ch.events
      → Inv (record c { output = append d c.output; channel = ch })
  kept d ch up more small writing mask =
      let (grown, valid) = append_refines d v.sound small in
      record {
        sound = valid;
        mask = mask;
        interest = rw up (
            ground (
              arith,
              readable-contents valid,
              ap length grown,
              length-append (contents c.output) d,
            ));
      }

  buffer_rest-Sends :
      (a : Attempt)
      → Splits message c a
      → is_disconnected c.state ≡ false
      → 0 < a.remaining
      → length c.output.bytes + length message < max_size
      → Sends (drop a.nwrote message) c (buffer_rest message a.nwrote a.remaining c)
  unfolding buffer_rest
  buffer_rest-Sends a s up more small =
      let d = drop a.nwrote message in
      let whole : take a.remaining d ≡ d =
        take_all a.remaining d (omega (arith, s.total, length-drop a.nwrote message)) in
      let some' : 0 < length d = omega (arith, s.total, length-drop a.nwrote message) in
      let room : length c.output.bytes + length d < max_size =
        omega (arith, length-drop a.nwrote message) in
      let grown = (append_refines d v.sound room).0 in
      let long = length-bytes-append d v.sound room in
      let (_, on, mask) = enable_writing_lem c.channel v.mask in
      elim (Bool-cases (is_writing c.channel)) [
        | inl writing ↦
            rw (whole, writing, buffer_rest)
              (record {
                stream = rw written-when_high (sym grown);
                inv = kept d c.channel up some' room writing v.mask;
                same_state = refl;
                growth = long;
              })
        | inr idle ↦
            rw (whole, idle, buffer_rest)
              (record {
                stream = rw (written-append, written-when_high) (sym grown);
                inv = kept d (enable_writing c.channel) up some' room on mask;
                same_state = refl;
                growth = long;
              })
      ]

  after_attempt-Sends :
      (a : Attempt)
      → Splits message c a
      → a.error ≡ false
      → is_disconnected c.state ≡ false
      → length c.output.bytes + length message < max_size
      → Sends message c (after_attempt message a c)
  unfolding after_attempt
  after_attempt-Sends a s fine up small = elim (Bool-cases (ltb 0 a.remaining)) [
    | inl more ↦
        let r = buffer_rest-Sends a s up (ltb→lt 0 a.remaining more) small in
        rw (fine, more)
          (record {
            stream =
                seam a s
                ∙ rw (
                  written-append a.effects (buffer_rest message a.nwrote a.remaining c).1,
                  s.front,
                  append_assoc,
                  ← r.stream,
                );
            inv = r.inv;
            same_state = r.same_state;
            growth = omega (arith, r.growth, length-drop a.nwrote message);
          })
    | inr done ↦
        rw (fine, done)
          (record {
            stream =
                seam a s
                ∙ rw (
                  s.front,
                  drop_all a.nwrote message (ground (arith, s.total)),
                  append-nil (contents c.output),
                );
            inv = v;
            same_state = refl;
            growth = omega arith;
          })
  ]

-- The kernel did not report a broken connection to a direct write.
abbrev pub IsUsable : WriteResult → Type 0
IsUsable (accepted n) = Unit
IsUsable (refused e) = is_fatal e ≡ false

attempt-error :
    (message : Bytes) (w : WriteResult) (b : Bool)
    → IsUsable w
    → (attempt message w b).error ≡ false
unfolding attempt
attempt-error message (accepted n) b u = refl
attempt-error message (refused e) b u = u

-- On a connection that satisfies the invariant and is not disconnected, whose output stays below the
-- largest vector, with a kernel that takes no more than it is given and
-- reports no broken connection, `sendInLoop` loses, repeats and reorders nothing: what went to the
-- kernel and then what waits is what waited and then the message. The invariant is kept, and so is
-- the state.
pub send_in_loop-Sends :
    (message : Bytes) (w : WriteResult) {c : Connection}
    → Inv c
    → is_disconnected c.state ≡ false
    → IsHonest (length message) w
    → IsUsable w
    → length c.output.bytes + length message < max_size
    → Sends message c (send_in_loop message w c)
unfolding send_in_loop
send_in_loop-Sends message w {c} v up h u small = elim (Bool-cases (is_idle c)) [
  | inl idle ↦
      rw (up, idle, send_in_loop)
        (after_attempt-Sends message v _
          (attempt-Splits message v w h (omega arith)
            (contents-nil v.sound (unfold is_idle in ground arith)))
          (attempt-error message w c.has_write_complete u) up small)
  | inr busy ↦
      rw (up, busy, send_in_loop)
        (after_attempt-Sends message v _ (no_attempt-Splits message v) (unfold no_attempt in refl)
          up small)
]

-- A direct write that finds the connection broken drops the whole message and changes nothing.
pub send_in_loop_broken :
    (message : Bytes) (e : Errno) {c : Connection}
    → is_disconnected c.state ≡ false
    → is_idle c ≡ true
    → is_fatal e ≡ true
    → send_in_loop message (refused e) c ≡ (c, [])
unfolding send_in_loop after_attempt attempt
send_in_loop_broken message e up idle fatal = rw (up, idle, fatal)
