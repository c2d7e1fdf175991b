-- ===== src/Connection/Answers.antt =====
-- What a user of net/TcpConnection.cpp does with what arrives: it answers, and the connection listens again.
use tiny_network_library.Base.{
  ℕ, ◌+◌, ◌≤◌, ◌<◌, ◌≡◌, refl, sym, ap, ◌∙◌, arith, false, [], ◌∷◌, ◌++◌, Bytes, length,
  length-append, append_assoc, append-nil,
}
use tiny_network_library.Buffer.{contents}
use tiny_network_library.Buffer.Bounds.{IsValid, max_size}
use tiny_network_library.Connection.{
  Connection, Outcome, WriteResult, accepted, refused, send_in_loop, after_attempt, buffer_rest,
  handle_write, drained, shutdown_in_loop, is_disconnected, call_message,
}
use tiny_network_library.Connection.Deliver.{Listens}
use tiny_network_library.Connection.Effects.{Inv, IsHonest, written, written-append}
use tiny_network_library.Connection.Send.{IsUsable, send_in_loop-Sends}
use tiny_network_library.Connection.Stream.{handle_write-Sends}

-- After `n` bytes arrived, `d` is written, or waits behind what waited, and the connection listens again.
pub record Answers (n : ℕ) (d : Bytes) (c : Connection) (o : Outcome) : Type 0 where
  pub stream : contents c.output ++ d ≡ written o.1 ++ contents o.0.output
  pub listens : Listens o.0
  pub output_growth : length o.0.output.bytes ≤ length c.output.bytes + length d
  pub input_growth : length o.0.input.bytes ≤ length c.input.bytes + n

pub not_down : {c : Connection} → Listens c → is_disconnected c.state ≡ false
not_down v = ground (arith, v.up)

pub input-send_in_loop :
    (m : Bytes) (w : WriteResult) (c : Connection) → (send_in_loop m w c).0.input ≡ c.input
unfolding send_in_loop after_attempt buffer_rest
input-send_in_loop m w c = ground arith

input-handle_write : (w : WriteResult) (c : Connection) → (handle_write w c).0.input ≡ c.input
unfolding handle_write drained shutdown_in_loop
input-handle_write (accepted n) c = ground arith
input-handle_write (refused e) c = refl

pub nothing-Answers : {c : Connection} → Listens c → Answers 0 [] c (c, [])
nothing-Answers {c} v = record {
  stream = append-nil (contents c.output);
  listens = v;
  output_growth = omega arith;
  input_growth = omega arith;
}

pub writable-Answers :
    (w : WriteResult) {c : Connection} → Listens c → Answers 0 [] c (handle_write w c)
writable-Answers w {c} v =
    let s = handle_write-Sends w v.inv in
    let i = input-handle_write w c in
    record {
      stream = s.stream;
      listens = record {
        inv = s.inv;
        up = rw s.same_state v.up;
        sound = rw i v.sound;
        read = rw i v.read;
      };
      output_growth = s.growth;
      input_growth = rw i (omega arith);
    }

-- A message sent on a connection whose input was replaced, and read.
pub send_in_loop-Answers :
    (n : ℕ) (d : Bytes) (w : WriteResult) {c e : Connection}
    → Listens c
    → IsHonest (length d) w
    → IsUsable w
    → length c.output.bytes + length d < max_size
    → e ≡ record c { input = e.input }
    → IsValid e.input
    → contents e.input ≡ []
    → length e.input.bytes ≤ length c.input.bytes + n
    → Answers n d c (send_in_loop d w e)
send_in_loop-Answers n d w {c} {e} v honest usable fits same sound rest growth =
    let inv' : Inv (record c { input = e.input }) = record {
      sound = v.inv.sound;
      mask = v.inv.mask;
      interest = v.inv.interest;
    } in
    let s = send_in_loop-Sends d w inv' (not_down v) honest usable fits in
    let i = input-send_in_loop d w (record c { input = e.input }) in
    rw same (record {
      stream = s.stream;
      listens = record {
        inv = s.inv;
        up = rw s.same_state v.up;
        sound = rw i sound;
        read = rw i rest;
      };
      output_growth = s.growth;
      input_growth = rw i growth;
    })

-- One exchange and then another.
pub Answers-then :
    {n m : ℕ} {d e : Bytes} {c : Connection} {o p : Outcome}
    → Answers n d c o
    → Answers m e o.0 p
    → Answers (n + m) (d ++ e) c (p.0, o.1 ++ p.1)
Answers-then {n} {m} {d} {e} {c} {o} {p} s r = record {
  stream =
      sym (append_assoc (contents c.output) d e)
      ∙ ap (λ t. t ++ e) s.stream
      ∙ append_assoc (written o.1) (contents o.0.output) e
      ∙ ap (◌++◌ (written o.1)) r.stream
      ∙ sym (append_assoc (written o.1) (written p.1) (contents p.0.output))
      ∙ ap (λ t. t ++ contents p.0.output) (sym (written-append o.1 p.1));
  listens = r.listens;
  output_growth = omega (arith, length-append d e, s.output_growth, r.output_growth);
  input_growth = omega (arith, s.input_growth, r.input_growth);
}

-- The call of the callback writes nothing itself.
pub called-Answers :
    {n : ℕ} {d : Bytes} {c : Connection} {o : Outcome}
    → Answers n d c o
    → Answers n d c (o.0, call_message ∷ o.1)
called-Answers s = record {
  stream = s.stream;
  listens = s.listens;
  output_growth = s.output_growth;
  input_growth = s.input_growth;
}
