-- ===== src/Http/Answering/Whole.antt =====
-- What http/HttpServer.cpp makes of a sequence of requests, byte by byte.
use tiny_network_library.Base.{
  length-append, ℕ, ◌+◌, ◌<◌, ◌≡◌, refl, ap, ◌∙◌, arith, Bool, true, false, List, [], ◌∷◌, ◌++◌,
  some, length, append-nil, All,
}
use tiny_network_library.Buffer
use tiny_network_library.Buffer.{Buffer, received, contents, initial_size, extra_size}
use tiny_network_library.Buffer.Bounds.{new-IsValid, max_size}
use tiny_network_library.Connection.{
  Connection, Outcome, WriteResult, send, send_buffer, send_in_loop, handle_write, is_connected,
  call_message,
}
use tiny_network_library.Connection.Answers.{
  Answers, send_in_loop-Answers, nothing-Answers, writable-Answers, Answers-then, called-Answers,
}
use tiny_network_library.Connection.Deliver.{Listens, Finds, filled, Listens-Finds, deliver-filled}
use tiny_network_library.Http.Context.Whole.{parse_request-Complete}
use tiny_network_library.Http.Request.{Request}
use tiny_network_library.Http.Response.{
  Response, append_to_buffer, append_to_buffer_refines, response_text,
}
use tiny_network_library.Http.Context.{init, is_got_all}
use tiny_network_library.Http.Context.Storage.{parse_request-storage}
use tiny_network_library.Http.Server.{on_parsed, and_then, shutdown_if, on_request, on_message}
use tiny_network_library.Http.Answering.{
  Wire, wire_text, length-wire_text, Event, arrives, writable, response, step, run, brought, owed,
  all_brought, all_owed, IsFair, HasRoom,
}

module _ (callback : Request → Response → Response) where
  contents-response :
      (r : Response)
      → length (response_text r) + initial_size + 8 < max_size
      → contents (append_to_buffer r (Buffer.new initial_size)) ≡ response_text r
  unfolding Buffer.new contents
  contents-response r fits =
      (append_to_buffer_refines r (new-IsValid initial_size (omega arith)) (omega arith)).0

  no_shutdown : (b : Bool) (o : Outcome) → b ≡ false → and_then o (shutdown_if b) ≡ o
  no_shutdown true o e = absurd (cc)
  no_shutdown false o e = ap (λ l. (o.0, l)) (append-nil o.1)

  send_buffer-send :
      (b : Buffer) (w : WriteResult) (c : Connection)
      → is_connected c.state ≡ true
      → (send_buffer true b w c).0 ≡ send_in_loop (contents b) w c
  unfolding send_buffer send
  send_buffer-send b w c up = rw up refl

  -- A response that keeps the connection is sent, and nothing else.
  response-send :
      (r : Response) (w : WriteResult) (c : Connection)
      → is_connected c.state ≡ true
      → r.close_connection ≡ false
      → length (response_text r) + initial_size + 8 < max_size
      → and_then
          (send_buffer true (append_to_buffer r (Buffer.new initial_size)) w c).0
          (shutdown_if r.close_connection)
        ≡ send_in_loop (response_text r) w c
  response-send r w c up stays fits =
      let b = append_to_buffer r (Buffer.new initial_size) in
      no_shutdown r.close_connection (send_buffer true b w c).0 stays
      ∙ send_buffer-send b w c up
      ∙ ap (λ d. send_in_loop d w c) (contents-response r fits)

  request-Answers :
      (x : Wire) (t : ℕ) (w : WriteResult) {c : Connection}
      → Listens c
      → Finds (wire_text x) c
      → IsFair callback (arrives x t w)
      → length c.output.bytes + length (response_text (response callback x t)) + initial_size + 8
        < max_size
      → (o : Outcome) × (on_message callback w t (filled (wire_text x) c) ≡ some o)
        × Answers (length (wire_text x)) (response_text (response callback x t)) c o
  unfolding on_message on_parsed on_request is_got_all
  request-Answers x t w {c} v f ((line, plain), short, stays, honest, usable) fits =
      let d = response_text (response callback x t) in
      let c1 = filled (wire_text x) c in
      let (b, parsed, left, sound) =
        parse_request-Complete x.method x.path x.query x.version x.headers [] t f.sound line plain
          f.all in
      let e : Connection = record c { input = b } in
      (
        send_in_loop d w e,
        rw (parsed, on_message)
            (ap (λ o. some o) (response-send (response callback x t) w e v.up stays (omega arith))),
        send_in_loop-Answers (length (wire_text x)) d w {c = c} {e = e} v honest usable
            (omega arith) refl sound left
            (omega (arith, f.growth, parse_request-storage t init c1.input parsed)),
      )

  step-Answers :
      (e : Event) {c : Connection}
      → Listens c
      → IsFair callback e
      → HasRoom (length (brought callback e)) (length (owed callback e)) c
      → (o : Outcome) × (step callback e c ≡ some o)
        × Answers (length (brought callback e)) (owed callback e) c o
  unfolding step
  step-Answers (writable w) {c} v fair room = (handle_write w c, refl, writable-Answers w v)
  step-Answers (arrives x t w) {c} v (formed, short, stays, honest, usable) room =
      let (o, done, answer) =
        request-Answers x t w v (Listens-Finds (wire_text x) v short (omega (arith, room)))
          (formed, short, stays, honest, usable) (omega (arith, room)) in
      (
        (o.0, call_message ∷ o.1),
        deliver-filled (on_message callback w t) (wire_text x) c (length-wire_text x)
            ∙ rw done refl,
        called-Answers answer,
      )

  -- On a connection that is up and has read its input, over any sequence of write events and of well-formed
  -- requests, each in one read, whose responses keep the connection: the server returns from each,
  -- and what was written and then what waits is what waited at first and then the texts of the
  -- responses, in the order of the requests; each response is what the callback makes of exactly the method,
  -- path, query, version, time and headers that the client meant. The kernel must take no more
  -- than it is given and report no broken connection, a request must fit the extra buffer, and all that
  -- arrives and is answered must fit below the largest vector.
  pub run-Answers :
      (es : List Event) {c : Connection}
      → Listens c
      → All (IsFair callback) es
      → HasRoom (all_brought callback es) (length (all_owed callback es)) c
      → (o : Outcome) × (run callback es c ≡ some o)
        × Answers (all_brought callback es) (all_owed callback es) c o
  unfolding run
  run-Answers [] {c} v fair room = ((c, []), refl, nothing-Answers v)
  run-Answers (e ∷ es) {c} v (h, hs) room =
      let total = length-append (owed callback e) (all_owed callback es) in
      let (o, done, s) =
        step-Answers e v h (omega (arith, total, room), omega (arith, total, room)) in
      let (p, rest, r) =
        run-Answers es s.listens hs (
          omega (arith, total, room, s.input_growth),
          omega (arith, total, room, s.output_growth),
        ) in
      ((p.0, o.1 ++ p.1), rw (done, rest, run) refl, Answers-then s r)
