-- ===== src/Http/Context/Chunks.antt =====
-- Requests that arrive in parts: the parser of http/HttpContext.cpp may stop at any byte and go on
-- with the same context.
use tiny_network_library.Base.{
  ℕ, zero, suc, ◌+◌, ◌<◌, ◌≡◌, refl, ap, sym, ◌∙◌, arith, true, ◌&&◌, Option, none, some, ◌++◌,
  length, Bytes, if◌then◌else◌, inl, inr, Option-cases, length-append,
}
use tiny_network_library.Buffer.{Buffer, contents, append}
use tiny_network_library.Buffer.Bounds.{IsValid, max_size}
use tiny_network_library.Buffer.Contents.{append_refines}
use tiny_network_library.Http.Request.{Request}
use tiny_network_library.Http.Context.{
  ParseState, expect_request_line, expect_headers, expect_body, got_all, Context, parse_request,
}
use tiny_network_library.Http.Context.Steps.{IsReading}
use tiny_network_library.Http.Context.Text.{
  TextParsed, TextRound, line_end, text_round, text_loop, parse_text, view, view-parse_request,
}
use tiny_network_library.Http.Context.Rounds.{
  is_reading, round_behind, Moves, halts, moves, waits, round-Moves, round-append, loop-ends,
  loop-goes_on,
}

-- Fuel above the number of bytes is enough.
enough_step :
    (f g t : ℕ) (c : Context) (s : Bytes) {x : TextRound}
    → Moves (length s) x
    → text_round t c.state c.request s ≡ x
    → ((r : Request) (s' : Bytes)
        → length s' < length s
        → text_loop f t (record { state = expect_headers; request = r }) s'
          ≡ text_loop g t (record { state = expect_headers; request = r }) s')
    → text_loop (suc f) t c s ≡ text_loop (suc g) t c s
enough_step f g t c s (halts ok c' s' h) e ih = loop-ends f t c s e ∙ sym (loop-ends g t c s e)
enough_step f g t c s (moves r s' less) e ih =
    loop-goes_on f t c s e ∙ ih r s' less ∙ sym (loop-goes_on g t c s e)

enough :
    (f g t : ℕ) (c : Context) (s : Bytes)
    → IsReading c.state
    → length s < f
    → length s < g
    → text_loop f t c s ≡ text_loop g t c s
enough zero g t c s i h k = absurd (omega arith)
enough (suc f) zero t c s i h k = absurd (omega arith)
enough (suc f) (suc g) t c s i h k = elim (Option-cases (line_end s)) [
  | inl e ↦
      let w = waits t c.state c.request s i e in loop-ends f t c s w ∙ sym (loop-ends g t c s w)
  | inr (n, e) ↦
      enough_step f g t c s (round-Moves t c.state c.request s n i e) refl
        λ r s' less. enough f g t _ s' tt (omega arith) (omega arith)
]

-- The bytes `d` arrive after a parse that gave a result: a parser that waits for more goes on with its
-- context and what it left, and one that is done leaves them too.
abbrev pub resume : ℕ → Bytes → TextParsed → Option TextParsed
resume t d p =
    if p.ok && is_reading p.context.state
    then parse_text t p.context (p.left ++ d)
    else some (record p { left = p.left ++ d })

abbrev pub resumed : ℕ → Bytes → Option TextParsed → Option TextParsed
resumed t d none = none
resumed t d (some p) = resume t d p

behind_step :
    (f g t : ℕ) (c : Context) (s d : Bytes) {x : TextRound}
    → Moves (length s) x
    → text_round t c.state c.request s ≡ x
    → text_round t c.state c.request (s ++ d) ≡ round_behind d x
    → ((r : Request) (s' : Bytes)
        → length s' < length s
        → text_loop g t (record { state = expect_headers; request = r }) (s' ++ d)
          ≡ resumed t d (text_loop f t (record { state = expect_headers; request = r }) s'))
    → text_loop (suc g) t c (s ++ d) ≡ resumed t d (text_loop (suc f) t c s)
behind_step f g t c s d (halts ok c' s' h) e k ih =
    loop-ends g t c (s ++ d) k ∙ rw (loop-ends f t c s e) (rw h refl)
behind_step f g t c s d (moves r s' less) e k ih =
    loop-goes_on g t c (s ++ d) k ∙ ih r s' less ∙ ap (resumed t d) (sym (loop-goes_on f t c s e))

behind :
    (f g t : ℕ) (c : Context) (s d : Bytes)
    → IsReading c.state
    → length s < f
    → length (s ++ d) < g
    → text_loop g t c (s ++ d) ≡ resumed t d (text_loop f t c s)
behind zero g t c s d i h k = absurd (omega arith)
behind (suc f) zero t c s d i h k = absurd (omega arith)
behind (suc f) (suc g) t c s d i h k = elim (Option-cases (line_end s)) [
  | inl e ↦ rw (loop-ends f t c s (waits t c.state c.request s i e)) (waiting_on c.state i)
  | inr (n, e) ↦
      behind_step f g t c s d (round-Moves t c.state c.request s n i e) refl
        (round-append t c.state c.request s d n e)
        λ r s' less.
          behind f g t _ s' d tt (omega arith)
            (omega (arith, length-append s' d, length-append s d))
]
  where
    waiting_on :
        (st : ParseState)
        → IsReading st
        → text_loop (suc g) t c (s ++ d) ≡ (
            if is_reading st
            then parse_text t c (s ++ d)
            else some (record { ok = true; context = c; left = s ++ d }))
    waiting_on expect_request_line j =
        unfold parse_text in enough (suc g) (length (s ++ d) + 1) t c (s ++ d) i k (omega arith)
    waiting_on expect_headers j =
        unfold parse_text in enough (suc g) (length (s ++ d) + 1) t c (s ++ d) i k (omega arith)
    waiting_on expect_body j = elim j [ ]
    waiting_on got_all j = elim j [ ]

parse_text-append :
    (t : ℕ) (c : Context) (s d : Bytes)
    → IsReading c.state
    → parse_text t c (s ++ d) ≡ resumed t d (parse_text t c s)
unfolding parse_text
parse_text-append t c s d i =
    behind (length s + 1) (length (s ++ d) + 1) t c s d i (omega arith) (omega arith)

-- A request that arrives in parts is parsed as one that arrives at once. Parsing a buffer to which the
-- bytes `d` were appended gives the result of parsing the first part and then, when that one only
-- waits for more bytes, going on from its context with what it left and `d`. The condition is that the
-- parser is reading lines and that the buffer is valid and has room for `d` below the greatest size.
pub view-parse_request-append :
    (t : ℕ) (c : Context) (d : Bytes) {b : Buffer}
    → IsReading c.state
    → IsValid b
    → length b.bytes + length d < max_size
    → view (parse_request t c (append d b)) ≡ resumed t d (view (parse_request t c b))
view-parse_request-append t c d {b} i v room =
    let (text, valid) = append_refines d v room in
    view-parse_request t c valid
    ∙ ap (parse_text t c) text
    ∙ parse_text-append t c (contents b) d i
    ∙ ap (resumed t d) (sym (view-parse_request t c v))
