-- ===== src/Http/Context/Steps.antt =====
-- One round of `parseRequest` of http/HttpContext.cpp, and when its loop ends.
use tiny_network_library.Base.{
  ℕ, zero, suc, ◌+◌, ◌≤◌, ◌<◌, ◌≡◌, inl, inr, refl, ap, sym, ◌∙◌, arith, Bool, true, false, Option,
  none, some, ◌∷◌, ◌++◌, take, drop, length, Bytes, find, Lacks, ltb, lt→ltb, Bool-cases,
  Option-cases, length-append, length-drop, take-append_self, drop-append_self, drop-drop, le→ltb,
  find_none,
}
use tiny_network_library.Buffer.{Buffer, contents, find_crlf, retrieve, readable_bytes, search_crlf}
use tiny_network_library.Buffer.Bounds.{IsValid, length-contents, retrieve-IsValid}
use tiny_network_library.Buffer.Reads.{contents-retrieve}
use tiny_network_library.Buffer.Lines.{
  find_crlf_lem, search_crlf_line, search_crlf-le, search_crlf-inside,
}
use tiny_network_library.Http.Request.{Request, add_header, set_receive_time}
use tiny_network_library.Http.Context.{
  ParseState, expect_request_line, expect_headers, expect_body, got_all, Context, Parsed, Round,
  again, stop, process_request_line, request_line_round, header_round, round, parse_loop,
  parse_request,
}

-- A line that stands at the front of the contents is found whole, and is taken off with its end.
module _ (line rest : Bytes) {b : Buffer} (v : IsValid b)
    (front : contents b ≡ line ++ (13 ∷ 10 ∷ rest)) (plain : Lacks 13 line) where
  pub line_found : find_crlf b ≡ some (length line)
  line_found =
      find_crlf_lem v
      ∙ ground (
        arith,
        ap search_crlf front ∙ search_crlf_line line rest plain,
        ap length front ∙ length-append line (13 ∷ 10 ∷ rest),
      )

  pub line_read : take (length line) (contents b) ≡ line
  line_read = rw front (take-append_self (length line) line (13 ∷ 10 ∷ rest) refl)

  pub line_taken : contents (retrieve (length line + 2) b) ≡ rest
  line_taken =
      contents-retrieve (length line + 2) v
      ∙ ap (drop (length line + 2)) front
      ∙ sym (drop-drop 2 (length line) (line ++ (13 ∷ 10 ∷ rest)))
      ∙ ap (drop 2) (drop-append_self (length line) line (13 ∷ 10 ∷ rest) refl)

  pub round_of_request_line :
      (t : ℕ) (r r' : Request)
      → process_request_line line r ≡ (true, r')
      → round t expect_request_line r b
        ≡ again
            (record { state = expect_headers; request = set_receive_time t r' })
            (retrieve (length line + 2) b)
  unfolding round
  round_of_request_line t r r' accepted = rw (line_found, round, line_read, accepted)

  pub round_of_bad_line :
      (t : ℕ) (r r' : Request)
      → process_request_line line r ≡ (false, r')
      → round t expect_request_line r b
        ≡ stop false (record { state = expect_request_line; request = r' }) b
  unfolding round
  round_of_bad_line t r r' refused = rw (line_found, round, line_read, refused)

  pub round_of_header :
      (t : ℕ) (r : Request)
      → find b':' line < length line
      → round t expect_headers r b
        ≡ again
            (record { state = expect_headers; request = add_header line (find b':' line) r })
            (retrieve (length line + 2) b)
  unfolding round
  round_of_header t r colon =
      rw (line_found, round, line_read, lt→ltb (find b':' line) (length line) colon)

  pub round_of_end :
      (t : ℕ) (r : Request)
      → Lacks b':' line
      → round t expect_headers r b
        ≡ stop true (record { state = got_all; request = r }) (retrieve (length line + 2) b)
  unfolding round
  round_of_end t r colon = rw (
    line_found,
    round,
    line_read,
    find_none b':' line colon,
    le→ltb (length line) (length line) (omega arith),
  )

-- The states in which the loop reads.
abbrev pub IsReading : ParseState → Type 0
IsReading expect_request_line = Unit
IsReading expect_headers = Unit
IsReading expect_body = ⊥
IsReading got_all = ⊥

found_end : {b : Buffer} → IsValid b → (i : ℕ) → find_crlf b ≡ some i → i + 2 ≤ length (contents b)
found_end {b} v i h =
    let s = contents b in ground (arith, find_crlf_lem v, search_crlf-le s, search_crlf-inside s)

-- What a round leads to: the loop stops, or it goes on with headers and less to read.
data Advances (n : ℕ) : Round → Type 0 where
  stops :
      (ok : Bool) (c : Context) (b : Buffer)
      → IsValid b
      → length (contents b) ≤ n
      → Advances n (stop ok c b)
  goes_on :
      (r : Request) (b : Buffer)
      → IsValid b
      → length (contents b) < n
      → Advances n (again (record { state = expect_headers; request = r }) b)

shrinks :
    {b : Buffer} (v : IsValid b) (i : ℕ)
    → find_crlf b ≡ some i
    → length (contents (retrieve (i + 2) b)) < length (contents b)
shrinks {b} v i h = omega (
  arith,
  ap length (contents-retrieve (i + 2) v),
  length-drop (i + 2) (contents b),
  found_end v i h,
)

request_line_round-Advances :
    (t : ℕ) (r : Request) {b : Buffer} (i : ℕ)
    → IsValid b
    → find_crlf b ≡ some i
    → Advances (length (contents b)) (request_line_round t r b i)
unfolding request_line_round
request_line_round-Advances t r {b} i v h = elim (Bool-cases parsed.0) [
  | inl yes' ↦ rw yes' (goes_on _ _ (retrieve-IsValid (i + 2) v) (shrinks v i h))
  | inr no' ↦ rw no' (stops _ _ _ v (omega arith))
]
  where
    parsed : Bool × Request
    parsed = process_request_line (take i (contents b)) r

header_round-Advances :
    (r : Request) {b : Buffer} (i : ℕ)
    → IsValid b
    → find_crlf b ≡ some i
    → Advances (length (contents b)) (header_round r b i)
unfolding header_round
header_round-Advances r {b} i v h =
    let line = take i (contents b) in
    elim (Bool-cases (ltb (find b':' line) (length line))) [
      | inl colon ↦ rw colon (goes_on _ _ (retrieve-IsValid (i + 2) v) (shrinks v i h))
      | inr blank ↦
          rw blank (stops _ _ _ (retrieve-IsValid (i + 2) v) (omega (arith, shrinks v i h)))
    ]

round-Advances :
    (t : ℕ) (s : ParseState) (r : Request) {b : Buffer}
    → IsReading s
    → IsValid b
    → Advances (length (contents b)) (round t s r b)
unfolding round
round-Advances t expect_request_line r {b} s v = elim (Option-cases (find_crlf b)) [
  | inl e ↦ rw (e, round) (stops _ _ _ v (omega arith))
  | inr (i, e) ↦ rw (e, round) (request_line_round-Advances t r i v e)
]
round-Advances t expect_headers r {b} s v = elim (Option-cases (find_crlf b)) [
  | inl e ↦ rw (e, round) (stops _ _ _ v (omega arith))
  | inr (i, e) ↦ rw (e, round) (header_round-Advances r i v e)
]
round-Advances t expect_body r s v = elim s [ ]
round-Advances t got_all r s v = elim s [ ]

-- The loop returns, and leaves a valid buffer with no more to read.
abbrev pub Returns : ℕ → Option Parsed → Type 0
Returns n o = (p : Parsed) × (o ≡ some p) × IsValid p.buffer × (length (contents p.buffer) ≤ n)

follow :
    (fuel t n : ℕ) (c : Context) (b : Buffer) {x : Round}
    → Advances n x
    → round t c.state c.request b ≡ x
    → ((r : Request) (b' : Buffer)
        → IsValid b'
        → length (contents b') < n
        → Returns
            (length (contents b'))
            (parse_loop fuel t (record { state = expect_headers; request = r }) b'))
    → Returns n (parse_loop (suc fuel) t c b)
unfolding parse_loop
follow fuel t n c b (stops ok c' b' v small) e ih = rw (e, parse_loop) (_, refl, v, small)
follow fuel t n c b (goes_on r b' v less) e ih =
    let (p, returned, valid, left) = ih r b' v less in
    rw (e, parse_loop) (p, returned, valid, omega arith)

pub parse_loop-Returns :
    (fuel t : ℕ) (c : Context) {b : Buffer}
    → IsReading c.state
    → IsValid b
    → length (contents b) < fuel
    → Returns (length (contents b)) (parse_loop fuel t c b)
parse_loop-Returns zero t c s v h = elim h [ ]
parse_loop-Returns (suc fuel) t c {b} s v h =
    follow fuel t (length (contents b)) c b (round-Advances t c.state c.request s v) refl
      λ r b' v' less. parse_loop-Returns fuel t _ tt v' (omega arith)

-- In the states of a request line and of headers `parseRequest` returns on every valid buffer, which
-- it leaves valid and with no more bytes than before.
pub parse_request-Returns :
    (t : ℕ) (c : Context) {b : Buffer}
    → IsReading c.state
    → IsValid b
    → Returns (length (contents b)) (parse_request t c b)
unfolding parse_request
parse_request-Returns t c {b} s v =
    parse_loop-Returns (readable_bytes b + 1) t c s v (omega (arith, length-contents v))

hangs :
    (fuel t : ℕ) (s : ParseState) (r : Request) (b : Buffer)
    → ¬ IsReading s
    → parse_loop fuel t (record { state = s; request = r }) b ≡ none
unfolding parse_loop round
hangs zero t s r b h = refl
hangs (suc fuel) t expect_request_line r b h = absurd (h tt)
hangs (suc fuel) t expect_headers r b h = absurd (h tt)
hangs (suc fuel) t expect_body r b h = hangs fuel t expect_body r b h
hangs (suc fuel) t got_all r b h = hangs fuel t got_all r b h

-- In the other two states the loop never ends: no number of rounds is enough.
pub parse_loop_hangs :
    (fuel t : ℕ) (c : Context) (b : Buffer) → ¬ IsReading c.state → parse_loop fuel t c b ≡ none
parse_loop_hangs fuel t c b h = hangs fuel t c.state c.request b h
