-- ===== src/Http/Context/Rounds.antt =====
-- One round of the parser of http/HttpContext.cpp when more bytes stand behind those it reads.
use tiny_network_library.Base.{
  ℕ, suc, ◌+◌, ◌≤◌, ◌<◌, ◌≡◌, refl, arith, Bool, true, false, ◌&&◌, none, some, [], ◌∷◌, ◌++◌, take,
  length, Bytes, ltb, inl, inr, Bool-cases, length-append, length-drop, take-append_le,
  drop-append_le, find,
}
use tiny_network_library.Buffer.{search_crlf}
use tiny_network_library.Buffer.Lines.{search_crlf-inside, search_crlf-le}
use tiny_network_library.Http.Request.{Request}
use tiny_network_library.Http.Context.{
  ParseState, expect_request_line, expect_headers, expect_body, got_all, Context,
  process_request_line,
}
use tiny_network_library.Http.Context.Steps.{IsReading}
use tiny_network_library.Http.Context.Text.{
  TextRound, goes_on, ends, line_end, text_request_line, text_header, text_round, text_loop,
}

-- More bytes behind a text with a line end do not move it.
search_crlf-append : (s d : Bytes) → search_crlf s < length s → search_crlf (s ++ d) ≡ search_crlf s
unfolding search_crlf
search_crlf-append [] d h = absurd (omega arith)
search_crlf-append (c ∷ []) d h = absurd (omega arith)
search_crlf-append (c ∷ e ∷ s) d h = ground (arith, search_crlf-append (e ∷ s) d)

line_end-inside : (s : Bytes) (n : ℕ) → line_end s ≡ some n → n + 2 ≤ length s
unfolding line_end
line_end-inside s n e = ground (arith, e, search_crlf-inside s, search_crlf-le s)

line_end-append : (s d : Bytes) (n : ℕ) → line_end s ≡ some n → line_end (s ++ d) ≡ some n
unfolding line_end
line_end-append s d n e =
    ground
      (arith, e, search_crlf-append s d, search_crlf-le s, search_crlf-inside s, length-append s d)

abbrev pub is_reading : ParseState → Bool
is_reading expect_request_line = true
is_reading expect_headers = true
is_reading expect_body = false
is_reading got_all = false

-- A round whose bytes are followed by more.
abbrev pub round_behind : Bytes → TextRound → TextRound
round_behind d (goes_on c s) = goes_on c (s ++ d)
round_behind d (ends ok c s) = ends ok c (s ++ d)

request_line_behind :
    (t : ℕ) (r : Request) (s d : Bytes) (n : ℕ)
    → n + 2 ≤ length s
    → text_request_line t r (s ++ d) n ≡ round_behind d (text_request_line t r s n)
unfolding text_request_line
request_line_behind t r s d n h =
    rw (take-append_le n s d (omega arith), drop-append_le (n + 2) s d h) (ground arith)

header_behind :
    (r : Request) (s d : Bytes) (n : ℕ)
    → n + 2 ≤ length s
    → text_header r (s ++ d) n ≡ round_behind d (text_header r s n)
unfolding text_header
header_behind r s d n h =
    rw (take-append_le n s d (omega arith), drop-append_le (n + 2) s d h) (ground arith)

-- What a round over a line leads to: the parser is done, or it goes on with headers and fewer bytes.
pub data Moves (n : ℕ) : TextRound → Type 0 where
  halts :
      (ok : Bool) (c : Context) (s : Bytes)
      → (ok && is_reading c.state) ≡ false
      → Moves n (ends ok c s)
  moves :
      (r : Request) (s : Bytes)
      → length s < n
      → Moves n (goes_on (record { state = expect_headers; request = r }) s)

request_line-Moves :
    (t : ℕ) (r : Request) (s : Bytes) (n : ℕ)
    → n + 2 ≤ length s
    → Moves (length s) (text_request_line t r s n)
unfolding text_request_line
request_line-Moves t r s n h = elim (Bool-cases (process_request_line (take n s) r).0) [
  | inl yes' ↦ rw yes' (moves _ _ (omega (arith, length-drop (n + 2) s)))
  | inr no' ↦ rw no' (halts _ _ _ refl)
]

header-Moves :
    (r : Request) (s : Bytes) (n : ℕ) → n + 2 ≤ length s → Moves (length s) (text_header r s n)
unfolding text_header
header-Moves r s n h = elim (Bool-cases (ltb (find b':' (take n s)) (length (take n s)))) [
  | inl colon ↦ rw colon (moves _ _ (omega (arith, length-drop (n + 2) s)))
  | inr blank ↦ rw blank (halts _ _ _ refl)
]

-- A round in a reading state: without a line it waits, and otherwise more bytes behind do not matter.
pub waits :
    (t : ℕ) (st : ParseState) (r : Request) (s : Bytes)
    → IsReading st
    → line_end s ≡ none
    → text_round t st r s ≡ ends true (record { state = st; request = r }) s
unfolding text_round
waits t expect_request_line r s i e = rw (e, text_round)
waits t expect_headers r s i e = rw (e, text_round)
waits t expect_body r s i e = elim i [ ]
waits t got_all r s i e = elim i [ ]

pub round-Moves :
    (t : ℕ) (st : ParseState) (r : Request) (s : Bytes) (n : ℕ)
    → IsReading st
    → line_end s ≡ some n
    → Moves (length s) (text_round t st r s)
unfolding text_round
round-Moves t expect_request_line r s n i e =
    rw (e, text_round) (request_line-Moves t r s n (line_end-inside s n e))
round-Moves t expect_headers r s n i e =
    rw (e, text_round) (header-Moves r s n (line_end-inside s n e))
round-Moves t expect_body r s n i e = elim i [ ]
round-Moves t got_all r s n i e = elim i [ ]

pub round-append :
    (t : ℕ) (st : ParseState) (r : Request) (s d : Bytes) (n : ℕ)
    → line_end s ≡ some n
    → text_round t st r (s ++ d) ≡ round_behind d (text_round t st r s)
unfolding text_round
round-append t expect_request_line r s d n e =
    rw (line_end-append s d n e, e, text_round)
      (request_line_behind t r s d n (line_end-inside s n e))
round-append t expect_headers r s d n e =
    rw (line_end-append s d n e, e, text_round) (header_behind r s d n (line_end-inside s n e))
round-append t expect_body r s d n e = refl
round-append t got_all r s d n e = refl

pub loop-ends :
    (fuel t : ℕ) (c : Context) (s : Bytes) {ok : Bool} {c' : Context} {s' : Bytes}
    → text_round t c.state c.request s ≡ ends ok c' s'
    → text_loop (suc fuel) t c s ≡ some (record { ok = ok; context = c'; left = s' })
unfolding text_loop
loop-ends fuel t c s e = rw (e, text_loop)

pub loop-goes_on :
    (fuel t : ℕ) (c : Context) (s : Bytes) {c' : Context} {s' : Bytes}
    → text_round t c.state c.request s ≡ goes_on c' s'
    → text_loop (suc fuel) t c s ≡ text_loop fuel t c' s'
unfolding text_loop
loop-goes_on fuel t c s e = rw (e, text_loop)
