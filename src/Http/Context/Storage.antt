-- ===== src/Http/Context/Storage.antt =====
-- The parser of http/HttpContext.cpp takes bytes off a buffer and leaves the storage as long as it is.
use tiny_network_library.Base.{
  ℕ, zero, suc, ◌+◌, ◌≡◌, refl, ◌∙◌, Option, none, some, length, Option-cases, inl, inr, ltb, take,
  find, Bool-cases,
}
use tiny_network_library.Buffer.{Buffer, contents, find_crlf, readable_bytes}
use tiny_network_library.Buffer.Bounds.{length-bytes-retrieve}
use tiny_network_library.Http.Request.{Request}
use tiny_network_library.Http.Context.{
  ParseState, expect_request_line, expect_headers, expect_body, got_all, Context, Round, again,
  stop, round, request_line_round, header_round, process_request_line, Parsed, parse_loop,
  parse_request,
}

abbrev left_by : Round → Buffer
left_by (again c b) = b
left_by (stop ok c b) = b

abbrev SameStorage : Buffer → Buffer → Type 0
SameStorage a b = length a.bytes ≡ length b.bytes

request_line_round-SameStorage :
    (t : ℕ) (r : Request) (b : Buffer) (n : ℕ)
    → SameStorage (left_by (request_line_round t r b n)) b
unfolding request_line_round
request_line_round-SameStorage t r b n =
    elim (Bool-cases (process_request_line (take n (contents b)) r).0) [
      | inl ok ↦ rw ok (length-bytes-retrieve (n + 2) b)
      | inr bad ↦ rw bad refl
    ]

header_round-SameStorage :
    (r : Request) (b : Buffer) (n : ℕ) → SameStorage (left_by (header_round r b n)) b
unfolding header_round
header_round-SameStorage r b n =
    let line = take n (contents b) in
    elim (Bool-cases (ltb (find b':' line) (length line))) [
      | inl line' ↦ rw line' (length-bytes-retrieve (n + 2) b)
      | inr end ↦ rw end (length-bytes-retrieve (n + 2) b)
    ]

round-SameStorage :
    (t : ℕ) (s : ParseState) (r : Request) (b : Buffer) → SameStorage (left_by (round t s r b)) b
unfolding round
round-SameStorage t expect_request_line r b = elim (Option-cases (find_crlf b)) [
  | inl e ↦ rw (e, round) refl
  | inr (n, e) ↦ rw (e, round) (request_line_round-SameStorage t r b n)
]
round-SameStorage t expect_headers r b = elim (Option-cases (find_crlf b)) [
  | inl e ↦ rw (e, round) refl
  | inr (n, e) ↦ rw (e, round) (header_round-SameStorage r b n)
]
round-SameStorage t expect_body r b = refl
round-SameStorage t got_all r b = refl

-- The storage after a parse, where it returns.
abbrev Keeps : Buffer → Option Parsed → Type 0
Keeps b none = Unit
Keeps b (some p) = SameStorage p.buffer b

after_round :
    (fuel t : ℕ) (b : Buffer) (x : Round)
    → ((c : Context) (d : Buffer) → Keeps d (parse_loop fuel t c d))
    → SameStorage (left_by x) b
    → Keeps b (elim x [
      | again c' b' ↦ parse_loop fuel t c' b'
      | stop ok c' b' ↦ some (record { ok = ok; context = c'; buffer = b' })
    ])
after_round fuel t b (again c d) rest same = elim (Option-cases (parse_loop fuel t c d)) [
  | inl e ↦ rw e tt
  | inr (p, e) ↦ rw e ((rw e at (rest c d)) ∙ same)
]
after_round fuel t b (stop ok c d) rest same = same

parse_loop-Keeps : (fuel t : ℕ) (c : Context) (b : Buffer) → Keeps b (parse_loop fuel t c b)
unfolding parse_loop
parse_loop-Keeps zero t c b = tt
parse_loop-Keeps (suc fuel) t c b =
    after_round fuel t b (round t c.state c.request b) (parse_loop-Keeps fuel t)
      (round-SameStorage t c.state c.request b)

pub parse_request-storage :
    (t : ℕ) (c : Context) (b : Buffer) {p : Parsed}
    → parse_request t c b ≡ some p
    → length p.buffer.bytes ≡ length b.bytes
unfolding parse_request
parse_request-storage t c b {p} e = rw e at (parse_loop-Keeps (readable_bytes b + 1) t c b)
