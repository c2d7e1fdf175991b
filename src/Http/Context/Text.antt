-- ===== src/Http/Context/Text.antt =====
-- The parser of http/HttpContext.cpp on the bytes alone: a reference definition without a buffer and
-- its indices, and that `parseRequest` agrees with it.
use tiny_network_library.Base.{
  ℕ, zero, suc, ◌+◌, ◌≡◌, refl, ap, ◌∙◌, arith, Bool, true, false, Option, none, some, take, drop,
  length, Bytes, find, ltb, ◌==◌, if◌then◌else◌, inl, inr, Bool-cases, Option-cases,
}
use tiny_network_library.Buffer.{Buffer, contents, find_crlf, search_crlf, readable_bytes}
use tiny_network_library.Buffer.Bounds.{IsValid, retrieve-IsValid, length-contents}
use tiny_network_library.Buffer.Reads.{contents-retrieve}
use tiny_network_library.Buffer.Lines.{find_crlf_lem}
use tiny_network_library.Http.Request.{Request, add_header, set_receive_time}
use tiny_network_library.Http.Context.{
  ParseState, expect_request_line, expect_headers, expect_body, got_all, Context, Parsed, Round,
  again, stop, process_request_line, request_line_round, header_round, round, parse_loop,
  parse_request,
}

-- What is left of the bytes, in place of a buffer.
pub record TextParsed : Type 0 where
  pub ok : Bool
  pub context : Context
  pub left : Bytes

pub data TextRound : Type 0 where
  goes_on : Context → Bytes → TextRound
  ends : Bool → Context → Bytes → TextRound

-- Where the first line ends, if it does.
unfoldable pub line_end : Bytes → Option ℕ
line_end s = let n = search_crlf s in if n == length s then none else some n

unfoldable pub text_request_line : ℕ → Request → Bytes → ℕ → TextRound
text_request_line t r s n =
    let (ok, r1) = process_request_line (take n s) r in
    if ok
    then goes_on (record { state = expect_headers; request = set_receive_time t r1 })
        (drop (n + 2) s)
    else ends false (record { state = expect_request_line; request = r1 }) s

unfoldable pub text_header : Request → Bytes → ℕ → TextRound
text_header r s n =
    let line = take n s in
    let colon = find b':' line in
    if ltb colon (length line)
    then goes_on (record { state = expect_headers; request = add_header line colon r })
        (drop (n + 2) s)
    else ends true (record { state = got_all; request = r }) (drop (n + 2) s)

unfoldable pub text_round : ℕ → ParseState → Request → Bytes → TextRound
unfolding text_request_line text_header line_end
text_round t expect_request_line r s = elim (line_end s) [
  | none ↦ ends true (record { state = expect_request_line; request = r }) s
  | some n ↦ text_request_line t r s n
]
text_round t expect_headers r s = elim (line_end s) [
  | none ↦ ends true (record { state = expect_headers; request = r }) s
  | some n ↦ text_header r s n
]
text_round t expect_body r s = goes_on (record { state = expect_body; request = r }) s
text_round t got_all r s = goes_on (record { state = got_all; request = r }) s

unfoldable pub text_loop : ℕ → ℕ → Context → Bytes → Option TextParsed
text_loop zero t c s = none
text_loop (suc fuel) t c s = elim (text_round t c.state c.request s) [
  | goes_on c' s' ↦ text_loop fuel t c' s'
  | ends ok c' s' ↦ some (record { ok = ok; context = c'; left = s' })
]

unfoldable pub parse_text : ℕ → Context → Bytes → Option TextParsed
parse_text t c s = text_loop (length s + 1) t c s

-- A result seen as bytes.
abbrev pub view : Option Parsed → Option TextParsed
view none = none
view (some p) = some (record { ok = p.ok; context = p.context; left = contents p.buffer })

-- A round on a buffer, and the round on its contents.
data Views : Round → TextRound → Type 0 where
  again_views : (c : Context) {b : Buffer} → IsValid b → Views (again c b) (goes_on c (contents b))
  stop_views :
      (ok : Bool) (c : Context) {b : Buffer}
      → IsValid b
      → Views (stop ok c b) (ends ok c (contents b))

-- The same with the bytes named.
again_as :
    (c : Context) {b : Buffer} {s : Bytes}
    → IsValid b
    → contents b ≡ s
    → Views (again c b) (goes_on c s)
again_as c v e = rw (← e) (again_views c v)

stop_as :
    (ok : Bool) (c : Context) {b : Buffer} {s : Bytes}
    → IsValid b
    → contents b ≡ s
    → Views (stop ok c b) (ends ok c s)
stop_as ok c v e = rw (← e) (stop_views ok c v)

find_crlf-line_end : {b : Buffer} → IsValid b → find_crlf b ≡ line_end (contents b)
unfolding line_end
find_crlf-line_end v = find_crlf_lem v

request_line-Views :
    (t : ℕ) (r : Request) (n : ℕ) {b : Buffer}
    → IsValid b
    → Views (request_line_round t r b n) (text_request_line t r (contents b) n)
unfolding request_line_round text_request_line
request_line-Views t r n {b} v =
    elim (Bool-cases (process_request_line (take n (contents b)) r).0) [
      | inl yes' ↦ rw yes' (again_as _ (retrieve-IsValid (n + 2) v) (contents-retrieve (n + 2) v))
      | inr no' ↦ rw no' (stop_as _ _ v refl)
    ]

header-Views :
    (r : Request) (n : ℕ) {b : Buffer}
    → IsValid b
    → Views (header_round r b n) (text_header r (contents b) n)
unfolding header_round text_header
header-Views r n {b} v =
    let line = take n (contents b) in
    let valid = retrieve-IsValid (n + 2) v in
    let rest = contents-retrieve (n + 2) v in
    elim (Bool-cases (ltb (find b':' line) (length line))) [
      | inl colon ↦ rw colon (again_as _ valid rest)
      | inr blank ↦ rw blank (stop_as _ _ valid rest)
    ]

round-Views :
    (t : ℕ) (s : ParseState) (r : Request) {b : Buffer}
    → IsValid b
    → Views (round t s r b) (text_round t s r (contents b))
unfolding round text_round
round-Views t expect_request_line r {b} v = elim (Option-cases (line_end (contents b))) [
  | inl e ↦ rw (find_crlf-line_end v, e, round, text_round) (stop_as _ _ v refl)
  | inr (n, e) ↦ rw (find_crlf-line_end v, e, round, text_round) (request_line-Views t r n v)
]
round-Views t expect_headers r {b} v = elim (Option-cases (line_end (contents b))) [
  | inl e ↦ rw (find_crlf-line_end v, e, round, text_round) (stop_as _ _ v refl)
  | inr (n, e) ↦ rw (find_crlf-line_end v, e, round, text_round) (header-Views r n v)
]
round-Views t expect_body r v = again_as _ v refl
round-Views t got_all r v = again_as _ v refl

loop_step :
    (fuel t : ℕ) (c : Context) (b : Buffer) (s : Bytes) {x : Round} {y : TextRound}
    → Views x y
    → round t c.state c.request b ≡ x
    → text_round t c.state c.request s ≡ y
    → ((c' : Context) (b' : Buffer)
        → IsValid b'
        → view (parse_loop fuel t c' b') ≡ text_loop fuel t c' (contents b'))
    → view (parse_loop (suc fuel) t c b) ≡ text_loop (suc fuel) t c s
unfolding parse_loop text_loop
loop_step fuel t c b s (again_views c' {b = b'} v) e f ih =
    rw (e, f, parse_loop, text_loop) (ih c' b' v)
loop_step fuel t c b s (stop_views ok c' v) e f ih = rw (e, f, parse_loop, text_loop) refl

pub view-parse_loop :
    (fuel t : ℕ) (c : Context) {b : Buffer}
    → IsValid b
    → view (parse_loop fuel t c b) ≡ text_loop fuel t c (contents b)
view-parse_loop zero t c v = unfold parse_loop text_loop in refl
view-parse_loop (suc fuel) t c {b} v =
    loop_step fuel t c b (contents b) (round-Views t c.state c.request v) refl refl
      λ c' b' v'. view-parse_loop fuel t c' v'

-- On every valid buffer `parseRequest` gives what the parser of bytes gives on the contents: the same
-- result, the same context, and the same bytes left.
pub view-parse_request :
    (t : ℕ) (c : Context) {b : Buffer}
    → IsValid b
    → view (parse_request t c b) ≡ parse_text t c (contents b)
unfolding parse_request parse_text
view-parse_request t c {b} v =
    view-parse_loop (readable_bytes b + 1) t c v
    ∙ ap (λ n. text_loop (n + 1) t c (contents b)) (omega (arith, length-contents v))
