-- ===== src/Http/Context.antt =====
-- http/HttpContext.hpp and http/HttpContext.cpp: the incremental parser. It reads lines from the
-- connection's buffer and keeps its place in `state`.
pub mod Line
pub mod Storage
pub mod Steps
pub mod Whole
pub mod Text
pub mod Rounds
pub mod Chunks
use tiny_network_library.Base.{
  ℕ, zero, suc, ◌+◌, ◌-◌, ◌≡◌, ◌&&◌, Bool, true, false, not, Option, none, some, List, [], ◌∷◌,
  ◌++◌, take, drop, length, get_elem?, Bytes, codes, bytes_eq, find, ltb, ◌==◌, if◌then◌else◌,
}
use tiny_network_library.Buffer.{Buffer, contents, find_crlf, retrieve, readable_bytes}
use tiny_network_library.Http.Request.{
  Request, swap, new, set_method, set_path, set_query, set_version, set_receive_time, add_header,
  http10, http11,
}

pub data ParseState : Type 0 where
  expect_request_line expect_headers expect_body got_all : ParseState

pub record Context : Type 0 where
  pub state : ParseState
  pub request : Request

unfoldable pub init : Context
init = record { state = expect_request_line; request = new }

-- `reset` swaps the request with a new one.
unfoldable pub reset : Context → Context
reset c = record c { state = expect_request_line; request = (swap c.request new).0 }

unfoldable pub is_got_all : ParseState → Bool
is_got_all got_all = true
is_got_all _ = false

-- The third part of the line, behind the second space: "HTTP/1." and one digit.
unfoldable pub process_version : Bytes → Request → Bool × Request
process_version s r =
    if length s == 8 && bytes_eq (take 7 s) (codes "HTTP/1.")
    then (elim (get_elem? s 7) [
      | none ↦ (false, r)
      | some c ↦
          if c == b'1'
          then (true, set_version http11 r)
          else if c == b'0'
          then (true, set_version http10 r)
          else (false, r)
    ])
    else (false, r)

-- The second part, up to the next space: path and query. The query keeps its question mark.
unfoldable pub process_target : Bytes → Request → Request
process_target target r =
    let question = find b'?' target in
    if ltb question (length target)
    then set_query (drop question target) (set_path (take question target) r)
    else set_path target r

-- `processRequestLine(begin, end)` over the bytes between the two pointers. A pointer difference is
-- an offset, and `std::find` returns `end` where nothing is found.
unfoldable pub process_request_line : Bytes → Request → Bool × Request
process_request_line line r =
    let space = find 32 line in
    if ltb space (length line)
    then (let (known, r1) = set_method (take space line) r in
        if known
        then (let rest = drop (space + 1) line in
            let space2 = find 32 rest in
            if ltb space2 (length rest)
            then process_version (drop (space2 + 1) rest) (process_target (take space2 rest) r1)
            else (false, r1))
        else (false, r1))
    else (false, r)

-- One round of the loop of `parseRequest`: it goes on, or it stops with the value of `ok`.
pub data Round : Type 0 where
  again : Context → Buffer → Round
  stop : Bool → Context → Buffer → Round

unfoldable pub request_line_round : ℕ → Request → Buffer → ℕ → Round
request_line_round t r b crlf =
    let (ok, r1) = process_request_line (take crlf (contents b)) r in
    if ok
    then again (record { state = expect_headers; request = set_receive_time t r1 })
        (retrieve (crlf + 2) b)
    else stop false (record { state = expect_request_line; request = r1 }) b

unfoldable pub header_round : Request → Buffer → ℕ → Round
header_round r b crlf =
    let line = take crlf (contents b) in
    let colon = find b':' line in
    if ltb colon (length line)
    then again (record { state = expect_headers; request = add_header line colon r })
        (retrieve (crlf + 2) b)
    else stop true (record { state = got_all; request = r }) (retrieve (crlf + 2) b)

-- In the last two states the body of the loop does nothing.
unfoldable pub round : ℕ → ParseState → Request → Buffer → Round
unfolding request_line_round header_round
round t expect_request_line r b = elim (find_crlf b) [
  | none ↦ stop true (record { state = expect_request_line; request = r }) b
  | some crlf ↦ request_line_round t r b crlf
]
round t expect_headers r b = elim (find_crlf b) [
  | none ↦ stop true (record { state = expect_headers; request = r }) b
  | some crlf ↦ header_round r b crlf
]
round t expect_body r b = again (record { state = expect_body; request = r }) b
round t got_all r b = again (record { state = got_all; request = r }) b

pub record Parsed : Type 0 where
  pub ok : Bool
  pub context : Context
  pub buffer : Buffer

-- The loop on fuel; `none` means that the fuel ran out.
unfoldable pub parse_loop : ℕ → ℕ → Context → Buffer → Option Parsed
parse_loop zero t c b = none
parse_loop (suc fuel) t c b = elim (round t c.state c.request b) [
  | again c' b' ↦ parse_loop fuel t c' b'
  | stop ok c' b' ↦ some (record { ok = ok; context = c'; buffer = b' })
]

-- A round that goes on takes a line end off the buffer, so this fuel is enough where the parser
-- ends at all.
unfoldable pub parse_request : ℕ → Context → Buffer → Option Parsed
parse_request t c b = parse_loop (readable_bytes b + 1) t c b
