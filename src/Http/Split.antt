-- ===== src/Http/Split.antt =====
-- A request that arrives in two parts: http/HttpServer.cpp makes a new parser for every message.
use tiny_network_library.Base.{
  ℕ, suc, ◌+◌, ◌-◌, ◌≡◌, refl, ap, ◌∙◌, arith, true, Option, none, some, [], ◌∷◌, ◌++◌, length,
  length-append, Bytes, Lacks,
}
use tiny_network_library.Buffer.{Buffer, contents, retrieve, readable_bytes, find_crlf}
use tiny_network_library.Buffer.Bounds.{IsValid, length-contents, retrieve-IsValid}
use tiny_network_library.Buffer.Lines.{find_crlf_lem, search_crlf_none}
use tiny_network_library.Connection.{Connection, WriteResult}
use tiny_network_library.Http.Request.{Request, Method, Version, new, set_receive_time}
use tiny_network_library.Http.Response.{Response}
use tiny_network_library.Http.Context.{
  expect_headers, round, init, parse_loop, parse_request, stop, is_got_all,
}
use tiny_network_library.Http.Context.Line.{
  request_line, query_or, process_request_line-request_line,
}
use tiny_network_library.Http.Context.Steps.{round_of_request_line, line_taken}
use tiny_network_library.Http.Context.Whole.{
  IsRequestLine, parse_loop-again, parse_loop-stop, request_line-Lacks,
}
use tiny_network_library.Http.Server.{on_message, on_parsed}

-- Where no line has ended, the parser waits.
headers_wait :
    (t : ℕ) (r : Request) {b : Buffer}
    → IsValid b
    → Lacks 13 (contents b)
    → round t expect_headers r b ≡ stop true (record { state = expect_headers; request = r }) b
unfolding round
headers_wait t r {b} v plain =
    let none_found : find_crlf b ≡ none =
      ground (arith, find_crlf_lem v, search_crlf_none (contents b) plain) in
    rw (none_found, round) refl

-- The bytes of a line leave fuel for two rounds.
two_rounds :
    {b : Buffer} (s rest : Bytes)
    → IsValid b
    → contents b ≡ s ++ (13 ∷ 10 ∷ rest)
    → readable_bytes b + 1 ≡ suc (suc (readable_bytes b - 1))
two_rounds s rest v front =
    omega (arith, length-contents v, ap length front, length-append s (13 ∷ 10 ∷ rest))

-- The parser takes the request line off and waits for the rest.
line_parsed :
    (m : Method) (path : Bytes) (q : Option Bytes) (version : Version) (rest : Bytes) (t : ℕ)
    {b : Buffer}
    → IsValid b
    → IsRequestLine m path q version
    → Lacks 13 rest
    → contents b ≡ request_line m path q version ++ (13 ∷ 10 ∷ rest)
    → (r : Request) × (b' : Buffer) × (parse_request t init b
        ≡ some (record {
          ok = true;
          context = record { state = expect_headers; request = r };
          buffer = b';
        }))
      × (contents b' ≡ rest)
unfolding parse_request init
line_parsed m path q version rest t {b} v l plain front =
    let line = request_line m path q version in
    let no_return = request_line-Lacks m path q version l in
    let left = line_taken line rest v front no_return in
    let b' = retrieve (length line + 2) b in
    let r = record new {
      method = m;
      path = path;
      query = query_or q new.query;
      version = version;
    } in
    let first = round_of_request_line line rest v front no_return t new r (
      process_request_line-request_line m path q version new l.method_known l.path_space
        l.path_question l.query_space l.version_known) in
    let wait =
      headers_wait t (set_receive_time t r) (retrieve-IsValid (length line + 2) v)
        (rw left plain) in
    (
      set_receive_time t r,
      b',
      ap (λ n. parse_loop n t init b) (two_rounds line rest v front)
          ∙ parse_loop-again (suc (readable_bytes b - 1)) t init b first
          ∙ parse_loop-stop (readable_bytes b - 1) t _ b' wait,
      left,
    )

-- A request whose first part ends behind its request line loses that line. The message is taken as
-- one that waits: nothing is sent and no callback is called. The line is taken off the input, which
-- holds just what follows, and nothing else of the connection has changed, so that the next message
-- begins with a new parser in the middle of the request. The conditions are a valid input buffer, a
-- well-formed line, and that what follows it so far has no carriage return.
pub on_message_forgets :
    (callback : Request → Response → Response) (w : WriteResult) (m : Method) (path : Bytes)
    (q : Option Bytes) (version : Version) (rest : Bytes) (t : ℕ) (c : Connection)
    → IsValid c.input
    → IsRequestLine m path q version
    → Lacks 13 rest
    → contents c.input ≡ request_line m path q version ++ (13 ∷ 10 ∷ rest)
    → (b : Buffer) × (on_message callback w t c ≡ some (record c { input = b }, []))
      × (contents b ≡ rest)
unfolding on_message on_parsed is_got_all
on_message_forgets callback w m path q version rest t c v l plain front =
    let (r, b, parsed, left) = line_parsed m path q version rest t v l plain front in
    (b, rw (parsed, on_message) refl, left)
