-- ===== src/Http/Context/Whole.antt =====
-- `parseRequest` of http/HttpContext.cpp over a whole request head: it reads back what was written.
use native.Mathlib.Numerals.{add-one}
use tiny_network_library.Base.{
  ℕ, zero, suc, ◌+◌, ◌≤◌, ◌<◌, ◌≡◌, ◌≢◌, ap, arith, Bool, true, Option, none, some, List, [], ◌∷◌,
  ◌++◌, length, Bytes, find, find_first, Lacks, All, All-append, length-append,
}
use tiny_network_library.Buffer.{Buffer, contents, retrieve, readable_bytes}
use tiny_network_library.Buffer.Bounds.{IsValid, length-contents, retrieve-IsValid}
use tiny_network_library.Http.Request.{
  Request, Method, Version, invalid, unknown, get, post, head, put, delete, http10, http11, new,
  insert, method_string, set_receive_time,
}
use tiny_network_library.Http.Request.Headers.{IsTrimmed, add_header_lem}
use tiny_network_library.Http.Context.{
  expect_headers, got_all, Context, Parsed, round, init, parse_loop, parse_request, again, stop,
}
use tiny_network_library.Http.Context.Line.{
  request_line, target_string, version_string, query_or, LacksOption,
  process_request_line-request_line,
}
use tiny_network_library.Http.Context.Steps.{
  round_of_request_line, round_of_header, round_of_end, line_taken,
}

abbrev pub Header : Type 0
Header = Bytes × Bytes

abbrev pub header_line : Header → Bytes
header_line (field, value) = field ++ (b':' ∷ 32 ∷ value)

-- Header lines and the empty line, followed by `rest`.
abbrev pub header_block : List Header → Bytes → Bytes
header_block [] rest = 13 ∷ 10 ∷ rest
header_block (h ∷ hs) rest = header_line h ++ (13 ∷ 10 ∷ header_block hs rest)

abbrev pub IsPlain : Header → Type 0
IsPlain (field, value) = Lacks b':' field × Lacks 13 field × Lacks 13 value × IsTrimmed value

abbrev pub store_headers : List Header → Request → Request
store_headers [] r = r
store_headers ((field, value) ∷ hs) r =
    store_headers hs (record r { headers = insert field value r.headers })

-- The parser has the whole head, stored as `r`, and the buffer holds `rest`.
abbrev pub Complete : Request → Bytes → Option Parsed → Type 0
Complete r rest o =
    (b : Buffer) × (o
      ≡ some (record { ok = true; context = record { state = got_all; request = r }; buffer = b }))
    × (contents b ≡ rest)
    × IsValid b

pub parse_loop-again :
    (fuel t : ℕ) (c : Context) (b : Buffer) {c' : Context} {b' : Buffer}
    → round t c.state c.request b ≡ again c' b'
    → parse_loop (suc fuel) t c b ≡ parse_loop fuel t c' b'
unfolding parse_loop
parse_loop-again fuel t c b e = rw (e, parse_loop)

pub parse_loop-stop :
    (fuel t : ℕ) (c : Context) (b : Buffer) {ok : Bool} {c' : Context} {b' : Buffer}
    → round t c.state c.request b ≡ stop ok c' b'
    → parse_loop (suc fuel) t c b ≡ some (record { ok = ok; context = c'; buffer = b' })
unfolding parse_loop
parse_loop-stop fuel t c b e = rw (e, parse_loop)

header_line-Lacks : (h : Header) → IsPlain h → Lacks 13 (header_line h)
header_line-Lacks (field, value) p =
    All-append (λ c. c ≢ 13) field (b':' ∷ 32 ∷ value) p.1 (omega arith, (omega arith, p.2))

find-header_line : (h : Header) → IsPlain h → find b':' (header_line h) ≡ length h.0
find-header_line (field, value) p = find_first b':' field (32 ∷ value) p.0

-- One header line is stored and taken off.
header_stored :
    (h : Header) (rest : Bytes) (fuel t : ℕ) (r : Request) {b : Buffer}
    → IsValid b
    → contents b ≡ header_line h ++ (13 ∷ 10 ∷ rest)
    → IsPlain h
    → parse_loop (suc fuel) t (record { state = expect_headers; request = r }) b
      ≡ parse_loop fuel t
          (record {
            state = expect_headers;
            request = record r { headers = insert h.0 h.1 r.headers };
          })
          (retrieve (length (header_line h) + 2) b)
header_stored (field, value) rest fuel t r {b} v front p =
    let h : Header = (field, value) in
    parse_loop-again fuel t _ b (
      rw (
        round_of_header (header_line h) rest v front (header_line-Lacks h p) t r
            (omega (arith, find-header_line h p, length-append field (b':' ∷ 32 ∷ value))),
        find-header_line h p,
        add_header_lem field value r p.3,
      ))

headers-Complete :
    (hs : List Header) (rest : Bytes) (fuel t : ℕ) (r : Request) {b : Buffer}
    → IsValid b
    → contents b ≡ header_block hs rest
    → All IsPlain hs
    → length hs < fuel
    → Complete
        (store_headers hs r)
        rest
        (parse_loop fuel t (record { state = expect_headers; request = r }) b)
headers-Complete hs rest zero t r v front plain enough = elim enough [ ]
headers-Complete [] rest (suc fuel) t r {b} v front plain enough = (
  retrieve (0 + 2) b,
  parse_loop-stop fuel t _ b (round_of_end [] rest v front tt t r tt),
  line_taken [] rest v front tt,
  retrieve-IsValid (0 + 2) v,
)
headers-Complete (h ∷ hs) rest (suc fuel) t r {b} v front (p, plain) enough =
    let line = header_line h in
    let left = header_block hs rest in
    rw (header_stored h left fuel t r v front p) (
      headers-Complete hs rest fuel t (record r { headers = insert h.0 h.1 r.headers })
        (retrieve-IsValid (length line + 2) v)
        (line_taken line left v front (header_line-Lacks h p)) plain (omega arith))

length-header_block : (hs : List Header) (rest : Bytes) → length hs ≤ length (header_block hs rest)
length-header_block [] rest = omega arith
length-header_block (h ∷ hs) rest = omega (
  arith,
  length-append (header_line h) (13 ∷ 10 ∷ header_block hs rest),
  length-header_block hs rest,
)

-- What a request line must satisfy to be read back: see `Line`.
pub record IsRequestLine (m : Method) (path : Bytes) (q : Option Bytes) (v : Version) : Type 0 where
  pub method_known : m ≢ invalid
  pub version_known : v ≢ unknown
  pub path_space : Lacks 32 path
  pub path_question : Lacks b'?' path
  pub path_return : Lacks 13 path
  pub query_space : LacksOption 32 q
  pub query_return : LacksOption 13 q

method_string-Lacks_return : (m : Method) → Lacks 13 (method_string m)
unfolding method_string
method_string-Lacks_return invalid = omega arith
method_string-Lacks_return get = omega arith
method_string-Lacks_return post = omega arith
method_string-Lacks_return head = omega arith
method_string-Lacks_return put = omega arith
method_string-Lacks_return delete = omega arith

version_string-Lacks : (v : Version) → Lacks 13 (version_string v)
version_string-Lacks unknown = tt
version_string-Lacks http10 = omega arith
version_string-Lacks http11 = omega arith

pub request_line-Lacks :
    (m : Method) (path : Bytes) (q : Option Bytes) (v : Version)
    → IsRequestLine m path q v
    → Lacks 13 (request_line m path q v)
request_line-Lacks m path q v h =
    All-append P (method_string m) (32 ∷ (target ++ (32 ∷ version_string v)))
      (method_string-Lacks_return m)
      (
        omega arith,
        All-append P target (32 ∷ version_string v) (target_plain q h.query_return)
            (omega arith, version_string-Lacks v),
      )
  where
    P : ℕ → Type 0
    P c = c ≢ 13

    target : Bytes
    target = target_string path q

    target_plain : (q : Option Bytes) → LacksOption 13 q → Lacks 13 (target_string path q)
    target_plain none k = h.path_return
    target_plain (some s) k = All-append P path (b'?' ∷ s) h.path_return (omega arith, k)

-- A new context given a valid buffer that holds a well-formed request line, header lines whose
-- fields have no colon and whose values are trimmed, an empty line and any further bytes accepts
-- the request, stores exactly the method, path, query, version, receive time and headers that were
-- written, and leaves the further bytes in the buffer.
pub parse_request-Complete :
    (m : Method) (path : Bytes) (q : Option Bytes) (version : Version) (hs : List Header)
    (rest : Bytes) (t : ℕ) {b : Buffer}
    → IsValid b
    → IsRequestLine m path q version
    → All IsPlain hs
    → contents b ≡ request_line m path q version ++ (13 ∷ 10 ∷ header_block hs rest)
    → Complete
        (store_headers hs (record {
          method = m;
          version = version;
          path = path;
          query = query_or q [];
          receive_time = t;
          headers = [];
        }))
        rest
        (parse_request t init b)
unfolding parse_request init new set_receive_time
parse_request-Complete m path q version hs rest t {b} v l plain front =
    let line = request_line m path q version in
    let left = header_block hs rest in
    let no_return = request_line-Lacks m path q version l in
    rw
      (
        add-one (readable_bytes b),
        parse_loop-again (readable_bytes b) t init b (
            round_of_request_line line left v front no_return t new
              (record new { method = m; path = path; query = query_or q []; version = version })
              (process_request_line-request_line m path q version new l.method_known l.path_space
                l.path_question l.query_space l.version_known)),
      )
      (headers-Complete hs rest (readable_bytes b) t _ (retrieve-IsValid (length line + 2) v)
        (line_taken line left v front no_return) plain
        (omega (
          arith,
          length-contents v,
          ap length front,
          length-append line (13 ∷ 10 ∷ left),
          length-header_block hs rest,
        )))
