-- ===== src/Http/Context/Line.antt =====
-- `processRequestLine` of http/HttpContext.cpp reads back every well-formed request line.
use tiny_network_library.Base.{
  ℕ, ◌+◌, ◌≡◌, ◌≢◌, refl, arith, true, not, Option, none, some, [], ◌∷◌, ◌++◌, length, Bytes, codes,
  bytes_eq, find, find_first, find_none, Lacks, All-append, ltb, lt→ltb, le→ltb, length-append,
  take-append_self, drop-append_self, drop_past,
}
use tiny_network_library.Http.Request.{
  Request, Method, Version, invalid, get, post, head, put, delete, unknown, http10, http11,
  method_of, method_string, is_invalid, set_method, set_path, set_query, set_version,
}
use tiny_network_library.Http.Context.{process_version, process_target, process_request_line}

-- The spelling of a version, and of a target with an optional query.
abbrev pub version_string : Version → Bytes
version_string unknown = []
version_string http10 = codes "HTTP/1.0"
version_string http11 = codes "HTTP/1.1"

abbrev pub target_string : Bytes → Option Bytes → Bytes
target_string path none = path
target_string path (some q) = path ++ (b'?' ∷ q)

abbrev pub request_line : Method → Bytes → Option Bytes → Version → Bytes
request_line m path q v =
    method_string m ++ (32 ∷ (target_string path q ++ (32 ∷ version_string v)))

abbrev pub query_or : Option Bytes → Bytes → Bytes
query_or none old = old
query_or (some q) old = b'?' ∷ q

abbrev pub LacksOption : ℕ → Option Bytes → Type 0
LacksOption b none = Unit
LacksOption b (some q) = Lacks b q

-- Names are read back, and "UNKNOWN" is refused.
pub method_of-method_string : (m : Method) → method_of (method_string m) ≡ m
unfolding method_of method_string bytes_eq
method_of-method_string invalid = refl
method_of-method_string get = refl
method_of-method_string post = refl
method_of-method_string head = refl
method_of-method_string put = refl
method_of-method_string delete = refl

method_string-Lacks : (m : Method) → Lacks 32 (method_string m)
unfolding method_string
method_string-Lacks invalid = omega arith
method_string-Lacks get = omega arith
method_string-Lacks post = omega arith
method_string-Lacks head = omega arith
method_string-Lacks put = omega arith
method_string-Lacks delete = omega arith

process_version_lem :
    (v : Version) (r : Request)
    → v ≢ unknown
    → process_version (version_string v) r ≡ (true, set_version v r)
unfolding process_version bytes_eq
process_version_lem unknown r h = absurd (h refl)
process_version_lem http10 r h = refl
process_version_lem http11 r h = refl

process_target_lem :
    (path : Bytes) (q : Option Bytes) (r : Request)
    → Lacks b'?' path
    → process_target (target_string path q) r ≡ record r { path = path; query = query_or q r.query }
unfolding process_target set_path set_query
process_target_lem path none r h =
    rw (find_none b'?' path h, le→ltb (length path) (length path) (omega arith))
process_target_lem path (some q) r h = rw (
  find_first b'?' path q h,
  lt→ltb (length path) (length (path ++ (b'?' ∷ q))) (omega (arith, length-append path (b'?' ∷ q))),
  take-append_self (length path) path (b'?' ∷ q) refl,
  drop-append_self (length path) path (b'?' ∷ q) refl,
)

target-Lacks :
    (path : Bytes) (q : Option Bytes)
    → Lacks 32 path
    → LacksOption 32 q
    → Lacks 32 (target_string path q)
target-Lacks path none h k = h
target-Lacks path (some q) h k = All-append (λ c. c ≢ 32) path (b'?' ∷ q) h (omega arith, k)

module _ (s t : Bytes) (h : Lacks 32 s) where
  space_after : find 32 (s ++ (32 ∷ t)) ≡ length s
  space_after = find_first 32 s t h

  space_inside : ltb (length s) (length (s ++ (32 ∷ t))) ≡ true
  space_inside =
      lt→ltb (length s) (length (s ++ (32 ∷ t))) (omega (arith, length-append s (32 ∷ t)))

known : (m : Method) → m ≢ invalid → not (is_invalid m) ≡ true
known invalid h = absurd (h refl)
known _ h = refl

-- A known method, a path with no space and no question mark, an optional query with no space, and
-- version 1.0 or 1.1, written as a request line, are accepted and stored as they were written; the
-- query keeps its question mark, and nothing else of the request changes.
pub process_request_line-request_line :
    (m : Method) (path : Bytes) (q : Option Bytes) (v : Version) (r : Request)
    → m ≢ invalid
    → Lacks 32 path
    → Lacks b'?' path
    → LacksOption 32 q
    → v ≢ unknown
    → process_request_line (request_line m path q v) r
      ≡ (true, record r { method = m; path = path; query = query_or q r.query; version = v })
unfolding process_request_line set_method set_version
process_request_line-request_line m path q v r hm hp hp? hq hv =
    let target = target_string path q in
    let rest = target ++ (32 ∷ version_string v) in
    let hs = method_string-Lacks m in
    let ht = target-Lacks path q hp hq in
    rw (
      space_after (method_string m) rest hs,
      space_inside (method_string m) rest hs,
      take-append_self (length (method_string m)) (method_string m) (32 ∷ rest) refl,
      drop_past (length (method_string m) + 1) (method_string m) 32 rest refl,
      method_of-method_string m,
      known m hm,
      space_after target (version_string v) ht,
      space_inside target (version_string v) ht,
      drop_past (length target + 1) target 32 (version_string v) refl,
      take-append_self (length target) target (32 ∷ version_string v) refl,
      process_target_lem path q (record r { method = m }) hp?,
      process_version_lem v (record r { method = m; path = path; query = query_or q r.query }) hv,
      set_version,
    )
