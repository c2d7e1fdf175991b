-- ===== src/Http/Request.antt =====
-- http/HttpRequest.hpp: a parsed request and the setters that the parser calls with slices of the
-- line it reads.
pub mod Headers
use mathlib.Core.List.{reverse}
use tiny_network_library.Base.{
  ℕ, ◌+◌, ◌-◌, ◌≡◌, ◌&&◌, ◌||◌, Bool, true, false, not, Option, none, some, List, [], ◌∷◌, ◌++◌,
  take, drop, Bytes, codes, bytes_eq, leb, ◌==◌, if◌then◌else◌,
}

pub data Method : Type 0 where
  invalid get post head put delete : Method

pub data Version : Type 0 where
  unknown http10 http11 : Version

-- `unordered_map<string, string>`: the keys are distinct, and no order is promised.
abbrev pub HeaderMap : Type 0
HeaderMap = List (Bytes × Bytes)

pub record Request : Type 0 where
  pub method : Method
  pub version : Version
  pub path : Bytes
  pub query : Bytes
  pub receive_time : ℕ
  pub headers : HeaderMap

unfoldable pub new : Request
new = record {
  method = invalid;
  version = unknown;
  path = [];
  query = [];
  receive_time = 0;
  headers = [];
}

unfoldable pub swap : Request → Request → Request × Request
swap a b = (b, a)

unfoldable pub set_version : Version → Request → Request
set_version v r = record r { version = v }

-- The chain of comparisons of `setMethod`.
unfoldable pub method_of : Bytes → Method
method_of m =
    if bytes_eq m (codes "GET")
    then get
    else if bytes_eq m (codes "POST")
    then post
    else if bytes_eq m (codes "HEAD")
    then head
    else if bytes_eq m (codes "PUT")
    then put
    else if bytes_eq m (codes "DELETE")
    then delete
    else invalid

abbrev pub is_invalid : Method → Bool
is_invalid invalid = true
is_invalid _ = false

unfoldable pub set_method : Bytes → Request → Bool × Request
set_method m r = (not (is_invalid (method_of m)), record r { method = method_of m })

unfoldable pub method_string : Method → Bytes
method_string invalid = codes "UNKNOWN"
method_string get = codes "GET"
method_string post = codes "POST"
method_string head = codes "HEAD"
method_string put = codes "PUT"
method_string delete = codes "DELETE"

unfoldable pub set_path : Bytes → Request → Request
set_path p r = record r { path = p }

unfoldable pub set_query : Bytes → Request → Request
set_query q r = record r { query = q }

unfoldable pub set_receive_time : ℕ → Request → Request
set_receive_time t r = record r { receive_time = t }

-- `isspace` of the C locale.
unfoldable pub is_space : ℕ → Bool
is_space c = c == 32 || (leb 9 c && leb c 13)

-- The loop that moves `colon` over white space.
unfoldable pub skip_space : Bytes → Bytes
skip_space [] = []
skip_space (c ∷ s) = let rest = skip_space s in if is_space c then rest else c ∷ s

-- The loop that cuts white space off the end: it looks at the last byte, so it runs over the
-- reversed string.
unfoldable pub trim_end : Bytes → Bytes
trim_end s = reverse (skip_space (reverse s))

-- `_headers[field] = value`.
unfoldable pub insert : Bytes → Bytes → HeaderMap → HeaderMap
insert k v [] = (k, v) ∷ []
insert k v ((j, w) ∷ m) = if bytes_eq j k then (k, v) ∷ m else (j, w) ∷ insert k v m

unfoldable pub lookup : Bytes → HeaderMap → Option Bytes
lookup k [] = none
lookup k ((j, w) ∷ m) = if bytes_eq j k then some w else lookup k m

-- `addHeader(start, colon, end)`: `colon` is an offset from `start`.
unfoldable pub add_header : Bytes → ℕ → Request → Request
add_header line colon r = record r {
  headers = insert (take colon line) (trim_end (skip_space (drop (colon + 1) line))) r.headers;
}

unfoldable pub get_header : Bytes → Request → Bytes
get_header field r = elim (lookup field r.headers) [ none ↦ [] | some v ↦ v ]
