-- ===== src/Http/Response.antt =====
-- http/HttpResponse.hpp and http/HttpResponse.cpp: a response, and how it is written to a buffer.
pub mod Plain
use tiny_network_library.Base.{
  ℕ, ◌+◌, ◌<◌, ◌≡◌, refl, sym, ap, ◌∙◌, arith, Bool, true, false, List, [], ◌∷◌, ◌++◌, append_assoc,
  append-nil, length, length-append, take, Bytes, codes, decimal,
}
use tiny_network_library.Buffer.{Buffer, contents, append}
use tiny_network_library.Buffer.Bounds.{IsValid, max_size, length-bytes-append}
use tiny_network_library.Buffer.Contents.{append_refines}
use tiny_network_library.Http.Request.{HeaderMap, insert}

pub record Response : Type 0 where
  pub status_code : ℕ
  pub status_message : Bytes
  pub close_connection : Bool
  pub headers : HeaderMap
  pub body : Bytes

unfoldable pub new : Bool → Response
new close = record {
  status_code = 0;
  status_message = [];
  close_connection = close;
  headers = [];
  body = [];
}

unfoldable pub set_status_code : ℕ → Response → Response
set_status_code n r = record r { status_code = n }

unfoldable pub set_status_message : Bytes → Response → Response
set_status_message s r = record r { status_message = s }

unfoldable pub set_close_connection : Bool → Response → Response
set_close_connection b r = record r { close_connection = b }

unfoldable pub add_header : Bytes → Bytes → Response → Response
add_header k v r = record r { headers = insert k v r.headers }

unfoldable pub set_content_type : Bytes → Response → Response
unfolding add_header
set_content_type t r = add_header (codes "Content-Type") t r

unfoldable pub set_body : Bytes → Response → Response
set_body b r = record r { body = b }

-- `snprintf` into 32 bytes, of which the last is the zero byte.
abbrev pub print_32 : Bytes → Bytes
print_32 s = take 31 s

abbrev pub crlf : Bytes
crlf = 13 ∷ 10 ∷ []

-- The strings that `appendToBuffer` appends, in the order of the calls.
unfoldable pub header_pieces : HeaderMap → List Bytes
header_pieces [] = []
header_pieces ((k, v) ∷ hs) = k ∷ codes ": " ∷ v ∷ crlf ∷ header_pieces hs

unfoldable pub connection_pieces : Bool → ℕ → List Bytes
connection_pieces true size = (codes "Connection: close" ++ crlf) ∷ []
connection_pieces false size =
    print_32 (codes "Content-Length: " ++ (decimal size ++ crlf))
    ∷ (codes "Connection: Keep-Alive" ++ crlf)
    ∷ []

unfoldable pub pieces : Response → List Bytes
unfolding header_pieces connection_pieces
pieces r =
    print_32 (codes "HTTP/1.1 " ++ (decimal r.status_code ++ codes " "))
    ∷ r.status_message
    ∷ crlf
    ∷ (connection_pieces r.close_connection (length r.body)
        ++ (header_pieces r.headers ++ (crlf ∷ r.body ∷ [])))

unfoldable pub append_pieces : List Bytes → Buffer → Buffer
append_pieces [] b = b
append_pieces (s ∷ ss) b = append_pieces ss (append s b)

unfoldable pub append_to_buffer : Response → Buffer → Buffer
unfolding append_pieces pieces
append_to_buffer r b = append_pieces (pieces r) b

abbrev pub joined : List Bytes → Bytes
joined [] = []
joined (s ∷ ss) = s ++ joined ss

joined-append : (ss ts : List Bytes) → joined (ss ++ ts) ≡ joined ss ++ joined ts
joined-append [] ts = refl
joined-append (s ∷ ss) ts = rw (joined-append ss ts, append_assoc s (joined ss) (joined ts)) refl

append_pieces_refines :
    (ss : List Bytes) {b : Buffer}
    → IsValid b
    → length b.bytes + length (joined ss) < max_size
    → (contents (append_pieces ss b) ≡ contents b ++ joined ss) × IsValid (append_pieces ss b)
unfolding append_pieces
append_pieces_refines [] {b} v h = (sym (append-nil (contents b)), v)
append_pieces_refines (s ∷ ss) {b} v h =
    let long = length-append s (joined ss) in
    let (grown, v1) = append_refines s v (omega (arith, long)) in
    let (rest, v2) =
      append_pieces_refines ss v1
        (omega (arith, long, length-bytes-append s v (omega (arith, long)))) in
    (rest ∙ ap (λ t. t ++ joined ss) grown ∙ append_assoc (contents b) s (joined ss), v2)

-- The text of a response: the status line, how the connection goes on, the header lines, an empty
-- line and the body.
abbrev pub header_lines : HeaderMap → Bytes
header_lines [] = []
header_lines ((k, v) ∷ hs) = (k ++ (codes ": " ++ (v ++ crlf))) ++ header_lines hs

abbrev pub connection_lines : Bool → ℕ → Bytes
connection_lines true size = codes "Connection: close" ++ crlf
connection_lines false size =
    print_32 (codes "Content-Length: " ++ (decimal size ++ crlf))
    ++ (codes "Connection: Keep-Alive" ++ crlf)

abbrev pub response_text : Response → Bytes
response_text r =
    (print_32 (codes "HTTP/1.1 " ++ (decimal r.status_code ++ codes " "))
      ++ (r.status_message ++ crlf))
    ++ (connection_lines r.close_connection (length r.body)
        ++ (header_lines r.headers ++ (crlf ++ r.body)))

joined-header_pieces : (hs : HeaderMap) → joined (header_pieces hs) ≡ header_lines hs
unfolding header_pieces
joined-header_pieces [] = refl
joined-header_pieces ((k, v) ∷ hs) =
    rw
      (
        joined-header_pieces hs,
        append_assoc k (codes ": " ++ (v ++ crlf)) (header_lines hs),
        append_assoc v crlf (header_lines hs),
      )
      refl

joined-connection_pieces :
    (close : Bool) (size : ℕ) → joined (connection_pieces close size) ≡ connection_lines close size
unfolding connection_pieces
joined-connection_pieces true size = refl
joined-connection_pieces false size = refl

joined-pieces : (r : Response) → joined (pieces r) ≡ response_text r
unfolding pieces
joined-pieces r =
    let status = print_32 (codes "HTTP/1.1 " ++ (decimal r.status_code ++ codes " ")) in
    let rest = header_pieces r.headers ++ (crlf ∷ r.body ∷ []) in
    let lines =
      connection_lines r.close_connection (length r.body)
      ++ (header_lines r.headers ++ (crlf ++ r.body)) in
    rw
      (
        joined-append (connection_pieces r.close_connection (length r.body)) rest,
        joined-append (header_pieces r.headers) (crlf ∷ r.body ∷ []),
        joined-header_pieces r.headers,
        joined-connection_pieces r.close_connection (length r.body),
        append-nil r.body,
        append_assoc status (r.status_message ++ crlf) lines,
        append_assoc r.status_message crlf lines,
      )
      refl

-- The pieces, joined, are appended, with the numbers cut off by their buffers of 32 bytes.
pub append_to_buffer_refines :
    (r : Response) {b : Buffer}
    → IsValid b
    → length b.bytes + length (response_text r) < max_size
    → (contents (append_to_buffer r b) ≡ contents b ++ response_text r)
      × IsValid (append_to_buffer r b)
unfolding append_to_buffer
append_to_buffer_refines r {b} v h =
    let same = joined-pieces r in
    let (grown, valid) = append_pieces_refines (pieces r) v (omega (arith, ap length same)) in
    (grown ∙ ap (λ t. contents b ++ t) same, valid)
