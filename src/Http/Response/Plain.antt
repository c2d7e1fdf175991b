-- ===== src/Http/Response/Plain.antt =====
-- What `appendToBuffer` of http/HttpResponse.cpp writes, without the buffer of 32 bytes that the numbers go
-- through.
use tiny_network_library.Base.{
  ℕ, ◌+◌, ◌<◌, ◌^◌, ◌≡◌, refl, ap, ◌∙◌, arith, Bool, true, false, ◌++◌, length, length-append,
  Bytes, codes, decimal, length-decimal, take_all,
}
use tiny_network_library.Buffer.{Buffer, contents}
use tiny_network_library.Buffer.Bounds.{IsValid, max_size}
use tiny_network_library.Http.Response.{
  Response, append_to_buffer, append_to_buffer_refines, response_text, header_lines,
  connection_lines, crlf, print_32,
}

-- The status line, how the connection goes on, the header lines, an empty line and the body.
abbrev pub going_on : Bool → ℕ → Bytes
going_on true size = codes "Connection: close" ++ crlf
going_on false size =
    (codes "Content-Length: " ++ (decimal size ++ crlf)) ++ (codes "Connection: Keep-Alive" ++ crlf)

abbrev pub plain_text : Response → Bytes
plain_text r =
    ((codes "HTTP/1.1 " ++ (decimal r.status_code ++ codes " ")) ++ (r.status_message ++ crlf))
    ++ (going_on r.close_connection (length r.body) ++ (header_lines r.headers ++ (crlf ++ r.body)))

-- A number of `int` fits between its words.
print_32_all :
    (before after : Bytes) (n : ℕ)
    → n < 2 ^ 31
    → length before + length after < 22
    → print_32 (before ++ (decimal n ++ after)) ≡ before ++ (decimal n ++ after)
print_32_all before after n h k = take_all 31 (before ++ (decimal n ++ after)) (
    omega (
      arith,
      length-append before (decimal n ++ after),
      length-append (decimal n) after,
      length-decimal n h,
    ))

connection_lines-going_on :
    (close : Bool) (size : ℕ) → size < 2 ^ 31 → connection_lines close size ≡ going_on close size
connection_lines-going_on true size h = refl
connection_lines-going_on false size h =
    ap (λ s. s ++ (codes "Connection: Keep-Alive" ++ crlf))
      (print_32_all (codes "Content-Length: ") crlf size h (omega arith))

response_text-plain_text :
    (r : Response)
    → r.status_code < 2 ^ 31
    → length r.body < 2 ^ 31
    → response_text r ≡ plain_text r
response_text-plain_text r h k =
    let rest = header_lines r.headers ++ (crlf ++ r.body) in
    let status = codes "HTTP/1.1 " ++ (decimal r.status_code ++ codes " ") in
    ap
      (λ s.
        (s ++ (r.status_message ++ crlf))
        ++ (connection_lines r.close_connection (length r.body) ++ rest))
      (print_32_all (codes "HTTP/1.1 ") (codes " ") r.status_code h (omega arith))
    ∙ ap (λ s. (status ++ (r.status_message ++ crlf)) ++ (s ++ rest))
        (connection_lines-going_on r.close_connection (length r.body) k)

-- `appendToBuffer` puts exactly the text of the response behind the contents of a valid buffer and keeps it
-- valid: HTTP/1.1, the whole status code, the message, how the connection goes on, with the whole
-- length of the body if it stays open, every header with a colon and a space, an empty line, and the body.
-- The status code and the length of the body are below 2 ^ 31, and the storage stays below the largest
-- vector.
pub append_to_buffer-plain_text :
    (r : Response) {b : Buffer}
    → IsValid b
    → r.status_code < 2 ^ 31
    → length r.body < 2 ^ 31
    → length b.bytes + length (plain_text r) < max_size
    → (contents (append_to_buffer r b) ≡ contents b ++ plain_text r)
      × IsValid (append_to_buffer r b)
append_to_buffer-plain_text r {b} v h k room =
    let same = response_text-plain_text r h k in
    let (grown, valid) = append_to_buffer_refines r v (omega (arith, ap length same)) in
    (grown ∙ ap (λ t. contents b ++ t) same, valid)
