-- ===== src/Buffer.antt =====
-- net/Buffer.hpp and net/Buffer.cpp: the byte buffer between a socket and its user. The storage is
-- a vector with two indices; the bytes between them are the contents.
pub mod Bounds
pub mod Contents
pub mod Reads
pub mod Lines
mod Examples
use tiny_network_library.Base.{
  ℕ, suc, ◌+◌, ◌-◌, ◌&&◌, Option, none, some, List, [], ◌∷◌, ◌++◌, length, take, drop, replicate,
  Bytes, add_size, sub_size, ltb, leb, ◌==◌, if◌then◌else◌,
}

abbrev pub cheap_prepend : ℕ
cheap_prepend = 8

abbrev pub initial_size : ℕ
initial_size = 1024

pub record Buffer : Type 0 where
  pub bytes : Bytes
  pub reader_index : ℕ
  pub writer_index : ℕ

-- The constructor: a vector of zero bytes.
unfoldable pub new : ℕ → Buffer
new n = record {
  bytes = replicate (add_size cheap_prepend n) 0;
  reader_index = cheap_prepend;
  writer_index = cheap_prepend;
}

abbrev pub readable_bytes : Buffer → ℕ
readable_bytes b = sub_size b.writer_index b.reader_index

abbrev pub writable_bytes : Buffer → ℕ
writable_bytes b = sub_size (length b.bytes) b.writer_index

abbrev pub prependable_bytes : Buffer → ℕ
prependable_bytes b = b.reader_index

-- The memory `[off, off + len)` of the storage; `none` where it leaves the storage.
abbrev pub load : Bytes → ℕ → ℕ → Option Bytes
load bytes off len =
    if leb (off + len) (length bytes) then some (take len (drop off bytes)) else none

-- `std::copy` of `d` to offset `off` of the storage. It never makes the vector longer: bytes copied
-- past its end are lost to it.
unfoldable pub store : Bytes → ℕ → Bytes → Bytes
store bytes off d = take (length bytes) (take off bytes ++ (d ++ drop (off + length d) bytes))

-- `vector::resize`: new bytes are zero.
abbrev pub resize : Bytes → ℕ → Bytes
resize bytes n = take n bytes ++ replicate (n - length bytes) 0

-- The bytes from `peek()` to `beginWrite()`.
unfoldable pub contents : Buffer → Bytes
contents b = take (readable_bytes b) (drop b.reader_index b.bytes)

unfoldable pub retrieve_all : Buffer → Buffer
retrieve_all b = record b { reader_index = cheap_prepend; writer_index = cheap_prepend }

unfoldable pub retrieve : ℕ → Buffer → Buffer
unfolding retrieve_all
retrieve len b =
    if ltb len (readable_bytes b)
    then record b { reader_index = add_size b.reader_index len }
    else retrieve_all b

-- `none`: the string would be read from outside the storage.
unfoldable pub retrieve_as_string : ℕ → Buffer → Option (Bytes × Buffer)
retrieve_as_string len b = elim (load b.bytes b.reader_index len) [
  | none ↦ none
  | some s ↦ some (s, retrieve len b)
]

unfoldable pub retrieve_all_as_string : Buffer → Option (Bytes × Buffer)
unfolding retrieve_as_string
retrieve_all_as_string b = retrieve_as_string (readable_bytes b) b

unfoldable pub get_buffer_all_as_string : Buffer → Option Bytes
get_buffer_all_as_string b = load b.bytes b.reader_index (readable_bytes b)

-- Grow the storage, or move the contents to the front.
unfoldable pub make_space : ℕ → Buffer → Buffer
make_space len b =
    if ltb (add_size (writable_bytes b) (prependable_bytes b)) (add_size len cheap_prepend)
    then record b { bytes = resize b.bytes (add_size b.writer_index len) }
    else record b {
      bytes = store b.bytes cheap_prepend (contents b);
      reader_index = cheap_prepend;
      writer_index = add_size cheap_prepend (readable_bytes b);
    }

unfoldable pub ensure_writable_bytes : ℕ → Buffer → Buffer
ensure_writable_bytes len b = if ltb (writable_bytes b) len then make_space len b else b

-- `std::copy(data, data + len, beginWrite())` and the new writer index.
unfoldable pub put : Bytes → Buffer → Buffer
put d b = record b {
  bytes = store b.bytes b.writer_index d;
  writer_index = add_size b.writer_index (length d);
}

unfoldable pub append : Bytes → Buffer → Buffer
append d b = put d (ensure_writable_bytes (length d) b)

-- `std::search` for "\r\n": the first position of it, or the length.
unfoldable pub search_crlf : Bytes → ℕ
search_crlf [] = 0
search_crlf (c ∷ []) = 1
search_crlf (c ∷ d ∷ s) =
    let next = search_crlf (d ∷ s) in if c == 13 && d == 10 then 0 else suc next

-- The offset from `peek()` at which the pointer stands; `none` is the null pointer.
unfoldable pub find_crlf : Buffer → Option ℕ
find_crlf b =
    let crlf = search_crlf (contents b) in if crlf == readable_bytes b then none else some crlf

-- What `readv` and `write` answer: a negative result with its `errno`, or the bytes that `readv`
-- scattered over the two areas, in order.
pub data ReadResult : Type 0 where
  read_failed : ℕ → ReadResult
  received : Bytes → ReadResult

-- The size of `extrabuf`.
abbrev pub extra_size : ℕ
extra_size = 65536

-- The `ssize_t` that `readFd` and `writeFd` return, or the saved `errno`.
pub data IoResult : Type 0 where
  io_error : ℕ → IoResult
  io_count : ℕ → IoResult

-- The bytes that `readv` delivered into the free space and into `extrabuf`.
unfoldable pub receive : Bytes → Buffer → Buffer
receive d b =
    let writable = writable_bytes b in
    if leb (length d) writable
    then put d b
    else append (drop writable d) (record b {
      bytes = store b.bytes b.writer_index (take writable d);
      writer_index = length b.bytes;
    })

unfoldable pub read_fd : ReadResult → Buffer → Buffer × IoResult
read_fd (read_failed e) b = (b, io_error e)
read_fd (received d) b = (receive d b, io_count (length d))

-- `write(fd, peek(), readableBytes())`: `sys` is the kernel, and the buffer stays as it is.
unfoldable pub write_fd : (Bytes → IoResult) → Buffer → Option IoResult
write_fd sys b = elim (load b.bytes b.reader_index (readable_bytes b)) [
  | none ↦ none
  | some s ↦ some (sys s)
]
