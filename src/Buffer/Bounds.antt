-- ===== src/Buffer/Bounds.antt =====
-- The invariant of a buffer's indices (net/Buffer.hpp), and that every operation keeps it.
use tiny_network_library.Base.{
  ℕ, ◌+◌, ◌-◌, ◌≤◌, ◌<◌, ◌^◌, ◌≡◌, arith, ◌++◌, length, take, drop, replicate, Bytes, length-append,
  length-take, length-drop, take_all, length-replicate, add_size,
}
use tiny_network_library.Buffer.{
  Buffer, cheap_prepend, new, readable_bytes, writable_bytes, store, resize, contents, retrieve,
  make_space, ensure_writable_bytes, put, append,
}

-- A vector of `char` has at most 2 ^ 63 - 1 elements.
abbrev pub max_size : ℕ
max_size = 2 ^ 63

-- The cheap prepend area, the contents and the free space follow one another in the storage.
pub record IsValid (b : Buffer) : Type 0 where
  pub prepend : cheap_prepend ≤ b.reader_index
  pub ordered : b.reader_index ≤ b.writer_index
  pub inside : b.writer_index ≤ length b.bytes
  pub small : length b.bytes < max_size

-- None of the size computations wraps.
pub sizes :
    {b : Buffer}
    → IsValid b
    → (readable_bytes b ≡ b.writer_index - b.reader_index)
      × (writable_bytes b ≡ length b.bytes - b.writer_index)
sizes v = omega arith

-- A copy of the vector's bytes with `d` in place of those from `off` on.
length-spliced :
    (bytes : Bytes) (off : ℕ) (d : Bytes)
    → off + length d ≤ length bytes
    → length (take off bytes ++ (d ++ drop (off + length d) bytes)) ≡ length bytes
length-spliced bytes off d h = omega (
  arith,
  length-append (take off bytes) (d ++ drop (off + length d) bytes),
  length-append d (drop (off + length d) bytes),
  length-take off bytes,
  length-drop (off + length d) bytes,
)

-- Inside the vector nothing is lost.
pub store_inside :
    (bytes : Bytes) (off : ℕ) (d : Bytes)
    → off + length d ≤ length bytes
    → store bytes off d ≡ take off bytes ++ (d ++ drop (off + length d) bytes)
unfolding store
store_inside bytes off d h =
    take_all (length bytes) (take off bytes ++ (d ++ drop (off + length d) bytes))
      (omega (arith, length-spliced bytes off d h))

pub length-store :
    (bytes : Bytes) (off : ℕ) (d : Bytes)
    → off + length d ≤ length bytes
    → length (store bytes off d) ≡ length bytes
length-store bytes off d h = rw (store_inside bytes off d h) (length-spliced bytes off d h)

pub length-resize : (bytes : Bytes) (n : ℕ) → length (resize bytes n) ≡ n
length-resize bytes n = omega (
  arith,
  length-append (take n bytes) (replicate (n - length bytes) 0),
  length-take n bytes,
  length-replicate {A = ℕ} (n - length bytes) 0,
)

pub length-contents :
    {b : Buffer} → IsValid b → length (contents b) ≡ b.writer_index - b.reader_index
unfolding contents
length-contents {b} v = omega (
  arith,
  length-take (readable_bytes b) (drop b.reader_index b.bytes),
  length-drop b.reader_index b.bytes,
)

-- A new buffer is valid.
pub new-IsValid : (n : ℕ) → n + cheap_prepend < max_size → IsValid (new n)
unfolding new
new-IsValid n h = omega (arith, length-replicate {A = ℕ} (add_size cheap_prepend n) 0)

pub retrieve-IsValid : (n : ℕ) {b : Buffer} → IsValid b → IsValid (retrieve n b)
unfolding retrieve
retrieve-IsValid n {b} v = ground arith

-- Room for `n` more bytes: what `ensureWritableBytes` leaves.
pub record HasRoom (n : ℕ) (b : Buffer) : Type 0 where
  pub valid : IsValid b
  pub room : b.writer_index + n ≤ length b.bytes

pub make_space-HasRoom :
    (n : ℕ) {b : Buffer} → IsValid b → length b.bytes + n < max_size → HasRoom n (make_space n b)
unfolding make_space
make_space-HasRoom n {b} v h = ground (
  arith,
  sizes v,
  length-resize b.bytes (add_size b.writer_index n),
  length-store b.bytes cheap_prepend (contents b),
  length-contents v,
)

pub ensure_writable_bytes-HasRoom :
    (n : ℕ) {b : Buffer}
    → IsValid b
    → length b.bytes + n < max_size
    → HasRoom n (ensure_writable_bytes n b)
unfolding ensure_writable_bytes
ensure_writable_bytes-HasRoom n {b} v h = ground (arith, make_space-HasRoom n v h)

pub put-IsValid : (d : Bytes) {b : Buffer} → HasRoom (length d) b → IsValid (put d b)
unfolding put
put-IsValid d {b} r = ground (arith, length-store b.bytes b.writer_index d)

pub append-IsValid :
    (d : Bytes) {b : Buffer}
    → IsValid b
    → length b.bytes + length d < max_size
    → IsValid (append d b)
unfolding append
append-IsValid d {b} v h = put-IsValid d (ensure_writable_bytes-HasRoom (length d) v h)

length-bytes-ensure :
    (n : ℕ) {b : Buffer}
    → IsValid b
    → length b.bytes + n < max_size
    → length (ensure_writable_bytes n b).bytes ≤ length b.bytes + n
unfolding ensure_writable_bytes make_space
length-bytes-ensure n {b} v h = ground (
  arith,
  length-resize b.bytes (add_size b.writer_index n),
  length-store b.bytes cheap_prepend (contents b),
  length-contents v,
)

-- The storage grows by at most the bytes asked for.
pub length-bytes-append :
    (d : Bytes) {b : Buffer}
    → IsValid b
    → length b.bytes + length d < max_size
    → length (append d b).bytes ≤ length b.bytes + length d
unfolding append put
length-bytes-append d {b} v h =
    let b' = ensure_writable_bytes (length d) b in
    omega (
      arith,
      length-store b'.bytes b'.writer_index d (ensure_writable_bytes-HasRoom (length d) v h).room,
      length-bytes-ensure (length d) v h,
    )

pub length-bytes-retrieve : (n : ℕ) (b : Buffer) → length (retrieve n b).bytes ≡ length b.bytes
unfolding retrieve
length-bytes-retrieve n b = ground arith
