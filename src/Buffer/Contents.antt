-- ===== src/Buffer/Contents.antt =====
-- A valid buffer behaves as the byte string of its contents: append, retrieve and readFd of
-- net/Buffer.hpp and net/Buffer.cpp act on it as on a list.
use tiny_network_library.Base.{
  ℕ, ◌+◌, ◌-◌, ◌≤◌, ◌<◌, ◌≡◌, refl, sym, ◌∙◌, ap, arith, ◌++◌, append_assoc, length, take, drop,
  replicate, Bytes, length-append, length-take, add_size, sub_size, take-append_le, drop-append_le,
  take-append_self, drop-append_self, drop-take, take-take,
}
use tiny_network_library.Buffer.{
  Buffer, cheap_prepend, readable_bytes, store, resize, contents, make_space, ensure_writable_bytes,
  put, append,
}
use tiny_network_library.Buffer.Bounds.{
  IsValid, HasRoom, max_size, sizes, length-contents, ensure_writable_bytes-HasRoom, put-IsValid,
  length-resize, store_inside,
}

-- The contents are a suffix of what lies before the writer index.
contents_lem :
    {b : Buffer} → IsValid b → contents b ≡ drop b.reader_index (take b.writer_index b.bytes)
unfolding contents
contents_lem {b} v = rw (drop-take b.reader_index b.writer_index b.bytes, (sizes v).0)

take-resize :
    (m n : ℕ) (bytes : Bytes) → m ≤ n → m ≤ length bytes → take m (resize bytes n) ≡ take m bytes
take-resize m n bytes h k =
    take-append_le m (take n bytes) (replicate (n - length bytes) 0)
      (omega (arith, length-take n bytes))
    ∙ take-take m n bytes h

-- What was stored is read back.
load-store :
    (bytes : Bytes) (off : ℕ) (d : Bytes)
    → off + length d ≤ length bytes
    → take (length d) (drop off (store bytes off d)) ≡ d
load-store bytes off d h =
    ap (λ s. take (length d) (drop off s)) (store_inside bytes off d h)
    ∙ ap (take (length d)) (
        drop-append_self off (take off bytes) (d ++ drop (off + length d) bytes)
          (omega (arith, length-take off bytes)))
    ∙ take-append_self (length d) d (drop (off + length d) bytes) refl

-- A write right behind `off` bytes extends them.
take-store :
    (bytes : Bytes) (off n : ℕ) (d : Bytes)
    → off + length d ≤ length bytes
    → n ≡ off + length d
    → take n (store bytes off d) ≡ take off bytes ++ d
take-store bytes off n d h e =
    ap (take n) (store_inside bytes off d h)
    ∙ ap (take n) (sym (append_assoc (take off bytes) d (drop (off + length d) bytes)))
    ∙ take-append_self n (take off bytes ++ d) (drop (off + length d) bytes)
        (omega (arith, length-append (take off bytes) d, length-take off bytes))

contents-resize :
    (n : ℕ) {b : Buffer}
    → IsValid b
    → b.writer_index + n < max_size
    → contents (record b { bytes = resize b.bytes (add_size b.writer_index n) }) ≡ contents b
contents-resize n {b} v h =
    let m = add_size b.writer_index n in
    contents_lem (record {
      prepend = v.prepend;
      ordered = v.ordered;
      inside = omega (arith, length-resize b.bytes m);
      small = omega (arith, length-resize b.bytes m);
    })
    ∙ ap (drop b.reader_index) (take-resize b.writer_index m b.bytes (omega arith) v.inside)
    ∙ sym (contents_lem v)

-- Writing behind the contents appends to them.
pub contents-put :
    (d : Bytes) {b : Buffer} → HasRoom (length d) b → contents (put d b) ≡ contents b ++ d
unfolding put
contents-put d {b} r =
    contents_lem (put-IsValid d r)
    ∙ ap (drop b.reader_index) (
        take-store b.bytes b.writer_index (add_size b.writer_index (length d)) d r.room
          (omega arith))
    ∙ drop-append_le b.reader_index (take b.writer_index b.bytes) d
        (omega (arith, length-take b.writer_index b.bytes))
    ∙ ap (λ s. s ++ d) (sym (contents_lem r.valid))

-- Moving the contents to the front keeps them.
contents-move :
    {b : Buffer}
    → IsValid b
    → contents (record b {
      bytes = store b.bytes cheap_prepend (contents b);
      reader_index = cheap_prepend;
      writer_index = add_size cheap_prepend (readable_bytes b);
    })
      ≡ contents b
contents-move {b} v =
    unfold contents in
    ap (λ n. take n (drop cheap_prepend (store b.bytes cheap_prepend (contents b))))
      {x = sub_size (add_size cheap_prepend (readable_bytes b)) cheap_prepend}
      {y = length (contents b)} (omega (arith, length-contents v))
    ∙ load-store b.bytes cheap_prepend (contents b) (omega (arith, length-contents v))

pub contents-make_space :
    (n : ℕ) {b : Buffer}
    → IsValid b
    → length b.bytes + n < max_size
    → contents (make_space n b) ≡ contents b
unfolding make_space
contents-make_space n {b} v h = ground (arith, contents-resize n v, contents-move v)

pub contents-ensure_writable_bytes :
    (n : ℕ) {b : Buffer}
    → IsValid b
    → length b.bytes + n < max_size
    → contents (ensure_writable_bytes n b) ≡ contents b
unfolding ensure_writable_bytes
contents-ensure_writable_bytes n {b} v h = ground (arith, contents-make_space n v h)

-- Appending to a valid buffer appends to its contents and keeps it valid, whether the bytes fit,
-- the contents are moved to the front or the storage grows, as long as the storage stays below the
-- largest vector.
pub append_refines :
    (d : Bytes) {b : Buffer}
    → IsValid b
    → length b.bytes + length d < max_size
    → (contents (append d b) ≡ contents b ++ d) × IsValid (append d b)
unfolding append
append_refines d {b} v h = (
  contents-put d (ensure_writable_bytes-HasRoom (length d) v h)
      ∙ ap (λ s. s ++ d) (contents-ensure_writable_bytes (length d) v h),
  put-IsValid d (ensure_writable_bytes-HasRoom (length d) v h),
)
