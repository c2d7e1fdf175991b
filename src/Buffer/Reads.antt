-- ===== src/Buffer/Reads.antt =====
-- What the readers of net/Buffer.hpp hand out, and what `readFd` of net/Buffer.cpp takes in.
use tiny_network_library.Base.{
  ℕ, ◌+◌, ◌-◌, ◌≤◌, ◌<◌, ◌≡◌, refl, sym, ◌∙◌, ap, arith, [], ◌++◌, append_assoc, some, length, take,
  drop, Bytes, length-take, length-drop, add_size, sub_size, ltb, leb, Bool-cases, inl, inr,
  drop-drop, drop-take, drop_all, take_all, take-take, take-append-drop, ltb→lt,
}
use tiny_network_library.Buffer.{
  Buffer, readable_bytes, writable_bytes, load, store, contents, retrieve, retrieve_all,
  retrieve_as_string, retrieve_all_as_string, put, append, receive, read_fd, received, io_count,
  extra_size,
}
use tiny_network_library.Buffer.Bounds.{
  IsValid, HasRoom, length-store, max_size, length-contents, put-IsValid, length-store,
  length-bytes-append,
}
use tiny_network_library.Buffer.Contents.{contents-put, append_refines}

-- Taking `n` bytes off the front.
contents-advance :
    (n : ℕ) {b : Buffer}
    → IsValid b
    → n < b.writer_index - b.reader_index
    → contents (record b { reader_index = add_size b.reader_index n }) ≡ drop n (contents b)
unfolding contents
contents-advance n {b} v h =
    let moved : add_size b.reader_index n ≡ b.reader_index + n = omega arith in
    let left : sub_size b.writer_index (b.reader_index + n) ≡ readable_bytes b - n = omega arith in
    rw (
      moved,
      left,
      drop-take n (readable_bytes b) (drop b.reader_index b.bytes),
      drop-drop n b.reader_index b.bytes,
    )

contents-retrieve_all : (b : Buffer) → contents (retrieve_all b) ≡ []
unfolding contents retrieve_all
contents-retrieve_all b = refl

-- Retrieving drops that many bytes off the front of the contents, all of them if there are fewer.
pub contents-retrieve :
    (n : ℕ) {b : Buffer} → IsValid b → contents (retrieve n b) ≡ drop n (contents b)
unfolding retrieve
contents-retrieve n {b} v = elim (Bool-cases (ltb n (readable_bytes b))) [
  | inl less ↦ rw less (contents-advance n v (omega (arith, ltb→lt n (readable_bytes b) less)))
  | inr more ↦
      rw more (
        contents-retrieve_all b ∙ sym (drop_all n (contents b) (ground (arith, length-contents v))))
]

load_inside :
    (bytes : Bytes) (off n : ℕ)
    → off + n ≤ length bytes
    → load bytes off n ≡ some (take n (drop off bytes))
load_inside bytes off n h = ground arith

-- A string of at most the readable bytes is the front of the contents, read inside the storage, and
-- is gone from the contents afterwards.
pub retrieve_as_string_lem :
    (n : ℕ) {b : Buffer}
    → IsValid b
    → n ≤ readable_bytes b
    → (retrieve_as_string n b ≡ some (take n (contents b), retrieve n b))
      × (contents (retrieve n b) ≡ drop n (contents b))
unfolding retrieve_as_string
retrieve_as_string_lem n {b} v h = (
  rw (load_inside b.bytes b.reader_index n (omega arith), front, retrieve_as_string),
  contents-retrieve n v,
)
  where
    front : take n (drop b.reader_index b.bytes) ≡ take n (contents b)
    front = unfold contents in sym (take-take n (readable_bytes b) (drop b.reader_index b.bytes) h)

-- Taking everything as one string empties the buffer.
pub retrieve_all_as_string_lem :
    {b : Buffer}
    → IsValid b
    → (retrieve_all_as_string b ≡ some (contents b, retrieve (readable_bytes b) b))
      × (contents (retrieve (readable_bytes b) b) ≡ [])
unfolding retrieve_all_as_string
retrieve_all_as_string_lem {b} v =
    let (whole, rest) = retrieve_as_string_lem (readable_bytes b) v (omega arith) in
    let all : length (contents b) ≤ readable_bytes b = omega (arith, length-contents v) in
    (
      whole
          ∙ ap (λ s. some (s, retrieve (readable_bytes b) b))
              (take_all (readable_bytes b) (contents b) all),
      rest ∙ drop_all (readable_bytes b) (contents b) all,
    )

-- The free space is filled first.
spilled :
    (d : Bytes) {b : Buffer}
    → IsValid b
    → writable_bytes b < length d
    → record b {
      bytes = store b.bytes b.writer_index (take (writable_bytes b) d);
      writer_index = length b.bytes;
    }
      ≡ put (take (writable_bytes b) d) b
unfolding put
spilled d {b} v h =
    ap
      (λ n. record b {
        bytes = store b.bytes b.writer_index (take (writable_bytes b) d);
        writer_index = n;
      })
      (omega (arith, length-take (writable_bytes b) d))

abbrev Takes : Bytes → Buffer → Buffer → Type 0
Takes d b b' = (contents b' ≡ contents b ++ d) × IsValid b'

receive_fits :
    (d : Bytes) {b : Buffer} → IsValid b → length d ≤ writable_bytes b → Takes d b (put d b)
receive_fits d {b} v h =
    let room : HasRoom (length d) b = record { valid = v; room = omega arith } in
    (contents-put d room, put-IsValid d room)

length-put :
    (d : Bytes) {b : Buffer} → HasRoom (length d) b → length (put d b).bytes ≡ length b.bytes
unfolding put
length-put d {b} r = length-store b.bytes b.writer_index d r.room

receive_spills :
    (d : Bytes) {b : Buffer}
    → IsValid b
    → writable_bytes b < length d
    → length d ≤ writable_bytes b + extra_size
    → length b.bytes + extra_size < max_size
    → Takes d b (
        append (drop (writable_bytes b) d) (record b {
          bytes = store b.bytes b.writer_index (take (writable_bytes b) d);
          writer_index = length b.bytes;
        }))
receive_spills d {b} v more fits small =
    let w = writable_bytes b in
    let front : Bytes = take w d in
    let room : HasRoom (length front) b = record {
      valid = v;
      room = omega (arith, length-take w d);
    } in
    let (grown, valid) =
      append_refines (drop w d) (put-IsValid front room)
        (omega (arith, length-put front room, length-drop w d)) in
    rw (spilled d v more) (
      grown
          ∙ ap (λ s. s ++ drop w d) (contents-put front room)
          ∙ append_assoc (contents b) front (drop w d)
          ∙ ap (◌++◌ (contents b)) (take-append-drop w d),
      valid,
    )

-- On a valid buffer, `readFd` with an answer of `readv` that fits its two areas appends what was received,
-- in order, through the free space and the extra buffer, returns its length and keeps the buffer valid. The
-- storage stays below the largest vector even with the whole extra buffer.
pub read_fd_refines :
    (d : Bytes) {b : Buffer}
    → IsValid b
    → length d ≤ writable_bytes b + extra_size
    → length b.bytes + extra_size < max_size
    → ((read_fd (received d) b).1 ≡ io_count (length d))
      × (contents (read_fd (received d) b).0 ≡ contents b ++ d)
      × IsValid (read_fd (received d) b).0
unfolding read_fd receive
read_fd_refines d {b} v fits small = elim (Bool-cases (leb (length d) (writable_bytes b))) [
  | inl all ↦ let done = receive_fits d v (ground arith) in rw (all, receive) (refl, done.0, done.1)
  | inr more ↦
      let done = receive_spills d v (ground arith) fits small in
      rw (more, receive) (refl, done.0, done.1)
]

-- The storage grows by at most what was received.
pub length-read_fd :
    (d : Bytes) {b : Buffer}
    → IsValid b
    → length d ≤ writable_bytes b + extra_size
    → length b.bytes + extra_size < max_size
    → length (read_fd (received d) b).0.bytes ≤ length b.bytes + length d
unfolding read_fd receive
length-read_fd d {b} v fits small = elim (Bool-cases (leb (length d) (writable_bytes b))) [
  | inl all ↦
      rw (all, receive) (omega (arith, length-put d (record { valid = v; room = ground arith })))
  | inr more ↦
      let w = writable_bytes b in
      let room : HasRoom (length (take w d)) b = record {
        valid = v;
        room = omega (arith, length-take w d);
      } in
      let put' = length-put (take w d) room in
      rw (more, receive, spilled d v (ground arith))
        (omega (
          arith,
          put',
          length-drop w d,
          length-bytes-append (drop w d) (put-IsValid (take w d) room)
              (omega (arith, put', length-drop w d)),
        ))
]
