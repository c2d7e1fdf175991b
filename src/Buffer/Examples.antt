-- ===== src/Buffer/Examples.antt =====
-- The theorems on net/Buffer.hpp at a small buffer.
use tiny_network_library.Base.{◌≡◌, refl, arith, [], ◌∷◌, some, none}
use tiny_network_library.Buffer.{
  Buffer, contents, append, read_fd, received, io_count, find_crlf, search_crlf, make_space,
  ensure_writable_bytes, put, store,
}
use tiny_network_library.Buffer.Bounds.{IsValid}
use tiny_network_library.Buffer.Contents.{append_refines}
use tiny_network_library.Buffer.Reads.{read_fd_refines}

-- "a\r\nb" behind the cheap prepend area, and one free byte.
abbrev sample : Buffer
sample = record {
  bytes = 0 ∷ 0 ∷ 0 ∷ 0 ∷ 0 ∷ 0 ∷ 0 ∷ 0 ∷ 97 ∷ 13 ∷ 10 ∷ 98 ∷ 0 ∷ [];
  reader_index = 8;
  writer_index = 12;
}

-- The same storage with a carriage return alone.
abbrev sample_plain : Buffer
sample_plain = record sample { writer_index = 10 }

sample-IsValid : IsValid sample
sample-IsValid = omega arith

sample_plain-IsValid : IsValid sample_plain
sample_plain-IsValid = omega arith

append_moves :
    contents (append (1 ∷ 2 ∷ []) (record sample { reader_index = 11 })) ≡ 98 ∷ 1 ∷ 2 ∷ []
unfolding append make_space ensure_writable_bytes put store contents
append_moves = refl

append_refines_example :
    (contents (append (1 ∷ 2 ∷ 3 ∷ []) sample) ≡ 97 ∷ 13 ∷ 10 ∷ 98 ∷ 1 ∷ 2 ∷ 3 ∷ [])
    × IsValid (append (1 ∷ 2 ∷ 3 ∷ []) sample)
unfolding contents
append_refines_example = append_refines (1 ∷ 2 ∷ 3 ∷ []) sample-IsValid (omega arith)

read_fd_refines_example :
    ((read_fd (received (1 ∷ 2 ∷ [])) sample).1 ≡ io_count 2)
    × (contents (read_fd (received (1 ∷ 2 ∷ [])) sample).0 ≡ 97 ∷ 13 ∷ 10 ∷ 98 ∷ 1 ∷ 2 ∷ [])
    × IsValid (read_fd (received (1 ∷ 2 ∷ [])) sample).0
unfolding contents
read_fd_refines_example = read_fd_refines (1 ∷ 2 ∷ []) sample-IsValid (omega arith) (omega arith)

found : find_crlf sample ≡ some 1
unfolding find_crlf search_crlf contents
found = refl

not_found : find_crlf sample_plain ≡ none
unfolding find_crlf search_crlf contents
not_found = refl
