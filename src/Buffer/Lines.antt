-- ===== src/Buffer/Lines.antt =====
-- `findCRLF` of net/Buffer.hpp: where the first line of the contents ends.
use tiny_network_library.Base.{
  ◌+◌, ◌≤◌, ◌<◌, ◌≡◌, inl, inr, refl, arith, [], ◌∷◌, ◌++◌, some, none, length, take, drop, Bytes,
  Bool-cases, get_elem?, get_elem?-lt, zero, ◌==◌, ◌&&◌, if◌then◌else◌, Lacks, ℕ, suc,
}
use tiny_network_library.Buffer.{Buffer, contents, search_crlf, find_crlf}
use tiny_network_library.Buffer.Bounds.{IsValid, length-contents}

pub search_crlf-le : (s : Bytes) → search_crlf s ≤ length s
unfolding search_crlf
search_crlf-le [] = omega arith
search_crlf-le (c ∷ []) = omega arith
search_crlf-le (c ∷ d ∷ s) = ground (arith, search_crlf-le (d ∷ s))

-- What stands at a position that the search reports.
pub search_crlf_sound :
    (s : Bytes)
    → search_crlf s < length s
    → (s ≡ take (search_crlf s) s ++ (13 ∷ 10 ∷ drop (search_crlf s + 2) s))
unfolding search_crlf
search_crlf_sound [] h = elim h [ ]
search_crlf_sound (c ∷ []) h = absurd (omega arith)
search_crlf_sound (c ∷ d ∷ s) h = elim (Bool-cases (c == 13 && d == 10)) [
  | inl hit ↦ rw hit (ground arith)
  | inr miss ↦ rw miss (ground (arith, search_crlf_sound (d ∷ s)))
]

pub search_crlf-inside : (s : Bytes) → search_crlf s < length s → search_crlf s + 2 ≤ length s
unfolding search_crlf
search_crlf-inside [] h = elim h [ ]
search_crlf-inside (c ∷ []) h = absurd (omega arith)
search_crlf-inside (c ∷ d ∷ s) h = ground (arith, search_crlf-inside (d ∷ s))

-- A line with no carriage return is found whole.
pub search_crlf_line :
    (line rest : Bytes) → Lacks 13 line → search_crlf (line ++ (13 ∷ 10 ∷ rest)) ≡ length line
unfolding search_crlf
search_crlf_line [] rest h = refl
search_crlf_line (c ∷ []) rest h = ground (arith, search_crlf_line [] rest tt)
search_crlf_line (c ∷ d ∷ s) rest h = ground (arith, search_crlf_line (d ∷ s) rest h.1)

-- Where no carriage return stands there is no line end.
pub search_crlf_none : (s : Bytes) → Lacks 13 s → search_crlf s ≡ length s
unfolding search_crlf
search_crlf_none [] h = refl
search_crlf_none (c ∷ []) h = refl
search_crlf_none (c ∷ d ∷ s) h = ground (arith, search_crlf_none (d ∷ s) h.1)

-- The pointer test of `findCRLF`, over the contents.
pub find_crlf_lem :
    {b : Buffer}
    → IsValid b
    → find_crlf b
      ≡ (let n = search_crlf (contents b) in if n == length (contents b) then none else some n)
unfolding find_crlf
find_crlf_lem {b} v = ground (arith, length-contents v)

search_crlf_first :
    (s : Bytes) (j : ℕ)
    → get_elem? s j ≡ some 13
    → get_elem? s (suc j) ≡ some 10
    → search_crlf s ≤ j
unfolding search_crlf
search_crlf_first [] j h k = cc
search_crlf_first (c ∷ []) zero h k = cc
search_crlf_first (c ∷ []) (suc j) h k = cc
search_crlf_first (c ∷ d ∷ s) zero h k = ground arith
search_crlf_first (c ∷ d ∷ s) (suc j) h k = ground (arith, search_crlf_first (d ∷ s) j h k)

-- The position that `findCRLF` returns on a valid buffer is one of "\r\n" in the contents, and no
-- "\r\n" of the contents stands before it.
pub find_crlf_first :
    {b : Buffer}
    → IsValid b
    → (i j : ℕ) → find_crlf b ≡ some i
    → get_elem? (contents b) j ≡ some 13
    → get_elem? (contents b) (suc j) ≡ some 10
    → (contents b ≡ take i (contents b) ++ (13 ∷ 10 ∷ drop (i + 2) (contents b))) × (i ≤ j)
find_crlf_first {b} v i j h p q =
    let e = find_crlf_lem v in
    let s = contents b in
    (
      ground (arith, e, search_crlf_sound s, search_crlf-le s),
      ground (arith, e, search_crlf_first s j p q),
    )

-- Where `findCRLF` returns the null pointer on a valid buffer, no carriage return of the contents is
-- followed by a line feed.
pub find_crlf-none :
    {b : Buffer}
    → IsValid b
    → (j : ℕ) → find_crlf b ≡ none
    → get_elem? (contents b) j ≡ some 13
    → ¬ (get_elem? (contents b) (suc j) ≡ some 10)
find_crlf-none {b} v j h p q =
    let e = find_crlf_lem v in
    let s = contents b in ground (arith, e, search_crlf_first s j p q, get_elem?-lt s (suc j) q)
