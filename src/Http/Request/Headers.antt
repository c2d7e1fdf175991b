-- ===== src/Http/Request/Headers.antt =====
-- Laws of the header table and of the white space that `addHeader` of http/HttpRequest.hpp strips.
use mathlib.Core.List.{reverse, reverse-reverse}
use tiny_network_library.Base.{
  ◌+◌, ◌≡◌, refl, arith, false, some, [], ◌∷◌, ◌++◌, length, Bytes, bytes_eq, bytes_eq_refl,
  bytes_eq_sound, Bool-cases, inl, inr, if◌then◌else◌, take-append_self, drop_past,
}
use tiny_network_library.Http.Request.{
  Request, HeaderMap, is_space, skip_space, trim_end, insert, lookup, add_header, get_header,
}

-- A string that does not begin with white space.
abbrev pub StartsSolid : Bytes → Type 0
StartsSolid [] = Unit
StartsSolid (c ∷ s) = is_space c ≡ false

-- A string that neither begins nor ends with white space.
abbrev pub IsTrimmed : Bytes → Type 0
IsTrimmed s = StartsSolid s × StartsSolid (reverse s)

pub skip_space-solid : (s : Bytes) → StartsSolid s → skip_space s ≡ s
unfolding skip_space
skip_space-solid [] h = refl
skip_space-solid (c ∷ s) h = rw h

pub skip_space-IsTrimmed : (s : Bytes) → IsTrimmed s → trim_end (skip_space s) ≡ s
unfolding trim_end
skip_space-IsTrimmed s (front, back) =
    rw (skip_space-solid s front, skip_space-solid (reverse s) back, reverse-reverse)

-- Whatever is stripped, the rest does not begin with white space.
pub skip_space-StartsSolid : (s : Bytes) → StartsSolid (skip_space s)
unfolding skip_space
skip_space-StartsSolid [] = tt
skip_space-StartsSolid (c ∷ s) = elim (Bool-cases (is_space c)) [
  | inl white ↦ rw white (skip_space-StartsSolid s)
  | inr solid ↦ rw solid solid
]

-- The table is a map.
pub lookup-insert :
    (k j v : Bytes) (m : HeaderMap)
    → lookup j (insert k v m) ≡ (if bytes_eq k j then some v else lookup j m)
unfolding lookup insert
lookup-insert k j v [] = refl
lookup-insert k j v ((i, w) ∷ m) = ground (
  arith,
  bytes_eq_sound k j,
  bytes_eq_sound i k,
  bytes_eq_sound i j,
  bytes_eq_refl k,
  bytes_eq_refl j,
  bytes_eq_refl i,
  lookup-insert k j v m,
)

strip_lem : (value : Bytes) → IsTrimmed value → trim_end (skip_space (32 ∷ value)) ≡ value
unfolding skip_space is_space
strip_lem value h = skip_space-IsTrimmed value h

-- A header line `field: value` with one space behind the colon and a trimmed value is stored as it
-- stands.
pub add_header_lem :
    (field value : Bytes) (r : Request)
    → IsTrimmed value
    → add_header (field ++ (b':' ∷ 32 ∷ value)) (length field) r
      ≡ record r { headers = insert field value r.headers }
unfolding add_header
add_header_lem field value r h = rw (
  take-append_self (length field) field (b':' ∷ 32 ∷ value) refl,
  drop_past (length field + 1) field b':' (32 ∷ value) refl,
  strip_lem value h,
)

-- What a header line stores is what `getHeader` returns for that field, and no other field changes.
pub get_header-add_header :
    (field value j : Bytes) (r : Request)
    → IsTrimmed value
    → get_header j (add_header (field ++ (b':' ∷ 32 ∷ value)) (length field) r)
      ≡ (if bytes_eq field j then value else get_header j r)
get_header-add_header field value j r h = rw (add_header_lem field value r h) stored
  where
    stored :
        get_header j (record r { headers = insert field value r.headers })
        ≡ (if bytes_eq field j then value else get_header j r)
    stored = unfold get_header in ground (arith, lookup-insert field j value r.headers)
