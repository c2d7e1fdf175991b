-- ===== src/Base/Words.antt =====
-- `size_t` arithmetic, and texts as byte strings.
use Prim.Native.Nat.{ℕ, suc, ◌+◌, ◌-◌, ◌%◌, ◌^◌, ◌≤◌}
use Prim.Native.Char.{code}
use Prim.Native.String.{String}
use mathlib.Core.Path.{◌≡◌, refl}
use mathlib.Core.Logic.{◌≢◌}
use mathlib.Core.Bool.{Bool, true, false, ◌&&◌}
use mathlib.Core.List.{List, [], ◌∷◌, ◌++◌}
use native.Mathlib.Omega.{arith}
use tiny_network_library.Base.Tests.{◌==◌, if◌then◌else◌}
use tiny_network_library.Base.Lists.{length}

-- `std::string` and `char` arrays: a list of byte values.
abbrev pub Bytes : Type 0
Bytes = List ℕ

-- The bytes of an ASCII literal.
abbrev pub codes : String → Bytes
codes String.[] = []
codes (String.◌∷◌ c s) = code c ∷ codes s

-- Unsigned 64-bit sums and differences wrap around.
abbrev pub add_size : ℕ → ℕ → ℕ
add_size a b = (a + b) % 2 ^ 64

abbrev pub sub_size : ℕ → ℕ → ℕ
sub_size a b = (a + 2 ^ 64 - b) % 2 ^ 64

-- Every byte of a string has a property; none is `b`.
abbrev pub All {ℓ κ} : {A : Type ℓ} → (A → Type κ) → List A → Type κ
All P [] = Unit
All P (x ∷ xs) = P x × All P xs

abbrev pub Lacks : ℕ → Bytes → Type 0
Lacks b = All (λ c. c ≢ b)

pub All-append {ℓ κ} :
    {A : Type ℓ} (P : A → Type κ) (xs ys : List A) → All P xs → All P ys → All P (xs ++ ys)
All-append P [] ys hx hy = hy
All-append P (x ∷ xs) ys hx hy = (hx.0, All-append P xs ys hx.1 hy)

-- `==` on `std::string`.
unfoldable pub bytes_eq : Bytes → Bytes → Bool
bytes_eq [] [] = true
bytes_eq [] (d ∷ t) = false
bytes_eq (c ∷ s) [] = false
bytes_eq (c ∷ s) (d ∷ t) = c == d && bytes_eq s t

pub bytes_eq_refl : (s : Bytes) → bytes_eq s s ≡ true
unfolding bytes_eq
bytes_eq_refl [] = refl
bytes_eq_refl (c ∷ s) = ground (arith, bytes_eq_refl s)

pub bytes_eq_sound : (s t : Bytes) → bytes_eq s t ≡ true → s ≡ t
unfolding bytes_eq
bytes_eq_sound [] [] h = refl
bytes_eq_sound [] (d ∷ t) h = cc
bytes_eq_sound (c ∷ s) [] h = cc
bytes_eq_sound (c ∷ s) (d ∷ t) h = ground (arith, bytes_eq_sound s t)

-- `std::find`: the position of the first `b`, or the length.
unfoldable pub find : ℕ → Bytes → ℕ
find b [] = 0
find b (c ∷ s) = let next = find b s in if c == b then 0 else suc next

pub find-le : (b : ℕ) (s : Bytes) → find b s ≤ length s
unfolding find
find-le b [] = omega arith
find-le b (c ∷ s) = ground (arith, find-le b s)

pub find_first : (b : ℕ) (s t : Bytes) → Lacks b s → find b (s ++ (b ∷ t)) ≡ length s
unfolding find
find_first b [] t h = ground arith
find_first b (c ∷ s) t h = ground (arith, find_first b s t h.1)

pub find_none : (b : ℕ) (s : Bytes) → Lacks b s → find b s ≡ length s
unfolding find
find_none b [] h = refl
find_none b (c ∷ s) h = ground (arith, find_none b s h.1)
