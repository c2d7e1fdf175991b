-- ===== src/Base/Decimal.antt =====
-- The decimal print of a number, as `%d` writes it, and that it can be read back.
use Prim.Native.Nat.{ℕ, zero, suc, ◌+◌, ◌-◌, ◌*◌, ◌/◌, ◌%◌, ◌≤◌, ◌<◌}
use mathlib.Core.Path.{◌≡◌, refl, ap, sym, ◌∙◌}
use mathlib.Core.List.{[], ◌∷◌, ◌++◌}
use mathlib.Core.Logic.{inl, inr}
use native.Mathlib.Omega.{arith}
use tiny_network_library.Base.Lists.{length, length-append}
use tiny_network_library.Base.Tests.{ltb, if◌then◌else◌, Bool-cases}
use tiny_network_library.Base.Words.{Bytes}

-- `%d` of a number that is not negative; as much fuel as the number is enough.
abbrev pub digits : ℕ → ℕ → Bytes
digits zero n = (48 + n % 10) ∷ []
digits (suc fuel) n =
    let front = digits fuel (n / 10) in
    if ltb n 10 then (48 + n) ∷ [] else front ++ ((48 + n % 10) ∷ [])

abbrev pub decimal : ℕ → Bytes
decimal n = digits n n

-- The number that digits stand for, behind those read before.
abbrev scan : Bytes → ℕ → ℕ
scan [] acc = acc
scan (c ∷ s) acc = scan s (acc * 10 + (c - 48))

scan-append : (s t : Bytes) (acc : ℕ) → scan (s ++ t) acc ≡ scan t (scan s acc)
scan-append [] t acc = refl
scan-append (c ∷ s) t acc = scan-append s t (acc * 10 + (c - 48))

scan-digits : (fuel n : ℕ) → n ≤ fuel → scan (digits fuel n) 0 ≡ n
scan-digits zero n h = omega arith
scan-digits (suc fuel) n h = elim (Bool-cases (ltb n 10)) [
  | inl small ↦ rw small (omega arith)
  | inr large ↦
      rw
        (
          large,
          scan-append (digits fuel (n / 10)) ((48 + n % 10) ∷ []) 0,
          scan-digits fuel (n / 10) (omega arith),
        )
        (omega arith)
]

-- Two numbers with one print are the same.
pub decimal_injective : (m n : ℕ) → decimal m ≡ decimal n → m ≡ n
decimal_injective m n e =
    sym (scan-digits m m (omega arith)) ∙ ap (λ s. scan s 0) e ∙ scan-digits n n (omega arith)

abbrev power : ℕ → ℕ
power zero = 1
power (suc k) = 10 * power k

length-digits : (fuel n k : ℕ) → n ≤ fuel → n < power (suc k) → length (digits fuel n) ≤ suc k
length-digits zero n k h b = omega arith
length-digits (suc fuel) n zero h b = ground arith
length-digits (suc fuel) n (suc k) h b = elim (Bool-cases (ltb n 10)) [
  | inl small ↦ rw small (omega arith)
  | inr large ↦ rw large (
      omega (
        arith,
        length-append (digits fuel (n / 10)) ((48 + n % 10) ∷ []),
        length-digits fuel (n / 10) k (omega arith) (omega arith),
      ))
]

-- Ten digits are enough below 2 ^ 31.
pub length-decimal : (n : ℕ) → n < 2147483648 → length (decimal n) ≤ 10
length-decimal n h = length-digits n n 9 (omega arith) (omega arith)

-- Five digits are enough for a port.
pub length-decimal_port : (n : ℕ) → n < 65536 → length (decimal n) ≤ 5
length-decimal_port n h = length-digits n n 4 (omega arith) (omega arith)
