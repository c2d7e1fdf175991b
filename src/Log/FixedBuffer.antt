-- ===== src/Log/FixedBuffer.antt =====
-- log/FixedBuffer.hpp: an array of SIZE bytes and a pointer behind the last byte written. The array
-- is `memory`, the pointer an offset.
use tiny_network_library.Base.{
  ℕ, ◌+◌, ◌-◌, ◌≤◌, ◌<◌, ◌≡◌, refl, sym, ap, ◌∙◌, arith, true, false, Option, none, some, [], ◌∷◌,
  ◌++◌, length, take, drop, replicate, Bytes, ltb, leb, if◌then◌else◌, ◌==◌, Lacks, length-append,
  length-take, length-drop, length-replicate, take-append_self, append_assoc, lt→ltb, Bool-cases,
  inl, ltb→lt, inr,
}

pub record FixedBuffer : Type 0 where
  pub memory : Bytes
  pub cur : ℕ

-- The whole array is SIZE bytes.
abbrev pub size : FixedBuffer → ℕ
size b = length b.memory

abbrev pub avail : FixedBuffer → ℕ
avail b = size b - b.cur

-- The bytes written since the last reset, `toString()`.
unfoldable pub text : FixedBuffer → Bytes
text b = take b.cur b.memory

-- A new buffer after `bzero()`.
unfoldable pub zeroed : ℕ → FixedBuffer
zeroed n = record { memory = replicate n 0; cur = 0 }

unfoldable pub reset : FixedBuffer → FixedBuffer
reset b = record b { cur = 0 }

-- `memcpy` to the pointer and a zero byte behind: `none` where that leaves the array.
unfoldable pub write : Bytes → FixedBuffer → Option FixedBuffer
write s b =
    if ltb (b.cur + length s) (size b)
    then some (record {
      memory = take b.cur b.memory ++ (s ++ (0 ∷ drop (b.cur + length s + 1) b.memory));
      cur = b.cur + length s;
    })
    else none

-- `append` of a buffer with no callback: a full buffer is reset.
unfoldable pub append : Bytes → FixedBuffer → Option FixedBuffer
unfolding reset
append s b = if leb (avail b) (length s) then write s (reset b) else write s b

-- The text before the first zero byte, which is what `<<` of a `const char *` prints.
unfoldable pub c_string : Bytes → Bytes
c_string [] = []
c_string (c ∷ s) = let rest = c_string s in if c == 0 then [] else c ∷ rest

pub c_string-zero : (s t : Bytes) → Lacks 0 s → c_string (s ++ (0 ∷ t)) ≡ s
unfolding c_string
c_string-zero [] t h = refl
c_string-zero (c ∷ s) t (h, hs) = ground (arith, c_string-zero s t hs)

-- The pointer stays inside the array, and the text is followed by a zero byte once something was
-- written.
pub record IsValid (n : ℕ) (b : FixedBuffer) : Type 0 where
  pub sized : size b ≡ n
  pub inside : b.cur < n

pub reset-IsValid : {n : ℕ} {b : FixedBuffer} → IsValid n b → IsValid n (reset b)
unfolding reset
reset-IsValid v = ground arith

pub text-reset : (b : FixedBuffer) → text (reset b) ≡ []
unfolding text reset
text-reset b = refl

pub zeroed-IsValid : (n : ℕ) → 0 < n → IsValid n (zeroed n)
unfolding zeroed
zeroed-IsValid n h = omega (arith, length-replicate {A = ℕ} n 0)

pub text-zeroed : (n : ℕ) → text (zeroed n) ≡ []
unfolding text zeroed
text-zeroed n = refl

pub length-text : {n : ℕ} {b : FixedBuffer} → IsValid n b → length (text b) ≡ b.cur
unfolding text
length-text {n} {b} v = omega (arith, length-take b.cur b.memory)

-- What a write that stays inside leaves: the text with `s` behind it, and a zero byte behind that.
pub record Wrote (n : ℕ) (s : Bytes) (b c : FixedBuffer) : Type 0 where
  pub valid : IsValid n c
  pub longer : text c ≡ text b ++ s
  pub rest : Bytes
  pub ended : c.memory ≡ text c ++ (0 ∷ rest)

pub write_inside :
    (s : Bytes) {n : ℕ} {b : FixedBuffer}
    → IsValid n b
    → b.cur + length s < n
    → (c : FixedBuffer) × (write s b ≡ some c) × Wrote n s b c
unfolding write text
write_inside s {n} {b} v h =
    let front = take b.cur b.memory in
    let back = drop (b.cur + length s + 1) b.memory in
    let grouped : front ++ (s ++ (0 ∷ back)) ≡ (front ++ s) ++ (0 ∷ back) =
      sym (append_assoc front s (0 ∷ back)) in
    let longer : take (b.cur + length s) (front ++ (s ++ (0 ∷ back))) ≡ front ++ s = rw grouped (
      take-append_self (b.cur + length s) (front ++ s) (0 ∷ back)
        (omega (arith, length-append front s, length-take b.cur b.memory, v.sized, v.inside))) in
    (
      record { memory = front ++ (s ++ (0 ∷ back)); cur = b.cur + length s },
      rw (lt→ltb (b.cur + length s) (length b.memory) (omega (arith, v.sized))),
      record {
        valid = record {
          sized = omega (
            arith,
            length-append front (s ++ (0 ∷ back)),
            length-append s (0 ∷ back),
            length-take b.cur b.memory,
            length-drop (b.cur + length s + 1) b.memory,
            v.sized,
          );
          inside = h;
        };
        longer = longer;
        rest = back;
        ended = rw longer grouped;
      },
    )

-- To a buffer whose pointer is inside its array a string at least as long as the array cannot be
-- appended: the write leaves the array, although
-- the code looks for room first.
pub append_overflows :
    (s : Bytes) {n : ℕ} {b : FixedBuffer} → IsValid n b → n ≤ length s → append s b ≡ none
unfolding append write reset
append_overflows s v h = ground (arith, v.sized, v.inside)

pub append_room :
    (s : Bytes) {n : ℕ} {b : FixedBuffer}
    → IsValid n b
    → ltb (b.cur + length s) n ≡ true
    → append s b ≡ write s b
unfolding append
append_room s v h = ground (arith, v.sized, v.inside)

append_full :
    (s : Bytes) {n : ℕ} {b : FixedBuffer}
    → IsValid n b
    → ltb (b.cur + length s) n ≡ false
    → append s b ≡ write s (reset b)
unfolding append
append_full s v h = ground (arith, v.sized, v.inside)

cur-reset : (b : FixedBuffer) → (reset b).cur ≡ 0
unfolding reset
cur-reset b = refl

-- To such a buffer a string shorter than the array can always be appended, behind the text if there is room for it and a zero byte, and otherwise
-- in its place: the text is lost.
pub append_lem :
    (s : Bytes) {n : ℕ} {b : FixedBuffer}
    → IsValid n b
    → length s < n
    → (c : FixedBuffer) × (append s b ≡ some c)
      × IsValid n c
      × (text c ≡ (if ltb (b.cur + length s) n then text b ++ s else s))
append_lem s {n} {b} v h = elim (Bool-cases (ltb (b.cur + length s) n)) [
  | inl room ↦
      let (c, e, w) = write_inside s v (ltb→lt (b.cur + length s) n room) in
      (c, append_room s v room ∙ e, w.valid, rw room w.longer)
  | inr full ↦
      let (c, e, w) = write_inside s (reset-IsValid v) (omega (arith, cur-reset b)) in
      (c, append_full s v full ∙ e, w.valid, rw full (w.longer ∙ ap (λ t. t ++ s) (text-reset b)))
]
