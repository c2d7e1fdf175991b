-- ===== src/Log/File.antt =====
-- log/LogStream.hpp and log/LogStream.cpp: a buffered log file. Its buffer's callback is `flush`,
-- which prints the buffer as a C string and resets it.
pub mod Life
use tiny_network_library.Base.{
  ℕ, ◌<◌, ◌≡◌, ◌⊎◌, refl, sym, ap, ◌∙◌, arith, true, Option, none, some, List, [], ◌∷◌, ◌++◌,
  length, Bytes, append_assoc, append-nil, leb, if◌then◌else◌, Lacks, All, All-append, Bool-cases,
  inl, inr,
}
use tiny_network_library.Log.FixedBuffer.{
  FixedBuffer, avail, text, reset, write, c_string, c_string-zero, IsValid, Wrote, write_inside,
  reset-IsValid, text-reset,
}

-- `file` is what has been printed to the stream.
pub record LogFile : Type 0 where
  pub buffer : FixedBuffer
  pub file : Bytes

unfoldable pub flush : LogFile → LogFile
flush f = record { buffer = reset f.buffer; file = f.file ++ c_string f.buffer.memory }

abbrev pub with_buffer : LogFile → Option FixedBuffer → Option LogFile
with_buffer f none = none
with_buffer f (some b) = some (record f { buffer = b })

-- `append` of a buffer whose callback is set: `none` is a write outside the array.
unfoldable pub append : Bytes → LogFile → Option LogFile
append s f =
    if leb (avail f.buffer) (length s)
    then with_buffer (flush f) (write s (flush f).buffer)
    else with_buffer f (write s f.buffer)

unfoldable pub append_all : List Bytes → LogFile → Option LogFile
append_all [] f = some f
append_all (s ∷ ss) f = elim (append s f) [ none ↦ none | some g ↦ append_all ss g ]

-- The buffer is sound, and what it holds is a C string unless it holds nothing.
pub record Inv (n : ℕ) (f : LogFile) : Type 0 where
  pub valid : IsValid n f.buffer
  pub ended : (f.buffer.cur ≡ 0) ⊎ (c_string f.buffer.memory ≡ text f.buffer)
  pub no_zero : Lacks 0 (text f.buffer)

-- What was printed and what waits.
abbrev pub logged : LogFile → Bytes
logged f = f.file ++ text f.buffer

-- After a message the buffer is a C string.
pub record Logs (n : ℕ) (s : Bytes) (f g : LogFile) : Type 0 where
  pub inv : Inv n g
  pub kept : logged g ≡ logged f ++ s
  pub printable : c_string g.buffer.memory ≡ text g.buffer

module _ (s : Bytes) {n : ℕ} {f : LogFile} (v : Inv n f) (plain : Lacks 0 s) where
  Wrote-Logs : {b : FixedBuffer} → Wrote n s f.buffer b → Logs n s f (record f { buffer = b })
  Wrote-Logs {b} w =
      let clean : Lacks 0 (text b) = rw w.longer (All-append _ (text f.buffer) s v.no_zero plain) in
      let print = ap c_string w.ended ∙ c_string-zero (text b) w.rest clean in
      record {
        inv = record { valid = w.valid; ended = inr print; no_zero = clean };
        kept = rw w.longer (sym (append_assoc f.file (text f.buffer) s));
        printable = print;
      }

-- Flushing a buffer that holds something prints exactly that.
pub flush_lem :
    {n : ℕ} {f : LogFile}
    → Inv n f
    → c_string f.buffer.memory ≡ text f.buffer
    → Inv n (flush f) × (logged (flush f) ≡ logged f) × ((flush f).file ≡ logged f)
unfolding flush
flush_lem {n} {f} v print = (
  record {
    valid = reset-IsValid v.valid;
    ended = inl (unfold reset in refl);
    no_zero = rw text-reset tt;
  },
  rw (text-reset, append-nil, print),
  rw print,
)

cur-flush : (f : LogFile) → (flush f).buffer.cur ≡ 0
unfolding flush reset
cur-flush f = refl

-- A buffer that is too full for a message holds something.
held :
    (s : Bytes) {n : ℕ} {f : LogFile}
    → Inv n f
    → length s < n
    → leb (avail f.buffer) (length s) ≡ true
    → (f.buffer.cur ≡ 0) ⊎ (c_string f.buffer.memory ≡ text f.buffer)
    → c_string f.buffer.memory ≡ text f.buffer
held s v short full (inl e) = absurd (ground (arith, v.valid.sized))
held s v short full (inr e) = e

append_flushed :
    (s : Bytes) {n : ℕ} {f : LogFile}
    → Inv n f
    → Lacks 0 s
    → length s < n
    → c_string f.buffer.memory ≡ text f.buffer
    → (g : LogFile) × (with_buffer (flush f) (write s (flush f).buffer) ≡ some g) × Logs n s f g
append_flushed s {n} {f} v plain short print =
    let (v', same, _) = flush_lem v print in
    let (b, e, w) = write_inside s v'.valid (omega (arith, cur-flush f)) in
    let l = Wrote-Logs s v' plain w in
    (
      record (flush f) { buffer = b },
      rw e,
      record { inv = l.inv; kept = l.kept ∙ ap (λ t. t ++ s) same; printable = l.printable },
    )

-- A message with no zero byte that is shorter than the buffer is logged behind what was logged
-- before, whether or not the buffer had to be flushed for it.
pub append-Logs :
    (s : Bytes) {n : ℕ} {f : LogFile}
    → Inv n f
    → Lacks 0 s
    → length s < n
    → (g : LogFile) × (append s f ≡ some g) × Logs n s f g
unfolding append
append-Logs s {n} {f} v plain short = elim (Bool-cases (leb (avail f.buffer) (length s))) [
  | inr room ↦
      let (b, e, w) = write_inside s v.valid (ground (arith, v.valid)) in
      (record f { buffer = b }, rw (room, e), Wrote-Logs s v plain w)
  | inl full ↦ rw full (append_flushed s v plain short (held s v short full v.ended))
]

abbrev pub AllPlain : List Bytes → Type 0
AllPlain = All (λ s. Lacks 0 s)

abbrev pub concat : List Bytes → Bytes
concat [] = []
concat (s ∷ ss) = s ++ concat ss

append_all-Logs :
    (ss : List Bytes) (s : Bytes) {n : ℕ} {f : LogFile}
    → Inv n f
    → AllPlain (s ∷ ss)
    → All (λ m. length m < n) (s ∷ ss)
    → (g : LogFile) × (append_all (s ∷ ss) f ≡ some g) × Logs n (concat (s ∷ ss)) f g
unfolding append_all
append_all-Logs [] s v (plain, _) (short, _) =
    let (g, e, l) = append-Logs s v plain short in (g, rw (e, append_all), rw append-nil l)
append_all-Logs (s2 ∷ ss) s {n} {f} v (plain, plains) (short, shorts) =
    let (g, e, l) = append-Logs s v plain short in
    let (h, es, ls) = append_all-Logs ss s2 l.inv plains shorts in
    (
      h,
      rw (e, append_all) es,
      record {
        inv = ls.inv;
        kept =
            ls.kept
            ∙ ap (λ t. t ++ concat (s2 ∷ ss)) l.kept
            ∙ append_assoc (logged f) s (concat (s2 ∷ ss));
        printable = ls.printable;
      },
    )

-- On a file in its invariant, messages with no zero byte, each shorter than the buffer and at least one of them, and then a
-- flush: no write leaves the array, and the file holds what was logged before and then the messages
-- in order, each once.
pub append_all-flush :
    (s : Bytes) (ss : List Bytes) {n : ℕ} {f : LogFile}
    → Inv n f
    → AllPlain (s ∷ ss)
    → All (λ m. length m < n) (s ∷ ss)
    → (g : LogFile) × (append_all (s ∷ ss) f ≡ some g)
      × ((flush g).file ≡ logged f ++ concat (s ∷ ss))
append_all-flush s ss v plain short =
    let (g, e, l) = append_all-Logs ss s v plain short in
    (g, e, (flush_lem l.inv l.printable).2 ∙ l.kept)

-- Where the buffer holds a C string, a second flush with nothing appended in between prints the last text once more: `reset` moves the
-- pointer back and leaves the old bytes, and `flush` prints the array up to its first zero byte.
pub flush_twice :
    {n : ℕ} {f : LogFile}
    → Inv n f
    → c_string f.buffer.memory ≡ text f.buffer
    → (flush (flush f)).file ≡ logged f ++ text f.buffer
unfolding flush reset
flush_twice v print = rw print
