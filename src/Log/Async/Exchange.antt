-- ===== src/Log/Async/Exchange.antt =====
-- The buffers of log/AsyncLogFile.cpp: no null pointer is used, and no byte is lost, repeated or
-- reordered between the callers and the writing thread.
use tiny_network_library.Base.{
  ℕ, ◌+◌, ◌<◌, ◌≤◌, ◌≡◌, inl, inr, refl, sym, ◌∙◌, arith, Bool, true, false, Option, none, some,
  List, [], ◌∷◌, ◌++◌, length, Bytes, append_assoc, append-nil, All, All-append, ltb, Bool-cases,
  length-append, if◌then◌else◌, Option-cases,
}
use tiny_network_library.Log.FixedBuffer.{
  FixedBuffer, text, IsValid, reset-IsValid, zeroed-IsValid, text-zeroed, text-reset, append_lem,
}
use tiny_network_library.Log.FixedBuffer
use tiny_network_library.Log.Async.{
  AsyncLog, Phase, testing, idle, busy, ended, append, append_to, flush, stop, texts, buffer_or_new,
  reset, zeroed, avail,
}

-- A buffer ready to be filled.
pub record IsEmpty (n : ℕ) (b : FixedBuffer) : Type 0 where
  pub valid : IsValid n b
  pub blank : text b ≡ []

abbrev pub IsSpare : ℕ → Option FixedBuffer → Type 0
IsSpare n none = Unit
IsSpare n (some b) = IsEmpty n b

abbrev pub Present : ℕ → Option FixedBuffer → Type 0
Present n none = ⊥
Present n (some b) = IsEmpty n b

abbrev pub IsCurrent : ℕ → Option FixedBuffer → Type 0
IsCurrent n none = ⊥
IsCurrent n (some b) = IsValid n b

abbrev pub present : Option FixedBuffer → ℕ
present none = 0
present (some b) = 1

-- What the thread holds: two spare buffers at rest, and enough used ones to make up for those that
-- it gave away.
abbrev pub ThreadInv :
    ℕ → Phase → Option FixedBuffer → Option FixedBuffer → List FixedBuffer → Type 0
ThreadInv n testing first second used = Present n first × Present n second × (used ≡ [])
ThreadInv n idle first second used = Present n first × Present n second × (used ≡ [])
ThreadInv n busy first second used =
    (first ≡ none) × IsSpare n second × (2 ≤ present second + length used) × (0 < length used)
ThreadInv n ended first second used = used ≡ []

abbrev pub AllValid : ℕ → List FixedBuffer → Type 0
AllValid n bs = All (IsValid n) bs

pub record Inv (n : ℕ) (a : AsyncLog) : Type 0 where
  pub current : IsCurrent n a.current
  pub next : IsSpare n a.next
  pub filled : 0 < present a.next + length a.buffers
  pub buffers : AllValid n a.buffers
  pub used : AllValid n a.to_write
  pub thread : ThreadInv n a.phase a.first a.second a.to_write

abbrev pub current_text : Option FixedBuffer → Bytes
current_text none = []
current_text (some b) = text b

-- All bytes, in order: written, on their way to the file, waiting, and in the current buffer.
abbrev pub all_bytes : AsyncLog → Bytes
all_bytes a = a.written ++ (texts a.to_write ++ (texts a.buffers ++ current_text a.current))

-- The step succeeds, keeps the invariant and adds `s`.
abbrev pub Adds : ℕ → Bytes → AsyncLog → Option AsyncLog → Type 0
Adds n s a o = (b : AsyncLog) × (o ≡ some b) × Inv n b × (all_bytes b ≡ all_bytes a ++ s)

texts-append : (bs cs : List FixedBuffer) → texts (bs ++ cs) ≡ texts bs ++ texts cs
texts-append [] cs = refl
texts-append (b ∷ bs) cs = rw (texts-append bs cs, append_assoc (text b) (texts bs) (texts cs)) refl

pub texts-snoc :
    (bs : List FixedBuffer) (b : FixedBuffer) → texts (bs ++ (b ∷ [])) ≡ texts bs ++ text b
texts-snoc bs b = rw (texts-append bs (b ∷ []), append-nil (text b)) refl

-- Bytes put behind all others.
at_end : (w x y z s : Bytes) → w ++ (x ++ (y ++ (z ++ s))) ≡ (w ++ (x ++ (y ++ z))) ++ s
at_end w x y z s =
    rw (append_assoc w (x ++ (y ++ z)) s, append_assoc x (y ++ z) s, append_assoc y z s) refl

pub zeroed-IsEmpty : (n : ℕ) → 0 < n → IsEmpty n (zeroed n)
zeroed-IsEmpty n h = record { valid = zeroed-IsValid n h; blank = text-zeroed n }

pub reset-IsEmpty : {n : ℕ} {b : FixedBuffer} → IsValid n b → IsEmpty n (reset b)
reset-IsEmpty {n} {b} v = record { valid = reset-IsValid v; blank = text-reset b }

buffer_or_new-IsEmpty :
    (n : ℕ) (o : Option FixedBuffer) → 0 < n → IsSpare n o → IsEmpty n (buffer_or_new n o)
buffer_or_new-IsEmpty n none h s = zeroed-IsEmpty n h
buffer_or_new-IsEmpty n (some b) h s = s

-- A short string behind the text of a buffer, if there is room for it.
append_inside :
    (s : Bytes) {n : ℕ} {b : FixedBuffer}
    → IsValid n b
    → ltb (length s) (avail b) ≡ true
    → (c : FixedBuffer) × (FixedBuffer.append s b ≡ some c) × IsValid n c × (text c ≡ text b ++ s)
append_inside s {n} {b} v h =
    let (c, ok, valid, long) = append_lem s v (ground (arith, v.sized)) in
    let room : ltb (b.cur + length s) n ≡ true = ground (arith, v.sized, v.inside) in
    (c, ok, valid, rw room at long)

append_blank :
    (s : Bytes) {n : ℕ} {b : FixedBuffer}
    → IsEmpty n b
    → length s < n
    → (c : FixedBuffer) × (FixedBuffer.append s b ≡ some c) × IsValid n c × (text c ≡ s)
append_blank s {n} {b} v h =
    let (c, ok, valid, long) = append_lem s v.valid h in
    (c, ok, valid, long ∙ either (ltb (b.cur + length s) n))
  where
    either : (t : Bool) → (if t then text b ++ s else s) ≡ s
    either true = rw v.blank refl
    either false = refl

module _ {n : ℕ} {a : AsyncLog} (v : Inv n a) {b : FixedBuffer} (e : a.current ≡ some b) where
  here : IsValid n b
  here = rw e at v.current

  -- The current buffer is handed over, and another one takes its place.
  handed :
      (c : FixedBuffer) (next : Option FixedBuffer) (s : Bytes)
      → IsValid n c
      → IsSpare n next
      → text c ≡ s
      → Inv n (record a { buffers = a.buffers ++ (b ∷ []); next = next; current = some c })
        × (all_bytes (record a { buffers = a.buffers ++ (b ∷ []); next = next; current = some c })
            ≡ all_bytes a ++ s)
  handed c next s valid spare long = (
    record {
      current = valid;
      next = spare;
      filled = omega (arith, length-append a.buffers (b ∷ []));
      buffers = All-append _ a.buffers (b ∷ []) v.buffers (here, tt);
      used = v.used;
      thread = v.thread;
    },
    rw (e, long, texts-snoc a.buffers b, append_assoc (texts a.buffers) (text b) s)
        (at_end a.written (texts a.to_write) (texts a.buffers) (text b) s),
  )

  append_to-Adds : (s : Bytes) → length s < n → Adds n s a (append_to n s b a)
  unfolding append_to
  append_to-Adds s short = elim (Bool-cases (ltb (length s) (avail b))) [
    | inl room ↦
        let (c, ok, valid, long) = append_inside s here room in
        rw (room, ok)
          (
            record a { current = some c },
            refl,
            record {
              current = valid;
              next = v.next;
              filled = v.filled;
              buffers = v.buffers;
              used = v.used;
              thread = v.thread;
            },
            rw (e, long) (at_end a.written (texts a.to_write) (texts a.buffers) (text b) s),
          )
    | inr full ↦
        let blank = buffer_or_new-IsEmpty n a.next (omega (arith, here.inside)) v.next in
        let (c, ok, valid, long) = append_blank s blank short in
        let (inv, same) = handed c none s valid tt long in rw (full, ok) (_, refl, inv, same)
  ]

append-some :
    (n : ℕ) (s : Bytes) (a : AsyncLog) {b : FixedBuffer}
    → a.current ≡ some b
    → append n s a ≡ append_to n s b a
unfolding append
append-some n s a e = rw (e, append)

pub append-Adds :
    (s : Bytes) {n : ℕ} {a : AsyncLog} → Inv n a → length s < n → Adds n s a (append n s a)
append-Adds s {n} {a} v short = elim (Option-cases a.current) [
  | inl e ↦ absurd (rw e at v.current)
  | inr (b, e) ↦ rw (append-some n s a e) (append_to-Adds v e s short)
]

flush-some :
    (n : ℕ) (a : AsyncLog) {b : FixedBuffer}
    → a.current ≡ some b
    → flush n a ≡ (
        if ltb 0 b.cur
        then some (record a { buffers = a.buffers ++ (b ∷ []); current = some (zeroed n) })
        else some a)
unfolding flush
flush-some n a e = ground (arith, e)

unchanged : {n : ℕ} {a : AsyncLog} → Inv n a → Adds n [] a (some a)
unchanged {n} {a} v = (a, refl, v, sym (append-nil (all_bytes a)))

pub flush-Adds : {n : ℕ} {a : AsyncLog} → Inv n a → Adds n [] a (flush n a)
flush-Adds {n} {a} v = elim (Option-cases a.current) [
  | inl e ↦ absurd (rw e at v.current)
  | inr (b, e) ↦ rw (flush-some n a e) (elim (Bool-cases (ltb 0 b.cur)) [
    | inl some' ↦
        let (inv, same) =
          handed v e (zeroed n) a.next [] (zeroed-IsValid n (omega (arith, (here v e).inside)))
            v.next (text-zeroed n) in
        rw some' (_, refl, inv, same)
    | inr none' ↦ rw none' (unchanged v)
  ])
]

pub stop-Adds : {n : ℕ} {a : AsyncLog} → Inv n a → Adds n [] a (stop n a)
unfolding stop
stop-Adds {n} {a} v = flush-Adds (record {
  current = v.current;
  next = v.next;
  filled = v.filled;
  buffers = v.buffers;
  used = v.used;
  thread = v.thread;
})
