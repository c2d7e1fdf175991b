-- ===== src/Log/Async/Rounds.antt =====
-- The thread of log/AsyncLogFile.cpp: its two critical sections keep the bytes and the spare buffers.
use tiny_network_library.Base.{
  if◌then◌else◌, ℕ, ◌+◌, ◌<◌, ◌≤◌, ◌≡◌, inl, inr, refl, sym, ◌∙◌, arith, Bool, true, false, Option,
  none, some, List, [], ◌∷◌, ◌++◌, length, take, Bytes, append_assoc, append-nil, All-append,
  length-append, Option-cases,
}
use tiny_network_library.Log.FixedBuffer.{FixedBuffer, text, IsValid}
use tiny_network_library.Log.Async.{
  testing, AsyncLog, Phase, idle, busy, ended, collect, finish, reuse, texts, thread_step, if_null,
  unless_null,
}
use tiny_network_library.Log.Async.Exchange.{
  ThreadInv, IsEmpty, IsSpare, Present, IsCurrent, present, AllValid, Inv, current_text, all_bytes,
  Adds, texts-snoc, reset-IsEmpty,
}

-- The spare buffers go round.
spare-IsCurrent :
    (n : ℕ) (o : Option FixedBuffer) → Present n o → IsCurrent n o × (current_text o ≡ [])
spare-IsCurrent n none p = absurd p
spare-IsCurrent n (some b) p = (p.valid, p.blank)

if_null-IsSpare :
    (n : ℕ) (o spare : Option FixedBuffer)
    → IsSpare n o
    → Present n spare
    → IsSpare n (if_null o spare)
      × IsSpare n (unless_null o spare)
      × (present (if_null o spare) ≡ 1)
      × (present (unless_null o spare) ≡ present o)
if_null-IsSpare n o none s p = absurd p
if_null-IsSpare n none (some b) s p = (p, tt, refl, refl)
if_null-IsSpare n (some c) (some b) s p = (s, p, refl, refl)

pub collect-some :
    (a : AsyncLog) {b : FixedBuffer}
    → a.current ≡ some b
    → collect a
      ≡ some (record a {
        phase = busy;
        current = a.first;
        first = none;
        next = if_null a.next a.second;
        second = unless_null a.next a.second;
        buffers = a.to_write;
        to_write = a.buffers ++ (b ∷ []);
      })
unfolding collect
collect-some a e = rw (e, collect)

-- The bytes move from the callers' side to the thread's.
swapped :
    (w : Bytes) (bufs old : List FixedBuffer) (current first : Option FixedBuffer) (b : FixedBuffer)
    → old ≡ []
    → current ≡ some b
    → current_text first ≡ []
    → w ++ (texts (bufs ++ (b ∷ [])) ++ (texts old ++ current_text first))
      ≡ (w ++ (texts old ++ (texts bufs ++ current_text current))) ++ []
swapped w bufs old current first b e f g =
    rw
      (
        e,
        f,
        g,
        texts-snoc bufs b,
        append-nil (texts bufs ++ text b),
        append-nil (w ++ (texts bufs ++ text b)),
      )
      refl

collect-Adds : {n : ℕ} {a : AsyncLog} → Inv n a → a.phase ≡ idle → Adds n [] a (collect a)
collect-Adds {n} {a} v p = elim (Option-cases a.current) [
  | inl e ↦ absurd (rw e at v.current)
  | inr (b, e) ↦
      let t : Present n a.first × Present n a.second × (a.to_write ≡ []) = rw p at v.thread in
      let (held, blank) = spare-IsCurrent n a.first t.0 in
      let (spare, second, one, left) = if_null-IsSpare n a.next a.second v.next t.1 in
      let vb : IsValid n b = rw e at v.current in
      let more = length-append a.buffers (b ∷ []) in
      rw (collect-some a e) (
        _,
        refl,
        record {
          current = held;
          next = spare;
          filled = omega (arith, one);
          buffers = v.used;
          used = All-append _ a.buffers (b ∷ []) v.buffers (vb, tt);
          thread = (refl, second, omega (arith, left, more, v.filled), omega (arith, more));
        },
        swapped a.written a.buffers a.to_write a.current a.first b t.2 e blank,
      )
]

-- There are enough used buffers for the null pointers.
pub reused :
    (n : ℕ) (second : Option FixedBuffer) (bs : List FixedBuffer)
    → IsSpare n second
    → AllValid n bs
    → 2 ≤ present second + length bs
    → 0 < length bs
    → (b1 : FixedBuffer) × (rest : List FixedBuffer) × (b2 : FixedBuffer) × (left : List
        FixedBuffer)
      × (reuse none (take 2 bs) ≡ some (b1, rest))
      × (reuse second rest ≡ some (b2, left))
      × IsEmpty n b1
      × IsEmpty n b2
unfolding reuse
reused n second [] s v h k = absurd (omega arith)
reused n none (b ∷ []) s v h k = absurd (omega arith)
reused n (some c) (b ∷ []) s v h k = (_, _, _, _, refl, refl, reset-IsEmpty v.0, s)
reused n none (b ∷ c ∷ bs) s v h k =
    (_, _, _, _, refl, refl, reset-IsEmpty v.1.0, reset-IsEmpty v.0)
reused n (some d) (b ∷ c ∷ bs) s v h k = (_, _, _, _, refl, refl, reset-IsEmpty v.1.0, s)

pub finish-some :
    (a : AsyncLog) {b1 b2 : FixedBuffer} {rest left : List FixedBuffer}
    → a.first ≡ none
    → reuse none (take 2 a.to_write) ≡ some (b1, rest)
    → reuse a.second rest ≡ some (b2, left)
    → finish a
      ≡ some (record a {
        phase = testing;
        first = some b1;
        second = some b2;
        to_write = [];
        written = a.written ++ texts a.to_write;
      })
unfolding finish
finish-some a e f g = rw (e, f, g, finish)

finish-Adds : {n : ℕ} {a : AsyncLog} → Inv n a → a.phase ≡ busy → Adds n [] a (finish a)
finish-Adds {n} {a} v p =
    let t : (a.first ≡ none)
        × IsSpare n a.second
        × (2 ≤ present a.second + length a.to_write)
        × (0 < length a.to_write) =
      rw p at v.thread in
    let (b1, rest, b2, left, ok1, ok2, e1, e2) = reused n a.second a.to_write t.1 v.used t.2 t.3 in
    rw (finish-some a t.0 ok1 ok2) (
      _,
      refl,
      record {
        current = v.current;
        next = v.next;
        filled = v.filled;
        buffers = v.buffers;
        used = tt;
        thread = (e1, e2, refl);
      },
      append_assoc a.written (texts a.to_write) (texts a.buffers ++ current_text a.current)
          ∙ sym (append-nil (all_bytes a)),
    )

-- The test of the loop only moves the thread.
test-Adds :
    (go : Bool) {n : ℕ} {a : AsyncLog}
    → Inv n a
    → a.phase ≡ testing
    → Adds n [] a (some (record a { phase = if go then idle else ended }))
test-Adds go {n} {a} v e =
    let t : Present n a.first × Present n a.second × (a.to_write ≡ []) = rw e at v.thread in
    (
      _,
      refl,
      record {
        current = v.current;
        next = v.next;
        filled = v.filled;
        buffers = v.buffers;
        used = v.used;
        thread = moved go a.first a.second a.to_write t;
      },
      sym (append-nil (all_bytes a)),
    )
  where
    moved :
        (go : Bool) (first second : Option FixedBuffer) (used : List FixedBuffer)
        → Present n first × Present n second × (used ≡ [])
        → ThreadInv n (if go then idle else ended) first second used
    moved true first second used t = t
    moved false first second used t = t.2

pub thread_step-Adds :
    (p : Phase) {n : ℕ} {a : AsyncLog} → Inv n a → a.phase ≡ p → Adds n [] a (thread_step p a)
unfolding thread_step
thread_step-Adds testing {n} {a} v e = test-Adds a.running v e
thread_step-Adds idle v e = collect-Adds v e
thread_step-Adds busy v e = finish-Adds v e
thread_step-Adds ended {n} {a} v e = (a, refl, v, sym (append-nil (all_bytes a)))
