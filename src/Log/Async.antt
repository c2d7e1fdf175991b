-- ===== src/Log/Async.antt =====
-- The buffer exchange of log/AsyncLogFile.cpp: callers fill buffers under a lock, a thread swaps them
-- out and writes them. `none` is a null pointer that is used, `back()` of an empty vector, or a write
-- outside a buffer.
pub mod Exchange
pub mod Rounds
pub mod Histories
use tiny_network_library.Base.{
  ℕ, ◌<◌, ◌≡◌, Bool, true, false, Option, none, some, List, [], ◌∷◌, ◌++◌, length, take, Bytes, ltb,
  if◌then◌else◌,
}
use tiny_network_library.Log.FixedBuffer.{FixedBuffer, avail, text, zeroed, reset}
use tiny_network_library.Log.FixedBuffer

-- Where the thread stands: at the test of its loop, before its critical section, between the swap
-- and the end of a round, or behind the loop.
pub data Phase : Type 0 where
  testing idle busy ended : Phase

-- The members, and the local variables of the thread: `first` and `second` are newBuffer1 and
-- newBuffer2. `written` is what `write` was given.
pub record AsyncLog : Type 0 where
  pub running : Bool
  pub current : Option FixedBuffer
  pub next : Option FixedBuffer
  pub buffers : List FixedBuffer
  pub phase : Phase
  pub first : Option FixedBuffer
  pub second : Option FixedBuffer
  pub to_write : List FixedBuffer
  pub written : Bytes

-- The constructor, `start()`, and the buffers that the thread makes; `n` is the size of a buffer.
unfoldable pub init : ℕ → AsyncLog
init n = record {
  running = true;
  current = some (zeroed n);
  next = some (zeroed n);
  buffers = [];
  phase = testing;
  first = some (zeroed n);
  second = some (zeroed n);
  to_write = [];
  written = [];
}

abbrev pub with_current : AsyncLog → Option FixedBuffer → Option AsyncLog
with_current a none = none
with_current a (some b) = some (record a { current = some b })

-- The next buffer, or a new one; what a new one holds is not read.
abbrev pub buffer_or_new : ℕ → Option FixedBuffer → FixedBuffer
buffer_or_new n none = zeroed n
buffer_or_new n (some b) = b

unfoldable pub append_to : ℕ → Bytes → FixedBuffer → AsyncLog → Option AsyncLog
append_to n s b a =
    if ltb (length s) (avail b)
    then with_current a (FixedBuffer.append s b)
    else with_current (record a { buffers = a.buffers ++ (b ∷ []); next = none })
        (FixedBuffer.append s (buffer_or_new n a.next))

unfoldable pub append : ℕ → Bytes → AsyncLog → Option AsyncLog
unfolding append_to
append n s a = elim a.current [ none ↦ none | some b ↦ append_to n s b a ]

unfoldable pub flush : ℕ → AsyncLog → Option AsyncLog
flush n a = elim a.current [
  | none ↦ none
  | some b ↦
      if ltb 0 b.cur
      then some (record a { buffers = a.buffers ++ (b ∷ []); current = some (zeroed n) })
      else some a
]

-- `stop()`, up to the `join`.
unfoldable pub stop : ℕ → AsyncLog → Option AsyncLog
unfolding flush
stop n a = flush n (record a { running = false })

-- The destructor.
unfoldable pub destroy : ℕ → AsyncLog → Option AsyncLog
unfolding stop
destroy n a = if a.running then stop n a else some a

abbrev pub if_null : Option FixedBuffer → Option FixedBuffer → Option FixedBuffer
if_null none spare = spare
if_null (some b) spare = some b

-- What a pointer holds once it was moved from if `_nextBuffer` was null.
abbrev pub unless_null : Option FixedBuffer → Option FixedBuffer → Option FixedBuffer
unless_null none spare = none
unless_null (some b) spare = spare

-- The block under the lock, after the wait.
unfoldable pub collect : AsyncLog → Option AsyncLog
collect a = elim a.current [
  | none ↦ none
  | some b ↦ some (record a {
    phase = busy;
    current = a.first;
    first = none;
    next = if_null a.next a.second;
    second = unless_null a.next a.second;
    buffers = a.to_write;
    to_write = a.buffers ++ (b ∷ []);
  })
]

abbrev pub texts : List FixedBuffer → Bytes
texts [] = []
texts (b ∷ bs) = text b ++ texts bs

-- `back()` and `pop_back()`.
abbrev pub last : FixedBuffer → List FixedBuffer → FixedBuffer × List FixedBuffer
last b [] = (b, [])
last b (c ∷ bs) = let (x, rest) = last c bs in (x, b ∷ rest)

-- One null pointer of the thread is filled with a used buffer.
unfoldable pub reuse :
    Option FixedBuffer → List FixedBuffer → Option (FixedBuffer × List FixedBuffer)
reuse (some b) bs = some (b, bs)
reuse none [] = none
reuse none (b ∷ bs) = let (x, rest) = last b bs in some (reset x, rest)

-- The rest of a round: the buffers are written, two at most are kept, and the others dropped.
unfoldable pub finish : AsyncLog → Option AsyncLog
finish a = elim (reuse a.first (take 2 a.to_write)) [
  | none ↦ none
  | some (b1, bs) ↦ elim (reuse a.second bs) [
    | none ↦ none
    | some (b2, rest) ↦ some (record a {
      phase = testing;
      first = some b1;
      second = some b2;
      to_write = [];
      written = a.written ++ texts a.to_write;
    })
  ]
]

-- What the thread does next.
unfoldable pub thread_step : Phase → AsyncLog → Option AsyncLog
unfolding collect finish
thread_step testing a = some (record a { phase = if a.running then idle else ended })
thread_step idle a = collect a
thread_step busy a = finish a
thread_step ended a = some a

pub data Event : Type 0 where
  appends : Bytes → Event
  flushes stops works : Event

unfoldable pub step : ℕ → Event → AsyncLog → Option AsyncLog
step n (appends s) a = append n s a
step n flushes a = flush n a
step n stops a = stop n a
step n works a = thread_step a.phase a

unfoldable pub run : ℕ → List Event → AsyncLog → Option AsyncLog
run n [] a = some a
run n (e ∷ es) a = elim (step n e a) [ none ↦ none | some b ↦ run n es b ]
