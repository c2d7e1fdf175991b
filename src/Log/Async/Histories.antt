-- ===== src/Log/Async/Histories.antt =====
-- Whole histories of the asynchronous log of log/AsyncLogFile.cpp.
use tiny_network_library.Base.{
  ℕ, ◌<◌, refl, sym, ap, ◌∙◌, arith, List, [], ◌∷◌, ◌++◌, length, Bytes, append_assoc, append-nil,
  All,
}
use tiny_network_library.Log.Async.{
  AsyncLog, Event, appends, flushes, stops, works, step, run, init,
}
use tiny_network_library.Log.Async.Exchange.{
  Inv, all_bytes, Adds, zeroed-IsEmpty, append-Adds, flush-Adds, stop-Adds,
}
use tiny_network_library.Log.Async.Rounds.{thread_step-Adds}

-- What an event adds.
abbrev pub message : Event → Bytes
message (appends s) = s
message flushes = []
message stops = []
message works = []

abbrev pub messages : List Event → Bytes
messages [] = []
messages (e ∷ es) = message e ++ messages es

step-Adds :
    (e : Event) {n : ℕ} {a : AsyncLog}
    → Inv n a
    → length (message e) < n
    → Adds n (message e) a (step n e a)
unfolding step
step-Adds (appends s) v h = append-Adds s v h
step-Adds flushes v h = flush-Adds v
step-Adds stops v h = stop-Adds v
step-Adds works {n} {a} v h = thread_step-Adds a.phase v refl

-- From a log in its invariant, in every interleaving of appends, flushes, a stop and steps of the thread, with messages shorter
-- than a buffer: no null pointer is used, `back()` finds a buffer, nothing is written outside a
-- buffer, and all bytes, in order, are those from before and then the messages.
pub run-Adds :
    (es : List Event) {n : ℕ} {a : AsyncLog}
    → Inv n a
    → All (λ e. length (message e) < n) es
    → Adds n (messages es) a (run n es a)
unfolding run
run-Adds [] {n} {a} v h = (a, refl, v, sym (append-nil (all_bytes a)))
run-Adds (e ∷ es) {n} {a} v (h, hs) =
    let (b, ok, vb, more) = step-Adds e v h in
    let (c, oks, vc, all) = run-Adds es vb hs in
    (
      c,
      rw (ok, run) oks,
      vc,
      all ∙ ap (λ t. t ++ messages es) more ∙ append_assoc (all_bytes a) (message e) (messages es),
    )

-- A new log is in order.
pub init-Inv : (n : ℕ) → 0 < n → Inv n (init n)
unfolding init
init-Inv n h =
    let z = zeroed-IsEmpty n h in
    record {
      current = z.valid;
      next = z;
      filled = omega arith;
      buffers = tt;
      used = tt;
      thread = (z, z, refl);
    }
