-- ===== src/Loop/Pending.antt =====
-- `doPendingFunctors` of net/EventLoop.cpp: what is called, and what is left for the next turn.
use tiny_network_library.Base.{
  ℕ, ◌+◌, ◌≡◌, refl, ◌∙◌, arith, true, false, List, [], ◌∷◌, ◌++◌, length, length-append,
  append_assoc, append-nil,
}
use tiny_network_library.Loop.{
  EventLoop, push, wakeup, queue_in_loop, queue_all, call_functors, do_pending_functors,
  begin_pending, end_pending,
}

-- The functors that a list of functors queues, in order.
abbrev pub queued_by : (ℕ → List ℕ) → List ℕ → List ℕ
queued_by body [] = []
queued_by body (f ∷ fs) = body f ++ queued_by body fs

-- The loop with `fs` queued behind its functors, and a wake-up for each.
abbrev pub with_queued : List ℕ → EventLoop → EventLoop
with_queued fs l = record l { pending = l.pending ++ fs; wakeups = l.wakeups + length fs }

queue_all_lem : (fs : List ℕ) (l : EventLoop) → l.calling ≡ true → queue_all fs l ≡ with_queued fs l
unfolding queue_all queue_in_loop push wakeup
queue_all_lem [] l h = ground (arith, append-nil l.pending)
queue_all_lem (f ∷ fs) l h =
    let l1 : EventLoop = record l {
      calling = true;
      pending = l.pending ++ (f ∷ []);
      wakeups = l.wakeups + 1;
    } in
    rw (h, queue_all)
      (queue_all_lem fs l1 refl ∙ ground (arith, append_assoc l.pending (f ∷ []) fs, h))

call_functors_lem :
    (body : ℕ → List ℕ) (fs : List ℕ) (l : EventLoop)
    → l.calling ≡ true
    → call_functors body fs l ≡ (with_queued (queued_by body fs) l, fs)
unfolding call_functors
call_functors_lem body [] l h = ground (arith, append-nil l.pending)
call_functors_lem body (f ∷ fs) l h =
    rw (queue_all_lem (body f) l h, call_functors_lem body fs (with_queued (body f) l) h)
      (rw (append_assoc, length-append) (ground arith))

-- `doPendingFunctors` calls exactly the functors that were pending, in order. Those that they queue
-- are left pending for the next turn, in order, with a wake-up for each, so that the next `poll`
-- returns at once.
pub do_pending_functors_lem :
    (body : ℕ → List ℕ) (l : EventLoop)
    → do_pending_functors body l ≡ (
      record l {
        calling = false;
        pending = queued_by body l.pending;
        wakeups = l.wakeups + length (queued_by body l.pending);
      },
      l.pending,
    )
unfolding do_pending_functors begin_pending end_pending
do_pending_functors_lem body l = rw (call_functors_lem body l.pending (begin_pending l) refl)
