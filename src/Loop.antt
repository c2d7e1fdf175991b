-- ===== src/Loop.antt =====
-- net/EventLoop.hpp and net/EventLoop.cpp: the functors that are handed to a loop, the descriptor that
-- wakes it up, and the loop itself as steps of its thread and of the other threads.
pub mod Pending
pub mod Fifo
mod Examples
use tiny_network_library.Base.{
  ℕ, suc, ◌+◌, ◌≡◌, ◌||◌, Bool, true, false, not, List, [], ◌∷◌, ◌++◌, if◌then◌else◌,
}

-- A functor is a number. `wakeups` is the counter behind the wake-up descriptor.
pub record EventLoop : Type 0 where
  pub quitting : Bool
  pub calling : Bool
  pub pending : List ℕ
  pub wakeups : ℕ

unfoldable pub new : EventLoop
new = record { quitting = false; calling = false; pending = []; wakeups = 0 }

unfoldable pub wakeup : EventLoop → EventLoop
wakeup l = record l { wakeups = l.wakeups + 1 }

-- A read of the descriptor takes the whole counter.
unfoldable pub handle_read : EventLoop → EventLoop
handle_read l = record l { wakeups = 0 }

-- `quit`, from the thread of the loop or from another.
unfoldable pub quit : Bool → EventLoop → EventLoop
unfolding wakeup
quit in_loop_thread l =
    let l1 = record l { quitting = true } in if in_loop_thread then wakeup l1 else l1

-- What `queueInLoop` does under the lock.
unfoldable pub push : ℕ → EventLoop → EventLoop
push f l = record l { pending = l.pending ++ (f ∷ []) }

unfoldable pub queue_in_loop : Bool → ℕ → EventLoop → EventLoop
unfolding push wakeup
queue_in_loop in_loop_thread f l =
    let l1 = push f l in if not in_loop_thread || l.calling then wakeup l1 else l1

-- `runInLoop`, with the functors that are called at once.
unfoldable pub run_in_loop : Bool → ℕ → EventLoop → EventLoop × List ℕ
unfolding queue_in_loop
run_in_loop in_loop_thread f l =
    if in_loop_thread then (l, f ∷ []) else (queue_in_loop in_loop_thread f l, [])

unfoldable pub queue_all : List ℕ → EventLoop → EventLoop
unfolding queue_in_loop
queue_all [] l = l
queue_all (f ∷ fs) l = queue_all fs (queue_in_loop true f l)

-- The loop over the functors; `body f` are the functors that `f` queues while it runs.
unfoldable pub call_functors : (ℕ → List ℕ) → List ℕ → EventLoop → EventLoop × List ℕ
unfolding queue_all
call_functors body [] l = (l, [])
call_functors body (f ∷ fs) l =
    let (l', called) = call_functors body fs (queue_all (body f) l) in (l', f ∷ called)

-- The swap under the lock, after the flag was set.
unfoldable pub begin_pending : EventLoop → EventLoop
begin_pending l = record l { calling = true; pending = [] }

unfoldable pub end_pending : EventLoop → EventLoop
end_pending l = record l { calling = false }

-- `doPendingFunctors` with no other thread in between, and the functors called.
unfoldable pub do_pending_functors : (ℕ → List ℕ) → EventLoop → EventLoop × List ℕ
unfolding call_functors begin_pending end_pending
do_pending_functors body l =
    let (l1, called) = call_functors body l.pending (begin_pending l) in (end_pending l1, called)

-- Where the thread of the loop stands: in `poll`, in the channels' handlers, in `doPendingFunctors`
-- with the functors that it has still to call, or behind the loop.
pub data Phase : Type 0 where
  polling dispatching stopped : Phase
  running : List ℕ → Phase

-- The loop among other threads. `posted` counts the threads that have pushed a functor and not yet
-- woken the loop up; `queued` and `called` are the functors pushed and called so far.
pub record System : Type 0 where
  pub loop : EventLoop
  pub phase : Phase
  pub posted : ℕ
  pub queued : List ℕ
  pub called : List ℕ

unfoldable pub start : System
unfolding new
start = record { loop = new; phase = polling; posted = 0; queued = []; called = [] }

-- The test of the `while`.
abbrev pub next_phase : Bool → Phase
next_phase true = stopped
next_phase false = polling

-- One step: of the loop's thread (the first seven), or of another one.
pub data Step : System → System → Type 0 where
  poll_returns : {s : System} → s.phase ≡ polling → Step s (record s { phase = dispatching })
  reads_wakeup :
      {s : System} → s.phase ≡ dispatching → Step s (record s { loop = handle_read s.loop })
  handler_queues :
      {s : System} (f : ℕ)
      → s.phase ≡ dispatching
      → Step s (record s { loop = queue_in_loop true f s.loop; queued = s.queued ++ (f ∷ []) })
  begins :
      {s : System}
      → s.phase ≡ dispatching
      → Step s (record s { loop = begin_pending s.loop; phase = running s.loop.pending })
  calls :
      {s : System} (f : ℕ) (fs : List ℕ)
      → s.phase ≡ running (f ∷ fs)
      → Step s (record s { phase = running fs; called = s.called ++ (f ∷ []) })
  functor_queues :
      {s : System} (f : ℕ) (fs : List ℕ)
      → s.phase ≡ running fs
      → Step s (record s { loop = queue_in_loop true f s.loop; queued = s.queued ++ (f ∷ []) })
  ends :
      {s : System}
      → s.phase ≡ running []
      → Step s (record s { loop = end_pending s.loop; phase = next_phase s.loop.quitting })
  other_pushes :
      {s : System} (f : ℕ)
      → Step s
          (record s { loop = push f s.loop; posted = s.posted + 1; queued = s.queued ++ (f ∷ []) })
  other_wakes :
      {s : System} (n : ℕ)
      → s.posted ≡ n + 1
      → Step s (record s { loop = wakeup s.loop; posted = n })
  quits : {s : System} (here : Bool) → Step s (record s { loop = quit here s.loop })

pub data Reachable : System → Type 0 where
  starts : Reachable start
  then' : {s t : System} → Reachable s → Step s t → Reachable t
