-- ===== src/ThreadPool.antt =====
-- base/ThreadPool.hpp and base/ThreadPool.cpp: a queue of tasks and the threads that run them. A task
-- is a number. The operations are under the lock of the pool, so each is one step; a worker is at the
-- test of its loop, waiting for the condition, running a task, or done.
pub mod Threads
mod Examples
use tiny_network_library.Base.{
  ℕ, ◌+◌, ◌≡◌, ◌==◌, ◌∙◌, refl, arith, Bool, true, false, List, [], ◌∷◌, ◌++◌, length,
  if◌then◌else◌, leb,
}

pub data Worker : Type 0 where
  testing waiting done : Worker
  works_on : ℕ → Worker

-- `added` and `taken` are the tasks put into the queue and taken out of it so far.
pub record ThreadPool : Type 0 where
  pub stopped : Bool
  pub queue : List ℕ
  pub threads : ℕ
  pub workers : ℕ → Worker
  pub added : List ℕ
  pub taken : List ℕ

-- After `start()` with `n` threads.
unfoldable pub started : ℕ → ThreadPool
started n = record {
  stopped = false;
  queue = [];
  threads = n;
  workers = λ _. testing;
  added = [];
  taken = [];
}

unfoldable pub add_task : ℕ → ThreadPool → ThreadPool
add_task t p = record p { queue = p.queue ++ (t ∷ []); added = p.added ++ (t ∷ []) }

unfoldable pub stop : ThreadPool → ThreadPool
stop p = record p { stopped = true }

unfoldable pub is_full : ThreadPool → Bool
is_full p = leb p.threads (length p.queue)

abbrev pub put : ℕ → Worker → (ℕ → Worker) → ℕ → Worker
put i w ws j = if i == j then w else ws j

-- What `run` does under the lock once the wait is over: it returns, or takes the first task.
unfoldable pub after_wait : ℕ → List ℕ → ThreadPool → ThreadPool
after_wait i [] p = if p.stopped then record p { workers = put i done p.workers } else p
after_wait i (t ∷ ts) p = record p {
  queue = ts;
  workers = put i (works_on t) p.workers;
  taken = p.taken ++ (t ∷ []);
}

-- The next thing that worker `i` does; a wait whose condition does not hold goes on.
unfoldable pub worker_step : ℕ → Worker → ThreadPool → ThreadPool
unfolding after_wait
worker_step i testing p = record p {
  workers = put i (if p.stopped then done else waiting) p.workers;
}
worker_step i waiting p = after_wait i p.queue p
worker_step i (works_on t) p = record p { workers = put i testing p.workers }
worker_step i done p = p

pub data Event : Type 0 where
  adds : ℕ → Event
  stops : Event
  works : ℕ → Event

unfoldable pub step : Event → ThreadPool → ThreadPool
unfolding worker_step
step (adds t) p = add_task t p
step stops p = stop p
step (works i) p = worker_step i (p.workers i) p

unfoldable pub run : List Event → ThreadPool → ThreadPool
run [] p = p
run (e ∷ es) p = run es (step e p)

-- A worker that is not in its wait.
abbrev pub is_outside : Worker → Bool
is_outside waiting = false
is_outside _ = true

-- The pool is stopped, and no worker is in its wait.
pub record IsLeaving (p : ThreadPool) : Type 0 where
  pub stopped : p.stopped ≡ true
  pub outside : (i : ℕ) → is_outside (p.workers i) ≡ true

put_outside :
    (i j : ℕ) (w : Worker) (ws : ℕ → Worker)
    → is_outside w ≡ true
    → is_outside (ws j) ≡ true
    → is_outside (put i w ws j) ≡ true
put_outside i j w ws h k = ground arith

leaves :
    (i : ℕ) (w : Worker) (p : ThreadPool)
    → is_outside w ≡ true
    → IsLeaving p
    → IsLeaving (worker_step i w p) × ((worker_step i w p).queue ≡ p.queue)
unfolding worker_step
leaves i testing p h v = (
  record {
    stopped = v.stopped;
    outside = λ j.
        put_outside i j (if p.stopped then done else waiting) p.workers (rw v.stopped refl)
          (v.outside j);
  },
  refl,
)
leaves i waiting p h v = cc
leaves i (works_on t) p h v = (
  record {
    stopped = v.stopped;
    outside = λ j. put_outside i j testing p.workers refl (v.outside j);
  },
  refl,
)
leaves i done p h v = (v, refl)

abbrev pub worked : List ℕ → List Event
worked [] = []
worked (i ∷ is) = works i ∷ worked is

-- If the pool is stopped while no worker is in its wait, the workers leave the queue as it is,
-- however often each of them goes on: the tasks in it are never run.
pub run_leaving : (is : List ℕ) (p : ThreadPool) → IsLeaving p → (run (worked is) p).queue ≡ p.queue
unfolding run step
run_leaving [] p v = refl
run_leaving (i ∷ is) p v =
    let (left, same) = leaves i (p.workers i) p (v.outside i) v in run_leaving is _ left ∙ same
