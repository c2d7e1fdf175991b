-- ===== src/ThreadPool/Threads.antt =====
-- The threads of base/ThreadPool.cpp: `start`, a second `start`, and the destructor, on the model of
-- base/Thread.cpp. No result stands for the end of the program. The name of the i-th thread is made
-- by the fmt library, and is a parameter.
use tiny_network_library.Base.{
  ℕ, zero, suc, ◌+◌, ◌<◌, ◌≡◌, refl, ap, subst, sym, ◌∙◌, arith, Bool, true, false, Option, none,
  some, ◌>>=◌, List, [], ◌∷◌, ◌++◌, length, replicate, length-append, Bytes, All, All-append, ◌==◌,
  if◌then◌else◌,
}
use tiny_network_library.Thread
use tiny_network_library.Thread.{Thread, Handle, joinable, over, start, join, destroy}

pub record Pool : Type 0 where
  pub stopped : Bool
  pub num_threads : ℕ
  pub threads : List Thread
  pub has_callback : Bool
  pub callback_calls : ℕ

unfoldable pub new : ℕ → Pool
new n = record {
  stopped = false;
  num_threads = n;
  threads = [];
  has_callback = false;
  callback_calls = 0;
}

unfoldable pub set_thread_size : ℕ → Pool → Pool
set_thread_size n p = record p { num_threads = n }

unfoldable pub set_thread_init_callback : Pool → Pool
set_thread_init_callback p = record p { has_callback = true }

unfoldable pub size : Pool → ℕ
size p = length p.threads

-- `_threads[i]->start()`.
abbrev pub start_at : ℕ → List Thread → Option (List Thread)
start_at i [] = none
start_at zero (t ∷ ts) = do t1 ← start t; some (t1 ∷ ts)
start_at (suc i) (t ∷ ts) = do ts1 ← start_at i ts; some (t ∷ ts1)

abbrev pub callbacks : Bool → ℕ → ℕ
callbacks true n = if n == 0 then 1 else n
callbacks false n = 0

-- The function of a worker ends only when the pool is stopped: until then a join waits for ever, which
-- is no result.
abbrev pub join_worker : Bool → Thread → Option Thread
join_worker true t = join t
join_worker false t = none

abbrev pub join_all : Bool → List Thread → Option (List Thread)
join_all stopped [] = some []
join_all stopped (t ∷ ts) = do
  t1 ← join_worker stopped t
  ts1 ← join_all stopped ts
  some (t1 ∷ ts1)

unfoldable pub stop : Pool → Pool
stop p = record p { stopped = true }

abbrev pub destroy_all : List Thread → Option (List Handle)
destroy_all [] = some []
destroy_all (t ∷ ts) = do h ← destroy t; hs ← destroy_all ts; some (h ∷ hs)

-- `~ThreadPool`: `stop`, the joins, and the destructors of the threads.
unfoldable pub destroy_pool : Pool → Option (List Handle)
unfolding stop
destroy_pool p = let q = stop p in do ts ← join_all q.stopped q.threads; destroy_all ts

-- `created` threads of any kind were made before.
module _ (created : ℕ) (thread_name : ℕ → Bytes) where
  -- The loop from `i` on, with `k` rounds left.
  abbrev pub start_from : ℕ → ℕ → List Thread → Option (List Thread)
  start_from i zero ts = some ts
  start_from i (suc k) ts = do
    ts1 ← start_at i (ts ++ (Thread.new (created + i) (thread_name i) ∷ []))
    start_from (i + 1) k ts1

  unfoldable pub start_pool : Pool → Option Pool
  start_pool p = do
    ts ← start_from 0 p.num_threads p.threads
    some (record p {
      stopped = false;
      threads = ts;
      callback_calls = p.callback_calls + callbacks p.has_callback p.num_threads;
    })

-- A thread that was started and not joined.
pub record Runs (t : Thread) : Type 0 where
  pub on : t.started ≡ true
  pub unjoined : t.joined ≡ false
  pub alive : t.handle ≡ joinable

start-Runs :
    (created : ℕ) (name : Bytes)
    → (t : Thread) × (start (Thread.new created name) ≡ some t) × Runs t
unfolding start Thread.new
start-Runs created name = (_, refl, record { on = refl; unjoined = refl; alive = refl })

start_twice : (t : Thread) → Runs t → start t ≡ none
unfolding start
start_twice t r = rw r.alive refl

join-Runs : (t : Thread) → Runs t → (u : Thread) × (join t ≡ some u) × (destroy u ≡ some over)
unfolding join destroy
join-Runs t r =
    let u : Thread = record t { joined = true; handle = over } in
    let joins : join t ≡ some u = ap (λ h. join (record t { handle = h })) r.alive in
    (u, joins, ap (λ b. destroy (record u { started = b })) r.on)

start_at-last :
    (ts : List Thread) (t : Thread) {u : Thread}
    → start t ≡ some u
    → start_at (length ts) (ts ++ (t ∷ [])) ≡ some (ts ++ (u ∷ []))
start_at-last [] t e = rw e refl
start_at-last (x ∷ ts) t e = rw (start_at-last ts t e) refl

started_from :
    (created : ℕ) (thread_name : ℕ → Bytes) (k i : ℕ) (ts : List Thread)
    → i ≡ length ts
    → All Runs ts
    → (us : List Thread) × (start_from created thread_name i k ts ≡ some us)
      × All Runs us
      × (length us ≡ length ts + k)
started_from created thread_name zero i ts e r = (ts, refl, r, omega arith)
started_from created thread_name (suc k) i ts e r =
    let (u, starts, runs) = start-Runs (created + i) (thread_name i) in
    let more = length-append ts (u ∷ []) in
    let (us, es, rs, n) =
      started_from created thread_name k (i + 1) (ts ++ (u ∷ [])) (omega (arith, e, more))
        (All-append Runs ts (u ∷ []) r (runs, tt)) in
    let last =
      ap (λ j. start_at j (ts ++ (Thread.new (created + i) (thread_name i) ∷ []))) e
      ∙ start_at-last ts (Thread.new (created + i) (thread_name i)) starts in
    (us, rw last es, rs, omega (arith, n, more))

joins_over :
    (ts : List Thread)
    → All Runs ts
    → (us : List Thread) × (join_all true ts ≡ some us)
      × (destroy_all us ≡ some (replicate (length ts) over))
joins_over [] r = ([], refl, refl)
joins_over (t ∷ ts) (r, rs) =
    let (u, joins, ends) = join-Runs t r in
    let (us, js, es) = joins_over ts rs in (u ∷ us, rw (joins, js) refl, rw (ends, es) refl)

-- A pool that is started once works: `start` returns with as many threads as were asked for, each
-- started, not joined and joinable, and the destructor then stops the pool, joins them all and destroys
-- them without ending the program: what is left is a joined thread for each of them. The function of a
-- worker is taken to end once the pool is stopped.
pub start_pool-destroy_pool :
    (created : ℕ) (thread_name : ℕ → Bytes) (n : ℕ)
    → (p : Pool) × (start_pool created thread_name (new n) ≡ some p)
      × (size p ≡ n)
      × All Runs p.threads
      × (destroy_pool p ≡ some (replicate n over))
unfolding start_pool new size destroy_pool stop
start_pool-destroy_pool created thread_name n =
    let (us, e, rs, k) = started_from created thread_name n 0 [] refl tt in
    let (vs, js, es) = joins_over us rs in
    (
      record {
        stopped = false;
        num_threads = n;
        threads = us;
        has_callback = false;
        callback_calls = 0;
      },
      rw e refl,
      omega (arith, k),
      rs,
      rw (js, es) (ap (λ m. some (replicate m over)) (omega (arith, k))),
    )

started_again :
    (created : ℕ) (thread_name : ℕ → Bytes) (k : ℕ) (ts : List Thread)
    → All Runs ts
    → 0 < length ts
    → start_from created thread_name 0 (suc k) ts ≡ none
started_again created thread_name k [] r h = absurd (omega arith)
started_again created thread_name k (t ∷ ts) (r, rs) h = rw (start_twice t r) refl

-- A second `start` of a pool with at least one thread has no result, the program ends: it appends new
-- threads, but starts those at the front, which run already.
pub start_pool_twice :
    (created later : ℕ) (thread_name : ℕ → Bytes) (n : ℕ) (p : Pool)
    → 0 < n
    → start_pool created thread_name (new n) ≡ some p
    → start_pool later thread_name p ≡ none
unfolding start_pool new
start_pool_twice created later thread_name zero p h e = absurd (omega arith)
start_pool_twice created later thread_name (suc n) p h e =
    let (us, starts, rs, k) = started_from created thread_name (suc n) 0 [] refl tt in
    let again = started_again later thread_name n us rs (omega (arith, k)) in
    let q : Pool = record {
      stopped = false;
      num_threads = suc n;
      threads = us;
      has_callback = false;
      callback_calls = 0;
    } in
    let first : start_pool created thread_name (new (suc n)) ≡ some q = rw starts refl in
    let second : start_pool later thread_name q ≡ none = rw again refl in
    subst (λ x. start_pool later thread_name x ≡ none) (same_pool (sym first ∙ e)) second
  where
    same_pool : {q r : Pool} → some q ≡ some r → q ≡ r
    same_pool x = cc
