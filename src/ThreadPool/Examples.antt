-- ===== src/ThreadPool/Examples.antt =====
-- The theorems on base/ThreadPool.cpp with two workers.
use tiny_network_library.Base.{
  ◌≡◌, refl, true, List, [], ◌∷◌, ℕ, All, Bytes, some, none, false, arith,
}
use tiny_network_library.Thread
use tiny_network_library.Thread.{Thread, start, joinable, over}
use tiny_network_library.ThreadPool.{ThreadPool, Event, adds, stops, works, started, testing}
use tiny_network_library.ThreadPool.Threads.{
  Pool, Runs, new, size, start_pool, destroy_pool, start_pool-destroy_pool, start_pool_twice,
}

abbrev script : List Event
script = adds 7 ∷ works 0 ∷ works 0 ∷ adds 8 ∷ stops ∷ works 1 ∷ []

-- Stopped before any worker has come to its wait.
abbrev sample : ThreadPool
sample = record {
  stopped = true;
  queue = 7 ∷ [];
  threads = 2;
  workers = λ _. testing;
  added = 7 ∷ [];
  taken = [];
}

abbrev sample_name : ℕ → Bytes
sample_name i = i ∷ []

start_pool-destroy_pool_example :
    (p : Pool) × (start_pool 5 sample_name (new 2) ≡ some p)
    × (size p ≡ 2)
    × All Runs p.threads
    × (destroy_pool p ≡ some (over ∷ over ∷ []))
start_pool-destroy_pool_example = start_pool-destroy_pool 5 sample_name 2

-- One thread that runs.
abbrev sample_pool : Pool
sample_pool = record (new 1) {
  threads = record { started = true; joined = false; handle = joinable; name = 0 ∷ [] } ∷ [];
}

-- Two threads that run.
abbrev running : ℕ → Thread
running i = record { started = true; joined = false; handle = joinable; name = i ∷ [] }

start_pool_twice_example :
    start_pool 9 sample_name (record (new 2) { threads = running 0 ∷ running 1 ∷ [] }) ≡ none
unfolding start_pool new Thread.new start
start_pool_twice_example =
    start_pool_twice 5 9 sample_name 2 (record (new 2) { threads = running 0 ∷ running 1 ∷ [] })
      (omega arith) refl
