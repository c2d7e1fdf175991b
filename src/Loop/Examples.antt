-- ===== src/Loop/Examples.antt =====
-- The theorems on net/EventLoop.cpp with one functor from another thread.
use tiny_network_library.Base.{◌≡◌, refl, false, [], ◌∷◌, ◌++◌}
use tiny_network_library.Loop.{
  EventLoop, System, Reachable, start, starts, then', other_pushes, other_wakes, push, wakeup,
}
use tiny_network_library.Loop.Fifo.{Reachable-fifo, taken}

abbrev busy : EventLoop
busy = record { quitting = false; calling = false; pending = 3 ∷ 5 ∷ []; wakeups = 1 }

abbrev sample : System
sample = record start {
  loop = wakeup (push 7 start.loop);
  posted = 0;
  queued = start.queued ++ (7 ∷ []);
}

sample-Reachable : Reachable sample
unfolding start
sample-Reachable = then' (then' starts (other_pushes 7)) (other_wakes 0 refl)

Reachable-fifo_example : sample.called ++ (taken sample.phase ++ sample.loop.pending) ≡ 7 ∷ []
unfolding start
Reachable-fifo_example = Reachable-fifo sample-Reachable
