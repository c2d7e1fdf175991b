-- ===== src/LoopThread.antt =====
-- net/EventLoopThread.hpp and net/EventLoopThread.cpp: a thread that runs a loop, and its owner, who
-- starts it, waits for the loop, and at last asks it to quit and joins. Each is a sequence of steps; what
-- stands between two locks or calls of the other is one step.
pub mod Handshake
pub mod Quit
mod Examples
use tiny_network_library.Base.{
  ℕ, zero, suc, ◌≡◌, refl, ap, sym, ◌∙◌, arith, Bool, true, false, not, ◌||◌, List, [], ◌∷◌,
  if◌then◌else◌, ◌⊎◌, inl, inr,
}
use tiny_network_library.Loop.{EventLoop, quit}
use tiny_network_library.Loop

-- The thread: not started, with its loop just made, before `_loop = &loop`, behind it, in
-- `loop.loop()`, behind that, and ended.
pub data ThreadPhase : Type 0 where
  unborn constructed initialised published looping left ended : ThreadPhase

-- The owner: before `startLoop`, in its wait, with the loop that it returned, in the join of the
-- destructor, and behind it.
pub data OwnerPhase : Type 0 where
  idle waiting holding joining gone : OwnerPhase

-- `has_loop`: the pointer `_loop` is set. `called_back`: the callback of the thread was called.
pub record LoopThread : Type 0 where
  pub has_loop : Bool
  pub exiting : Bool
  pub loop : EventLoop
  pub called_back : Bool
  pub thread : ThreadPhase
  pub owner : OwnerPhase

unfoldable pub new : LoopThread
new = record {
  has_loop = false;
  exiting = false;
  loop = Loop.new;
  called_back = false;
  thread = unborn;
  owner = idle;
}

-- The first lines of `EventLoop::loop`.
unfoldable pub enter_loop : EventLoop → EventLoop
enter_loop l = record l { quitting = false }

-- `threadFunc`; a round of the loop is one step, since its `poll` returns after ten seconds at last.
unfoldable pub thread_func : ThreadPhase → LoopThread → LoopThread
unfolding enter_loop
thread_func unborn s = s
thread_func constructed s = record s { called_back = true; thread = initialised }
thread_func initialised s = record s { has_loop = true; thread = published }
thread_func published s = record s { loop = enter_loop s.loop; thread = looping }
thread_func looping s = if s.loop.quitting then record s { thread = left } else s
thread_func left s = record s { has_loop = false; thread = ended }
thread_func ended s = s

abbrev pub is_ended : ThreadPhase → Bool
is_ended ended = true
is_ended _ = false

-- `startLoop`, its wait, the destructor, and the join. Without a loop, the join is that of `~Thread`.
unfoldable pub owner_step : OwnerPhase → LoopThread → LoopThread
unfolding quit
owner_step idle s = record s { thread = constructed; owner = waiting }
owner_step waiting s = if s.has_loop then record s { owner = holding } else s
owner_step holding s = record s {
  exiting = true;
  loop = if s.has_loop then quit false s.loop else s.loop;
  owner = joining;
}
owner_step joining s = if is_ended s.thread then record s { owner = gone } else s
owner_step gone s = s

pub data Move : Type 0 where
  thread_moves owner_moves : Move

unfoldable pub step : Move → LoopThread → LoopThread
unfolding thread_func owner_step
step thread_moves s = thread_func s.thread s
step owner_moves s = owner_step s.owner s

unfoldable pub run : List Move → LoopThread → LoopThread
unfolding step
run [] s = s
run (m ∷ ms) s = run ms (step m s)
