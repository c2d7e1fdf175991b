-- ===== src/LoopThread/Handshake.antt =====
-- The start and the end of the thread of net/EventLoopThread.cpp, in every order of the steps.
use tiny_network_library.Base.{
  ◌≡◌, refl, arith, Bool, true, false, ◌&&◌, List, [], ◌∷◌, if◌then◌else◌,
}
use tiny_network_library.Loop.{EventLoop, quit}
use tiny_network_library.Loop
use tiny_network_library.LoopThread.{
  ThreadPhase, unborn, constructed, initialised, published, looping, left, ended, OwnerPhase, idle,
  waiting, holding, joining, gone, LoopThread, new, enter_loop, thread_func, owner_step, is_ended,
  Move, thread_moves, owner_moves, step, run,
}

-- Where `_loop` is set, and where the callback was called.
abbrev shown : ThreadPhase → Bool
shown published = true
shown looping = true
shown left = true
shown _ = false

abbrev called : ThreadPhase → Bool
called unborn = false
called constructed = false
called _ = true

abbrev together : OwnerPhase → ThreadPhase → Bool
together idle unborn = true
together idle _ = false
together waiting constructed = true
together waiting initialised = true
together waiting published = true
together waiting looping = true
together waiting _ = false
together holding published = true
together holding looping = true
together holding _ = false
together _ published = true
together _ looping = true
together _ left = true
together _ ended = true
together _ _ = false

-- The destructor has not begun.
abbrev before : OwnerPhase → Bool
before joining = false
before gone = false
before _ = true

pub record Inv (s : LoopThread) : Type 0 where
  pub pointer : s.has_loop ≡ shown s.thread
  pub callback : s.called_back ≡ called s.thread
  pub phases : together s.owner s.thread ≡ true
  pub runs : before s.owner && s.loop.quitting ≡ false

either :
    (b : Bool) (x y : LoopThread)
    → (b ≡ true → Inv x)
    → (b ≡ false → Inv y)
    → Inv (if b then x else y)
either true x y h k = h refl
either false x y h k = k refl

thread-Inv :
    (t : ThreadPhase) (s : LoopThread)
    → Inv (record s { thread = t })
    → Inv (thread_func t (record s { thread = t }))
unfolding thread_func enter_loop
thread-Inv unborn s v = v
thread-Inv constructed s v = record {
  pointer = v.pointer;
  callback = refl;
  phases = ground (arith, v.phases);
  runs = v.runs;
}
thread-Inv initialised s v = record {
  pointer = refl;
  callback = v.callback;
  phases = ground (arith, v.phases);
  runs = v.runs;
}
thread-Inv published s v = record {
  pointer = v.pointer;
  callback = v.callback;
  phases = ground (arith, v.phases);
  runs = ground (arith, v.runs);
}
thread-Inv looping s v =
    either s.loop.quitting _ _
      (λ off. record {
        pointer = v.pointer;
        callback = v.callback;
        phases = ground (arith, v.phases, v.runs, off);
        runs = v.runs;
      })
      λ on. v
thread-Inv left s v = record {
  pointer = refl;
  callback = v.callback;
  phases = ground (arith, v.phases);
  runs = v.runs;
}
thread-Inv ended s v = v

owner-Inv :
    (o : OwnerPhase) (s : LoopThread)
    → Inv (record s { owner = o })
    → Inv (owner_step o (record s { owner = o }))
unfolding owner_step quit
owner-Inv idle s v = record {
  pointer = ground (arith, v.pointer, v.phases);
  callback = ground (arith, v.callback, v.phases);
  phases = refl;
  runs = v.runs;
}
owner-Inv waiting s v =
    either s.has_loop _ _
      (λ present. record {
        pointer = v.pointer;
        callback = v.callback;
        phases = ground (arith, v.phases, v.pointer, present);
        runs = v.runs;
      })
      λ absent. v
owner-Inv holding s v = record {
  pointer = v.pointer;
  callback = v.callback;
  phases = ground (arith, v.phases);
  runs = refl;
}
owner-Inv joining s v =
    either (is_ended s.thread) _ _
      (λ over. record {
        pointer = v.pointer;
        callback = v.callback;
        phases = v.phases;
        runs = refl;
      })
      λ other. v
owner-Inv gone s v = v

step-Inv : (m : Move) (s : LoopThread) → Inv s → Inv (step m s)
unfolding step
step-Inv thread_moves s v = thread-Inv s.thread s v
step-Inv owner_moves s v = owner-Inv s.owner s v

pub run-Inv : (ms : List Move) (s : LoopThread) → Inv s → Inv (run ms s)
unfolding run
run-Inv [] s v = v
run-Inv (m ∷ ms) s v = run-Inv ms (step m s) (step-Inv m s v)

pub new-Inv : Inv new
unfolding new Loop.new
new-Inv = record { pointer = refl; callback = refl; phases = refl; runs = refl }

-- `startLoop` returns a loop that is ready: in every order of the steps, while the owner has the loop
-- that it returned, the pointer is set, the callback of the thread was called, and nobody has asked the
-- loop to quit.
pub run_holding :
    (ms : List Move)
    → (run ms new).owner ≡ holding
    → ((run ms new).has_loop ≡ true)
      × ((run ms new).called_back ≡ true)
      × ((run ms new).loop.quitting ≡ false)
run_holding ms h = held (run ms new) (run-Inv ms new new-Inv) h
  where
    held :
        (s : LoopThread)
        → Inv s
        → s.owner ≡ holding
        → (s.has_loop ≡ true) × (s.called_back ≡ true) × (s.loop.quitting ≡ false)
    held s v h = ground (arith, v.pointer, v.callback, v.phases, v.runs, h)
