-- ===== src/Loop/Fifo.antt =====
-- The functors of net/EventLoop.cpp under every interleaving: none is lost, repeated or called out of
-- order, and none waits for a loop that sleeps.
use tiny_network_library.Base.{
  Bool-cases, ℕ, ◌+◌, ◌<◌, ◌≡◌, ◌⊎◌, inl, inr, refl, ap, arith, Bool, true, false, List, [], ◌∷◌,
  ◌++◌, length, append_assoc, append-nil,
}
use tiny_network_library.Loop.{
  EventLoop, Phase, polling, dispatching, running, System, Step, Reachable, starts, then', start,
  new, push, wakeup, queue_in_loop, quit, handle_read, begin_pending, end_pending, poll_returns,
  reads_wakeup, handler_queues, begins, calls, functor_queues, ends, other_pushes, other_wakes,
  quits,
}

-- The functors taken by the swap and not yet called.
abbrev pub taken : Phase → List ℕ
taken (running fs) = fs
taken _ = []

abbrev pub is_running : Phase → Bool
is_running (running fs) = true
is_running _ = false

abbrev pub is_dispatching : Phase → Bool
is_dispatching dispatching = true
is_dispatching _ = false

-- The order of the functors, the flag of `doPendingFunctors`, and what stands against sleeping over a
-- functor: the loop will still come to them, or there are none, or a wake-up was given or is due.
pub record Inv (s : System) : Type 0 where
  pub fifo : s.called ++ (taken s.phase ++ s.loop.pending) ≡ s.queued
  pub flag : s.loop.calling ≡ is_running s.phase
  pub awake :
      (is_dispatching s.phase ≡ true) ⊎ (s.loop.pending ≡ []) ⊎ (0 < s.loop.wakeups + s.posted)

start-Inv : Inv start
unfolding start new
start-Inv = record { fifo = refl; flag = refl; awake = inr (inl refl) }

-- One more functor at the end.
pushed :
    (a b c d : List ℕ) (f : ℕ) → a ++ (b ++ c) ≡ d → a ++ (b ++ (c ++ (f ∷ []))) ≡ d ++ (f ∷ [])
pushed a b c d f h = rw (← h, append_assoc a (b ++ c) (f ∷ []), append_assoc b c (f ∷ [])) refl

queue_in_loop_cases :
    (f : ℕ) (l : EventLoop)
    → (queue_in_loop true f l ≡ record l { pending = l.pending ++ (f ∷ []) })
      ⊎ (queue_in_loop true f l
          ≡ record l { pending = l.pending ++ (f ∷ []); wakeups = l.wakeups + 1 })
unfolding queue_in_loop push wakeup
queue_in_loop_cases f l = ground arith

Step-Inv : {s t : System} → Inv s → Step s t → Inv t
unfolding queue_in_loop push wakeup quit handle_read begin_pending end_pending
Step-Inv v (poll_returns {s} p) = record {
  fifo = rw p at v.fifo;
  flag = rw p at v.flag;
  awake = inl refl;
}
Step-Inv v (reads_wakeup {s} p) = record { fifo = v.fifo; flag = v.flag; awake = inl (rw p refl) }
Step-Inv v (handler_queues {s} f p) = elim (queue_in_loop_cases f s.loop) [
  | inl e ↦ rw e (record {
    fifo = pushed s.called (taken s.phase) s.loop.pending s.queued f v.fifo;
    flag = v.flag;
    awake = inl (rw p refl);
  })
  | inr e ↦ rw e (record {
    fifo = pushed s.called (taken s.phase) s.loop.pending s.queued f v.fifo;
    flag = v.flag;
    awake = inl (rw p refl);
  })
]
Step-Inv v (begins {s} p) = record {
  fifo = rw (append-nil s.loop.pending) (rw p at v.fifo);
  flag = refl;
  awake = inr (inl refl);
}
Step-Inv v (calls {s} f fs p) = record {
  fifo = rw append_assoc (rw p at v.fifo);
  flag = rw p at v.flag;
  awake = inr (ground (arith, rw p at v.awake));
}
Step-Inv v (functor_queues {s} f fs p) =
    let on : s.loop.calling ≡ true = rw p at v.flag in
    rw (on, queue_in_loop)
      (record {
        fifo = pushed s.called (taken s.phase) s.loop.pending s.queued f v.fifo;
        flag = rw p refl;
        awake = inr (inr (omega arith));
      })
Step-Inv v (ends {s} p) = elim (Bool-cases s.loop.quitting) [
  | inl over ↦
      rw over (record {
        fifo = rw p at v.fifo;
        flag = refl;
        awake = inr (ground (arith, rw p at v.awake));
      })
  | inr again ↦
      rw again (record {
        fifo = rw p at v.fifo;
        flag = refl;
        awake = inr (ground (arith, rw p at v.awake));
      })
]
Step-Inv v (other_pushes {s} f) = record {
  fifo = pushed s.called (taken s.phase) s.loop.pending s.queued f v.fifo;
  flag = v.flag;
  awake = inr (inr (omega arith));
}
Step-Inv v (other_wakes {s} n p) = record {
  fifo = v.fifo;
  flag = v.flag;
  awake = inr (inr (omega arith));
}
Step-Inv v (quits {s} true) = record {
  fifo = v.fifo;
  flag = v.flag;
  awake = ground (arith, v.awake);
}
Step-Inv v (quits {s} false) = record { fifo = v.fifo; flag = v.flag; awake = v.awake }

Reachable-Inv : {s : System} → Reachable s → Inv s
Reachable-Inv starts = start-Inv
Reachable-Inv (then' r x) = Step-Inv (Reachable-Inv r) x

-- However the steps of the loop and of other threads interleave: the functors called, then those
-- taken by the swap, then those pending are the functors that were queued, in order and each once.
pub Reachable-fifo :
    {s : System} → Reachable s → s.called ++ (taken s.phase ++ s.loop.pending) ≡ s.queued
Reachable-fifo r = (Reachable-Inv r).fifo

-- No wake-up is lost: a loop that is in `poll` with a functor pending, and with no thread between
-- its push and its wake-up, has a positive counter, so that `poll` returns.
pub Reachable-awake :
    {s : System}
    → Reachable s
    → s.phase ≡ polling
    → s.posted ≡ 0
    → 0 < length s.loop.pending
    → 0 < s.loop.wakeups
Reachable-awake {s} r p none' some' =
    let v = Reachable-Inv r in
    let a : (false ≡ true) ⊎ (s.loop.pending ≡ []) ⊎ (0 < s.loop.wakeups + s.posted) =
      rw p at v.awake in
    elim a [
      | inl e ↦ cc
      | inr (inl e) ↦ absurd (omega (arith, ap length e))
      | inr (inr e) ↦ omega arith
    ]
