-- ===== src/Reactor/Served.antt =====
-- net/EventLoop.cpp with its poller and its connections: no connection and no functor waits for an event that
-- the kernel was not asked for.
use Prim.Native.Nat.{bit_or}
use tiny_network_library.Base.{
  ℕ, zero, suc, ◌≤◌, ◌<◌, ◌≡◌, ◌⊎◌, refl, ap, ◌∙◌, arith, true, List, [], ◌∷◌, none, some, ◌==◌,
  if◌then◌else◌, Option-cases, inl, inr, length, suc,
}
use tiny_network_library.Buffer.{readable_bytes}
use tiny_network_library.Channel.{
  Channel, Callback, read_callback, close_callback, error_callback, write_callback, is_reading,
  is_writing, read_event, write_event, handle_event, added,
}
use tiny_network_library.Channel.Events.{IsMask, nothing, reads, writes, both}
use tiny_network_library.Connection.{Connection, Outcome, is_connected, is_disconnecting}
use tiny_network_library.Connection.Effects.{waiting}
use tiny_network_library.Connection.Lifecycle.{rank, perform}
use tiny_network_library.Loop.{System, polling, dispatching, reads_wakeup, poll_returns, begins}
use tiny_network_library.Loop
use tiny_network_library.Loop.Fifo.{Reachable-awake}
use tiny_network_library.Poller.Kernel.{Epoll}
use tiny_network_library.Poller.{has_channel}
use tiny_network_library.Poller.Update.{has_channel_lem}
use tiny_network_library.Reactor.{
  Reactor, Step, Reachable, starts, then', polls, handles, begins_pending, operates, establishes,
  adds_timer, goes_on, init, polled, begun, established, Answers, act, commit, call_back,
  own_callback, own_read, own_callbacks, handle, wakeup_channel, call,
}
use tiny_network_library.Reactor.Ready.{Ready}
use tiny_network_library.Reactor.Steps.{Reachable-Good}

-- A mask with the read events holds the write event or no other.
reading_mask :
    (c : Channel)
    → IsMask c.events
    → is_reading c ≡ true
    → c.events ≡ (if is_writing c then bit_or read_event write_event else read_event)
unfolding is_reading is_writing
reading_mask c (nothing e) h = absurd (ground (arith, rw e at h))
reading_mask c (reads e) h = rw e refl
reading_mask c (writes e) h = absurd (ground (arith, rw e at h))
reading_mask c (both e) h = rw e refl

-- The state of the connection's bits, once it is up.
mask-Ready :
    {c : Connection}
    → Ready c
    → rank c.state ≤ 2
    → c.channel.events
      ≡ (if readable_bytes c.output == 0 then read_event else bit_or read_event write_event)
mask-Ready {c} v up =
    reading_mask c.channel v.inv.mask (v.reading up)
    ∙ rw (waiting v.inv (ground (arith, up))) (ground arith)

module _ (os : Epoll) where
  open os use {Kernel, interest}

  -- The connection is connected; or it is half-closed, and the loop has its channel still.
  abbrev pub IsUp : Reactor os → ℕ → Connection → Type 0
  IsUp r id c =
      (is_connected c.state ≡ true)
      ⊎ ((is_disconnecting c.state ≡ true) × (has_channel os id r.poller ≡ true))

  -- In every reachable loop, whatever operations, events, answers of the kernel and other threads came
  -- before: the kernel's list holds each connection that is connected, or half-closed and still known to
  -- the loop, for reading, and for writing exactly if bytes wait in its output buffer. At the start
  -- the kernel's list is empty, and the channels have different descriptors; a direct write takes no
  -- more than it is given and reports no broken connection, and the output stays below the largest
  -- vector.
  pub Reachable-serves :
      {k : Kernel} {fd : ℕ → ℕ} {r : Reactor os}
      → ((i j : ℕ) → fd i ≡ fd j → i ≡ j)
      → ((n : ℕ) → interest k n ≡ none)
      → Reachable os k fd r
      → (id : ℕ) (c : Connection) → r.connections id ≡ some c
      → IsUp r id c
      → interest r.poller.kernel (r.poller.store id).fd
        ≡ some (if readable_bytes c.output == 0 then read_event else bit_or read_event write_event)
  Reachable-serves {r} apart empty h id c e up =
      let g = Reachable-Good os apart empty h in
      let v = g.ready id c e in
      let held : (rank c.state ≤ 2) × ((r.poller.store id).index ≡ added) = elim up [
        | inl on ↦ (ground (arith, on), v.held (ground (arith, on)))
        | inr (half, has) ↦ (
          ground (arith, half),
          elim (v.kept (ground (arith, half))) [
            | inl i ↦ i
            | inr i ↦ absurd (ground (arith, has_channel_lem os g.tracked id, has, i))
          ],
        )
      ] in
      g.tracked.list id ∙ rw held.1 (ap some (mask-Ready v held.0))

  -- The wake-up descriptor and the timer descriptor are in the list for reading, always.
  pub Reachable-watches :
      {k : Kernel} {fd : ℕ → ℕ} {r : Reactor os}
      → ((i j : ℕ) → fd i ≡ fd j → i ≡ j)
      → ((n : ℕ) → interest k n ≡ none)
      → Reachable os k fd r
      → (id : ℕ) → id ≤ 1
      → interest r.poller.kernel (r.poller.store id).fd ≡ some read_event
  Reachable-watches {r} apart empty h id low =
      let g = Reachable-Good os apart empty h in
      let (_, i, e) = g.own id low in g.tracked.list id ∙ rw (i, e) refl

  -- The handlers of the loop's own channels are steps of its thread.
  own_callbacks-System :
      (a : Answers) (id : ℕ) (cbs : List Callback) (r : Reactor os)
      → r.system.phase ≡ dispatching
      → Loop.Reachable r.system
      → Loop.Reachable (own_callbacks os a id cbs r).system
  unfolding own_callbacks own_callback own_read
  own_callbacks-System a id [] r p h = h
  own_callbacks-System a zero (read_callback ∷ cbs) r p h =
      own_callbacks-System a zero cbs _ p (Loop.then' h (reads_wakeup p))
  own_callbacks-System a (suc zero) (read_callback ∷ cbs) r p h = own_callbacks-System a 1 cbs _ p h
  own_callbacks-System a (suc (suc n)) (read_callback ∷ cbs) r p h =
      own_callbacks-System a (suc (suc n)) cbs r p h
  own_callbacks-System a id (close_callback ∷ cbs) r p h = own_callbacks-System a id cbs r p h
  own_callbacks-System a id (error_callback ∷ cbs) r p h = own_callbacks-System a id cbs r p h
  own_callbacks-System a id (write_callback ∷ cbs) r p h = own_callbacks-System a id cbs r p h

  system-act :
      (id : ℕ) (f : Connection → Outcome) (r : Reactor os) → (act os id f r).system ≡ r.system
  unfolding act commit
  system-act id f r = elim (Option-cases (r.connections id)) [
    | inl e ↦ rw (e, act) refl
    | inr (c, e) ↦ rw (e, act) refl
  ]

  system-call_back :
      (a : Answers) (cbs : List Callback) (id : ℕ) (r : Reactor os)
      → (call_back os a cbs id r).system ≡ r.system
  unfolding call_back
  system-call_back a [] id r = refl
  system-call_back a (cb ∷ cbs) id r =
      let f = call a.reads a.writes cb in
      system-call_back a cbs id (act os id f r) ∙ system-act id f r

  handle-System :
      (a : Answers) (id : ℕ) (r : Reactor os)
      → r.system.phase ≡ dispatching
      → Loop.Reachable r.system
      → Loop.Reachable (handle os a id r).system
  unfolding handle
  handle-System a id r p h =
      let cbs = handle_event true (r.poller.store id) in
      elim (Option-cases (r.connections id)) [
        | inl e ↦ rw (e, handle) (own_callbacks-System a id cbs r p h)
        | inr (c, e) ↦ rw (e, handle, system-call_back a cbs id r) h
      ]

  Step-System : {r s : Reactor os} → Loop.Reachable r.system → Step os r s → Loop.Reachable s.system
  unfolding polled begun established commit
  Step-System h (polls w p) = Loop.then' h (poll_returns p)
  Step-System h (handles a id ids p e) = handle-System a id _ p h
  Step-System h (begins_pending p e) = Loop.then' h (begins p)
  Step-System h (operates {r} id o e k) = rw (system-act id (perform o) r) h
  Step-System h (establishes id user none') = h
  Step-System h (adds_timer id t) = h
  Step-System h (goes_on x p) = Loop.then' h x

  -- The loop as a whole is one of the loops whose interleavings are studied on their own.
  Reachable-System :
      {k : Kernel} {fd : ℕ → ℕ} {r : Reactor os} → Reachable os k fd r → Loop.Reachable r.system
  unfolding init
  Reachable-System starts = Loop.starts
  Reachable-System (then' h x) = Step-System (Reachable-System h) x

  -- A loop that waits in `epoll_wait` with a functor pending, and with no thread between its push and its
  -- wake-up, is woken: the counter behind the wake-up descriptor is positive, and the kernel's list
  -- holds this descriptor for reading. At the start the kernel's list is empty, and the channels have
  -- different descriptors; direct writes keep to what the kernel promises.
  pub Reachable-wakes :
      {k : Kernel} {fd : ℕ → ℕ} {r : Reactor os}
      → ((i j : ℕ) → fd i ≡ fd j → i ≡ j)
      → ((n : ℕ) → interest k n ≡ none)
      → Reachable os k fd r
      → r.system.phase ≡ polling
      → r.system.posted ≡ 0
      → 0 < length r.system.loop.pending
      → (0 < r.system.loop.wakeups)
        × (interest r.poller.kernel (r.poller.store wakeup_channel).fd ≡ some read_event)
  Reachable-wakes apart empty h p none' some' = (
    Reachable-awake (Reachable-System h) p none' some',
    Reachable-watches apart empty h wakeup_channel (omega arith),
  )
