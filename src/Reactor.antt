-- ===== src/Reactor.antt =====
-- net/EventLoop.cpp put together: the loop's thread, its poller with the channels, its timers, and the
-- connections (net/TcpConnection.cpp) whose channels it serves. The `Channel` of a connection is the one
-- that the poller's store holds at the connection's number.
pub mod Asks
pub mod Placed
pub mod Ready
pub mod Good
pub mod Steps
pub mod Served
pub mod Ends
mod Examples
use tiny_network_library.Base.{
  ℕ, zero, suc, ◌≤◌, ◌≡◌, Bool, true, false, List, [], ◌∷◌, Option, none, some, ◌==◌, if◌then◌else◌,
}
use tiny_network_library.Buffer.{ReadResult}
use tiny_network_library.Channel.{
  Channel, Callback, read_callback, set_read_callback, enable_reading, disable_all, handle_event,
}
use tiny_network_library.Clock.{Timestamp}
use tiny_network_library.Connection.{
  Connection, Effect, Outcome, WriteResult, update_channel, remove_channel, connect_established,
}
use tiny_network_library.Connection
use tiny_network_library.Connection.Dispatch.{call}
use tiny_network_library.Connection.Lifecycle.{Operation, perform, Allows}
use tiny_network_library.Loop.{
  System, Phase, polling, dispatching, running, start, handle_read, begin_pending, poll_returns,
  reads_wakeup, begins,
}
use tiny_network_library.Loop
use tiny_network_library.Poller.Kernel.{Epoll}
use tiny_network_library.Poller.{Poller, put, Table, WaitResult, poll}
use tiny_network_library.Poller
use tiny_network_library.Poller.Histories
use tiny_network_library.Timers.{Timer, TimerQueue}
use tiny_network_library.Timers

-- The channels of the wake-up descriptor and of the timer descriptor.
abbrev pub wakeup_channel : ℕ
wakeup_channel = 0

abbrev pub timerfd_channel : ℕ
timerfd_channel = 1

-- What an operation of a connection asks of the loop for its channel.
pub data Ask : Type 0 where
  updates removes : Ask

abbrev pub asks : List Effect → List Ask
asks [] = []
asks (update_channel ∷ es) = updates ∷ asks es
asks (remove_channel ∷ es) = removes ∷ asks es
asks (e ∷ es) = asks es

-- What the kernel and the clock answer while one event is handled: `readv`, `write`, the time, and the
-- timers that the callbacks of the expired ones add.
pub record Answers : Type 0 where
  pub reads : ReadResult
  pub writes : WriteResult
  pub now : Timestamp
  pub added : List (ℕ × Timer)

-- The steps of the loop's functors and of other threads, which touch no channel.
abbrev pub is_plain : {s t : System} → Loop.Step s t → Bool
is_plain (poll_returns p) = false
is_plain (reads_wakeup p) = false
is_plain (begins p) = false
is_plain _ = true

module _ (os : Epoll) where
  open os use {Kernel}

  pub record Reactor : Type 0 where
    pub poller : Poller os
    pub connections : Table Connection
    pub timers : TimerQueue
    pub active : List ℕ
    pub system : System

  -- `updateChannel` and `removeChannel`.
  unfoldable pub tell : List Ask → ℕ → Poller os → Poller os
  tell [] id p = p
  tell (updates ∷ es) id p = tell es id (Poller.update_channel os id p)
  tell (removes ∷ es) id p = tell es id (Poller.remove_channel os id p)

  -- A member of Channel that changes its interest and calls `update()`.
  unfoldable pub set_channel : ℕ → Channel → Poller os → Poller os
  set_channel id c p = record p { store = put id c p.store }

  -- The loop's own channels: `setReadCallback`, then `enableReading`.
  unfoldable pub watch : ℕ → Poller os → Poller os
  unfolding tell set_channel
  watch id p =
      tell (updates ∷ []) id (set_channel id (enable_reading (set_read_callback (p.store id))) p)

  -- The constructor, over the descriptors `fd` of the channels: the timer queue watches its channel, then
  -- the loop watches that of the wake-up descriptor.
  unfoldable pub init : Kernel → (ℕ → ℕ) → Reactor
  unfolding watch
  init k fd = record {
    poller = watch wakeup_channel (watch timerfd_channel (Histories.init os k fd));
    connections = λ _. none;
    timers = Timers.init;
    active = [];
    system = start;
  }

  -- The connection with the channel that the loop knows.
  abbrev pub loaded : Reactor → ℕ → Connection → Connection
  loaded r id c = record c { channel = r.poller.store id }

  -- An operation has run on the connection: its channel is in the store when the poller is told.
  unfoldable pub commit : ℕ → Outcome → Reactor → Reactor
  unfolding tell set_channel
  commit id o r = record r {
    connections = put id (some o.0) r.connections;
    poller = tell (asks o.1) id (set_channel id o.0.channel r.poller);
  }

  unfoldable pub act : ℕ → (Connection → Outcome) → Reactor → Reactor
  unfolding commit
  act id f r = elim (r.connections id) [ none ↦ r | some c ↦ commit id (f (loaded r id c)) r ]

  -- The callbacks of a connection, one after the other.
  unfoldable pub call_back : Answers → List Callback → ℕ → Reactor → Reactor
  unfolding act
  call_back a [] id r = r
  call_back a (cb ∷ cbs) id r = call_back a cbs id (act id (call a.reads a.writes cb) r)

  -- The read callbacks of the loop's own two channels, `EventLoop::handleRead` and
  -- `TimerQueue::handleRead`.
  unfoldable pub own_read : Answers → ℕ → Reactor → Reactor
  own_read a zero r = record r { system = record r.system { loop = handle_read r.system.loop } }
  own_read a (suc zero) r = record r { timers = (Timers.handle_read a.now a.added r.timers).0 }
  own_read a (suc (suc n)) r = r

  unfoldable pub own_callback : Answers → ℕ → Callback → Reactor → Reactor
  unfolding own_read
  own_callback a id read_callback r = own_read a id r
  own_callback a id _ r = r

  unfoldable pub own_callbacks : Answers → ℕ → List Callback → Reactor → Reactor
  unfolding own_callback
  own_callbacks a id [] r = r
  own_callbacks a id (cb ∷ cbs) r = own_callbacks a id cbs (own_callback a id cb r)

  -- `handleEvent` of an active channel.
  unfoldable pub handle : Answers → ℕ → Reactor → Reactor
  unfolding call_back own_callbacks
  handle a id r =
      let cbs = handle_event true (r.poller.store id) in
      elim (r.connections id) [ none ↦ own_callbacks a id cbs r | some c ↦ call_back a cbs id r ]

  unfoldable pub polled : WaitResult → Reactor → Reactor
  polled w r =
      let (p, active) = poll os w r.poller in
      record r { poller = p; active = active; system = record r.system { phase = dispatching } }

  unfoldable pub begun : Reactor → Reactor
  begun r = record r {
    system = record r.system {
      loop = begin_pending r.system.loop;
      phase = running r.system.loop.pending;
    };
  }

  -- A connection object is made over the channel `id`, and established.
  unfoldable pub established : ℕ → Reactor → Reactor
  unfolding commit
  established id r = commit id (connect_established (Connection.new (r.poller.store id).fd)) r

  -- `disableAll`, then `remove`.
  unfoldable pub unwatch : ℕ → Poller os → Poller os
  unfolding tell set_channel
  unwatch id p = tell (updates ∷ removes ∷ []) id (set_channel id (disable_all (p.store id)) p)

  -- The destructor, and then that of the timer queue, which deletes the timers.
  unfoldable pub destruct : Reactor → Reactor
  unfolding unwatch
  destruct r = record r {
    poller = unwatch timerfd_channel (unwatch wakeup_channel r.poller);
    timers = Timers.delete_all r.timers.entries r.timers;
  }

  -- One step. User code runs in the handlers and in the functors: it operates on connections, makes new
  -- ones, and adds timers.
  pub data Step : Reactor → Reactor → Type 0 where
    polls : {r : Reactor} (w : WaitResult) → r.system.phase ≡ polling → Step r (polled w r)
    handles :
        {r : Reactor} (a : Answers) (id : ℕ) (ids : List ℕ)
        → r.system.phase ≡ dispatching
        → r.active ≡ id ∷ ids
        → Step r (handle a id (record r { active = ids }))
    begins_pending : {r : Reactor} → r.system.phase ≡ dispatching → r.active ≡ [] → Step r (begun r)
    operates :
        {r : Reactor} {c : Connection} (id : ℕ) (o : Operation)
        → r.connections id ≡ some c
        → Allows o (loaded r id c)
        → Step r (act id (perform o) r)
    establishes :
        {r : Reactor} (id : ℕ) → 2 ≤ id → r.connections id ≡ none → Step r (established id r)
    adds_timer :
        {r : Reactor} (id : ℕ) (t : Timer)
        → Step r (record r { timers = Timers.add_timer_in_loop id t r.timers })
    goes_on :
        {r : Reactor} {s : System} (x : Loop.Step r.system s)
        → is_plain x ≡ true
        → Step r (record r { system = s })

  pub data Reachable (k : Kernel) (fd : ℕ → ℕ) : Reactor → Type 0 where
    starts : Reachable k fd (init k fd)
    then' : {r s : Reactor} → Reachable k fd r → Step r s → Reachable k fd s
