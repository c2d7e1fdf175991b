-- ===== src/Reactor/Steps.antt =====
-- net/EventLoop.cpp: every step of the loop keeps the whole good, from the constructor on.
use tiny_network_library.Base.{
  ℕ, zero, suc, ◌≤◌, ◌≡◌, refl, sym, subst, arith, false, none, ◌==◌, inl,
}
use tiny_network_library.Channel.{
  Channel, Index, fresh, added, set_index, set_revents, is_reading, is_writing, read_event,
  enable_reading, set_read_callback, tie, is_none_event,
}
use tiny_network_library.Channel
use tiny_network_library.Connection.{Connection, connect_established}
use tiny_network_library.Connection
use tiny_network_library.Connection.Lifecycle.{
  established-Inv, perform, perform-Inv, rank-perform, Allows,
}
use tiny_network_library.Poller.Kernel.{Epoll}
use tiny_network_library.Poller.{Poller, poll, WaitResult, wait_failed, happened}
use tiny_network_library.Poller.Active.{poll-Reports, last_mask}
use tiny_network_library.Poller.Histories
use tiny_network_library.Poller.Histories.{init-Tracked}
use tiny_network_library.Poller.Tracked.{Tracked}
use tiny_network_library.Poller.Update.{index_after}
use tiny_network_library.Reactor.{
  Reactor, Step, Reachable, starts, then', polls, handles, begins_pending, operates, establishes,
  adds_timer, goes_on, init, polled, begun, established, loaded, watch,
}
use tiny_network_library.Reactor.Asks.{perform-Shape}
use tiny_network_library.Reactor.Placed.{Placed, updates-Placed}
use tiny_network_library.Reactor.Ready.{Ready}
use tiny_network_library.Reactor.Good.{Good, same-Good, commit-Good, act-Good, handle-Good}

revents-Ready :
    (m : ℕ) {c : Connection} → Ready c → Ready (record c { channel = set_revents m c.channel })
unfolding set_revents
revents-Ready m v = record {
  inv = record {
    sound = v.inv.sound;
    mask = v.inv.mask;
    interest = unfold is_writing in v.inv.interest;
  };
  begun = v.begun;
  reading = λ h. unfold is_reading in v.reading h;
  kept = v.kept;
  held = v.held;
}

module _ (os : Epoll) where
  open os use {Kernel, interest}

  polled-Good : (w : WaitResult) {r : Reactor os} → Good os r → Good os (polled os w r)
  unfolding polled
  polled-Good wait_failed g = unfold poll in same-Good os g refl refl
  polled-Good (happened es) {r} g =
      let (_, reports, tracked, _) = poll-Reports os es g.tracked in
      record {
        tracked = tracked;
        ready = λ id c e.
            subst (λ (ch : Channel). Ready (record c { channel = ch })) (sym (reports.store id))
              (revents-Ready (last_mask id es (r.poller.store id).revents) (g.ready id c e));
        unused = λ id h e. rw (reports.store id) (unfold set_revents in g.unused id h e);
        own = λ id h. rw (reports.store id) (unfold set_revents in g.own id h);
      }

  new_channel : (fd : ℕ) → Channel
  new_channel fd = (connect_established (Connection.new fd)).0.channel

  established-Good :
      (id : ℕ) {r : Reactor os}
      → 2 ≤ id
      → r.connections id ≡ none
      → Good os r
      → Good os (established os id r)
  unfolding established set_index
  established-Good id {r} user none' g =
      let fd = (r.poller.store id).fd in
      let v = established-Inv fd in
      commit-Good os g id user (connect_established (Connection.new fd)) (record {
        index = added;
        placed =
            unfold connect_established Connection.new Channel.new enable_reading tie in
            updates-Placed os g.tracked id (connect_established (Connection.new fd)).0.channel refl
              (sym (g.unused id user none'));
        ready =
            unfold connect_established Connection.new Channel.new enable_reading tie in
            record {
              inv = record {
                sound = v.sound;
                mask = v.mask;
                interest = unfold is_writing in v.interest;
              };
              begun = omega arith;
              reading = λ h. unfold is_reading in refl;
              kept = λ h. inl refl;
              held = λ h. refl;
            };
      })

  abbrev watched : Channel → Channel
  watched c = enable_reading (set_read_callback c)

  watch-Placed :
      (id : ℕ) {p : Poller os}
      → Tracked os p
      → Placed os p id (index_after (watched (p.store id))) (watched (p.store id)) (watch os id p)
  unfolding watch enable_reading set_read_callback
  watch-Placed id {p} t = updates-Placed os t id (watched (p.store id)) refl refl

  module _ (k : Kernel) (fd : ℕ → ℕ) (apart : (i j : ℕ) → fd i ≡ fd j → i ≡ j)
      (empty : (n : ℕ) → interest k n ≡ none) where
    p0 : Poller os
    p0 = Histories.init os k fd

    h1 : Placed os p0 1 (index_after (watched (p0.store 1))) (watched (p0.store 1)) (watch os 1 p0)
    unfolding p0 Histories.init
    h1 = watch-Placed 1 (init-Tracked os k fd apart empty)

    p1 : Poller os
    p1 = watch os 1 p0

    h0 : Placed os p1 0 (index_after (watched (p1.store 0))) (watched (p1.store 0)) (watch os 0 p1)
    unfolding p1
    h0 = watch-Placed 0 h1.tracked

    -- The loop's own channels after the constructor.
    init_own :
        (id : ℕ)
        → id ≤ 1
        → (((watch os 0 p1).store id).index ≡ added)
          × (((watch os 0 p1).store id).events ≡ read_event)
    unfolding p0 p1 Histories.init Channel.new enable_reading set_read_callback set_index
        is_none_event
    init_own zero h = rw (h0.store 0, h1.store 0) (refl, refl)
    init_own (suc zero) h = rw (h0.store 1, h1.store 1) (refl, refl)
    init_own (suc (suc n)) h = absurd (omega arith)

    init_unused : (id : ℕ) → 2 ≤ id → ((watch os 0 p1).store id).index ≡ fresh
    unfolding p0 p1 Histories.init Channel.new
    init_unused id h =
        let a : (0 == id) ≡ false = ground arith in
        let b : (1 == id) ≡ false = ground arith in rw (h0.store id, a, h1.store id, b) refl

    init-Good : Good os (init os k fd)
    unfolding init p0 p1
    init-Good = record {
      tracked = h0.tracked;
      ready = λ id c e. cc;
      unused = λ id h e. init_unused id h;
      own = λ id h. let (i, e) = init_own id h in (refl, i, e);
    }

  Step-Good : {r s : Reactor os} → Good os r → Step os r s → Good os s
  Step-Good g (polls w p) = polled-Good w g
  Step-Good g (handles a id ids p e) = handle-Good os a id (same-Good os g refl refl)
  Step-Good g (begins_pending p e) = unfold begun in same-Good os g refl refl
  Step-Good g (operates {r} {c} id o e h) = act-Good os id (perform o) g (λ d x v.
      let fits =
        subst (λ (y : Connection). Allows o (loaded os r id y)) {x = c} {y = d}
          (ground (arith, e, x)) h in
      (
        perform-Inv o (loaded os r id d) v.inv fits,
        rank-perform o (loaded os r id d),
        perform-Shape o (loaded os r id d) v.inv v.begun,
      ))
  Step-Good g (establishes id user none') = established-Good id user none' g
  Step-Good g (adds_timer id t) = same-Good os g refl refl
  Step-Good g (goes_on x p) = same-Good os g refl refl

  -- Whatever the kernel, the clock and the user do.
  pub Reachable-Good :
      {k : Kernel} {fd : ℕ → ℕ} {r : Reactor os}
      → ((i j : ℕ) → fd i ≡ fd j → i ≡ j)
      → ((n : ℕ) → interest k n ≡ none)
      → Reachable os k fd r
      → Good os r
  Reachable-Good {k} {fd} apart empty starts = init-Good k fd apart empty
  Reachable-Good apart empty (then' h x) = Step-Good (Reachable-Good apart empty h) x
