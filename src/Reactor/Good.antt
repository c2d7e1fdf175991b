-- ===== src/Reactor/Good.antt =====
-- net/EventLoop.cpp: what the operations of a connection and the handlers of the loop keep of the whole.
use tiny_network_library.Base.{
  ℕ, zero, suc, ◌≤◌, ◌≡◌, refl, sym, subst, ◌∙◌, arith, true, false, List, [], ◌∷◌, none, some,
  ◌==◌, Bool-cases, Option-cases, inl, inr, suc,
}
use tiny_network_library.Buffer.{ReadResult}
use tiny_network_library.Channel.{
  Channel, fresh, added, set_index, Callback, read_event, handle_event, close_callback,
  error_callback, read_callback, write_callback,
}
use tiny_network_library.Connection.{Connection, Outcome, WriteResult}
use tiny_network_library.Connection.Effects.{Inv}
use tiny_network_library.Connection.Dispatch.{call}
use tiny_network_library.Connection.Lifecycle.{
  perform, perform-Inv, rank, rank-perform, closes, readable, writable,
}
use tiny_network_library.Poller.Kernel.{Epoll}
use tiny_network_library.Poller.Tracked.{Tracked}
use tiny_network_library.Reactor.{
  Reactor, Answers, asks, tell, set_channel, loaded, commit, act, call_back, own_callback,
  own_callbacks, handle, own_read,
}
use tiny_network_library.Reactor.Asks.{Shape, call-Shape}
use tiny_network_library.Reactor.Ready.{Ready, Settled, tell-Settled}

module _ (os : Epoll) where
  -- Table, list and indices agree; every connection is ready; a channel without a connection is not known
  -- to the poller, but for the loop's own two, which are in the list for reading.
  pub record Good (r : Reactor os) : Type 0 where
    pub tracked : Tracked os r.poller
    pub ready : (id : ℕ) (c : Connection) → r.connections id ≡ some c → Ready (loaded os r id c)
    pub unused : (id : ℕ) → 2 ≤ id → r.connections id ≡ none → (r.poller.store id).index ≡ fresh
    pub own :
        (id : ℕ)
        → id ≤ 1
        → (r.connections id ≡ none)
          × ((r.poller.store id).index ≡ added)
          × ((r.poller.store id).events ≡ read_event)

  pub same-Good :
      {r q : Reactor os} → Good r → q.poller ≡ r.poller → q.connections ≡ r.connections → Good q
  same-Good {r} {q} g p c = record {
    tracked = rw p g.tracked;
    ready = λ id d e. rw p (g.ready id d (rw c at e));
    unused = λ id h e. rw p (g.unused id h (rw c at e));
    own = λ id h. rw (p, c) (g.own id h);
  }

  module _ {r : Reactor os} (g : Good r) (id : ℕ) (user : 2 ≤ id) (o : Outcome)
      (s : Settled os r.poller id o.0
        (tell os (asks o.1) id (set_channel os id o.0.channel r.poller))) where
    store_here : (commit os id o r).poller.store id ≡ set_index s.index o.0.channel
    unfolding commit
    store_here = s.placed.store id ∙ ground arith

    store_there : (j : ℕ) → (id == j) ≡ false → (commit os id o r).poller.store j ≡ r.poller.store j
    unfolding commit
    store_there j other = s.placed.store j ∙ rw other refl

    connections_there :
        (j : ℕ) → (id == j) ≡ false → (commit os id o r).connections j ≡ r.connections j
    unfolding commit
    connections_there j other = rw other refl

    store-Ready :
        (c : Connection)
        → (commit os id o r).connections id ≡ some c
        → Ready (loaded os (commit os id o r) id c)
    store-Ready c e =
        subst (λ (x : Connection). Ready (loaded os (commit os id o r) id x)) {x = o.0} {y = c}
          (unfold commit in ground (arith, e))
          (subst (λ (ch : Channel). Ready (record o.0 { channel = ch })) (sym store_here) s.ready)

    pub commit-Good : Good (commit os id o r)
    commit-Good = record {
      tracked = unfold commit in s.placed.tracked;
      ready = λ j c e. elim (Bool-cases (id == j)) [
        | inl same ↦
            let here : id ≡ j = ground arith in
            subst
              (λ k.
                (commit os id o r).connections k ≡ some c
                → Ready (loaded os (commit os id o r) k c))
              here (store-Ready c) e
        | inr other ↦
            subst (λ (ch : Channel). Ready (record c { channel = ch })) (sym (store_there j other))
              (g.ready j c (sym (connections_there j other) ∙ e))
      ];
      unused = λ j h e. elim (Bool-cases (id == j)) [
        | inl same ↦ absurd (unfold commit in ground (arith, e))
        | inr other ↦ rw (store_there j other) (g.unused j h (sym (connections_there j other) ∙ e))
      ];
      own = λ j h.
          let other : (id == j) ≡ false = ground arith in
          rw (connections_there j other, store_there j other) (g.own j h);
    }

  -- Only the user's channels have connections.
  user_channel :
      {r : Reactor os} → Good r → (id : ℕ) (c : Connection) → r.connections id ≡ some c → 2 ≤ id
  user_channel g id c e = ground (arith, g.own id, e)

  -- What an operation of a ready connection must do.
  abbrev pub Serves : Connection → Outcome → Type 0
  Serves c o = Inv o.0 × (rank c.state ≤ rank o.0.state) × Shape c o

  pub act-Good :
      {r : Reactor os} (id : ℕ) (f : Connection → Outcome)
      → Good r
      → ((c : Connection)
          → r.connections id ≡ some c
          → Ready (loaded os r id c)
          → Serves (loaded os r id c) (f (loaded os r id c)))
      → Good (act os id f r)
  unfolding act
  act-Good {r} id f g h = elim (Option-cases (r.connections id)) [
    | inl e ↦ rw (e, act) g
    | inr (c, e) ↦
        let v = g.ready id c e in
        let (w, later, shape) = h c e v in
        rw (e, act)
          (commit-Good g id (user_channel g id c e) (f (loaded os r id c))
            (tell-Settled os id (f (loaded os r id c)) g.tracked refl v w later shape))
  ]

  call-Serves :
      (a : ReadResult) (w : WriteResult) (cb : Callback) (c : Connection)
      → Ready c
      → Serves c (call a w cb c)
  unfolding call perform
  call-Serves a w close_callback c v =
      (perform-Inv closes c v.inv tt, rank-perform closes c, call-Shape a w close_callback c v.inv)
  call-Serves a w error_callback c v = (v.inv, omega arith, call-Shape a w error_callback c v.inv)
  call-Serves a w read_callback c v = (
    perform-Inv (readable a) c v.inv tt,
    rank-perform (readable a) c,
    call-Shape a w read_callback c v.inv,
  )
  call-Serves a w write_callback c v = (
    perform-Inv (writable w) c v.inv tt,
    rank-perform (writable w) c,
    call-Shape a w write_callback c v.inv,
  )

  call_back-Good :
      (a : Answers) (cbs : List Callback) (id : ℕ) {r : Reactor os}
      → Good r
      → Good (call_back os a cbs id r)
  unfolding call_back
  call_back-Good a [] id g = g
  call_back-Good a (cb ∷ cbs) id {r} g = call_back-Good a cbs id (
      act-Good id (call a.reads a.writes cb) g
        (λ c e v. call-Serves a.reads a.writes cb (loaded os r id c) v))

  own_callback-keeps :
      (a : Answers) (id : ℕ) (cb : Callback) (r : Reactor os)
      → ((own_callback os a id cb r).poller ≡ r.poller)
        × ((own_callback os a id cb r).connections ≡ r.connections)
  unfolding own_callback own_read
  own_callback-keeps a zero read_callback r = (refl, refl)
  own_callback-keeps a (suc zero) read_callback r = (refl, refl)
  own_callback-keeps a (suc (suc n)) read_callback r = (refl, refl)
  own_callback-keeps a id close_callback r = (refl, refl)
  own_callback-keeps a id error_callback r = (refl, refl)
  own_callback-keeps a id write_callback r = (refl, refl)

  own_callbacks-Good :
      (a : Answers) (id : ℕ) (cbs : List Callback) {r : Reactor os}
      → Good r
      → Good (own_callbacks os a id cbs r)
  unfolding own_callbacks
  own_callbacks-Good a id [] g = g
  own_callbacks-Good a id (cb ∷ cbs) {r} g =
      let (p, c) = own_callback-keeps a id cb r in own_callbacks-Good a id cbs (same-Good g p c)

  -- `handleEvent` of any channel keeps the whole good.
  pub handle-Good : (a : Answers) (id : ℕ) {r : Reactor os} → Good r → Good (handle os a id r)
  unfolding handle
  handle-Good a id {r} g =
      let cbs = handle_event true (r.poller.store id) in
      elim (Option-cases (r.connections id)) [
        | inl e ↦ rw (e, handle) (own_callbacks-Good a id cbs g)
        | inr (c, e) ↦ rw (e, handle) (call_back-Good a cbs id g)
      ]
