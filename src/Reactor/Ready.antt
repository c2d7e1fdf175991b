-- ===== src/Reactor/Ready.antt =====
-- A connection of net/TcpConnection.cpp in the loop: its channel and the poller after an operation.
use tiny_network_library.Base.{
  ℕ, ◌≤◌, ◌≡◌, ◌⊎◌, refl, ◌∙◌, arith, true, false, ◌==◌, Bool-cases, inl, inr,
}
use tiny_network_library.Channel.{
  Channel, Index, fresh, added, set_index, is_reading, is_none_event, is_writing,
}
use tiny_network_library.Connection.{Connection, Outcome}
use tiny_network_library.Connection.Effects.{Inv}
use tiny_network_library.Connection.Lifecycle.{rank}
use tiny_network_library.Poller.Kernel.{Epoll}
use tiny_network_library.Poller.{Poller}
use tiny_network_library.Poller.Tracked.{Tracked}
use tiny_network_library.Poller.Update.{index_after}
use tiny_network_library.Reactor.{asks, tell, set_channel}
use tiny_network_library.Reactor.Asks.{Shape, Changes, quiet, told, removed, left}
use tiny_network_library.Reactor.Placed.{
  Placed, nothing-Placed, updates-Placed, removes-Placed, leaves-Placed,
}

-- The buffer and the interest in writing agree; until it is disconnected the connection wants to read, and
-- its channel is not taken from the kernel's list but by `remove`, which does not happen while it is
-- connected.
pub record Ready (c : Connection) : Type 0 where
  pub inv : Inv c
  pub begun : 1 ≤ rank c.state
  pub reading : rank c.state ≤ 2 → is_reading c.channel ≡ true
  pub kept : rank c.state ≤ 2 → (c.channel.index ≡ added) ⊎ (c.channel.index ≡ fresh)
  pub held : rank c.state ≤ 1 → c.channel.index ≡ added

-- The connection `d` with its channel at index `i`.
abbrev pub at_index : Index → Connection → Connection
at_index i d = record d { channel = set_index i d.channel }

at_index-Inv : (i : Index) {d : Connection} → Inv d → Inv (at_index i d)
unfolding set_index
at_index-Inv i v = record {
  sound = v.sound;
  mask = v.mask;
  interest = unfold is_writing in v.interest;
}

-- A channel that wants to read wants something.
reading_some : (c : Channel) → is_reading c ≡ true → is_none_event c ≡ false
unfolding is_reading is_none_event
reading_some c h = elim (Bool-cases (c.events == 0)) [
  | inr some' ↦ some'
  | inl none' ↦ absurd (ground (arith, h))
]

index_after-added : (c : Channel) → is_reading c ≡ true → index_after c ≡ added
index_after-added c h = rw (reading_some c h) (ground arith)

module _ {c : Connection} (v : Ready c) {d : Connection} (w : Inv d)
    (later : rank c.state ≤ rank d.state) where
  quiet-Ready : d.channel ≡ c.channel → Ready (at_index d.channel.index d)
  unfolding set_index
  quiet-Ready e = record {
    inv = at_index-Inv d.channel.index w;
    begun = omega (arith, v.begun);
    reading = λ h. rw e (v.reading (omega arith));
    kept = λ h. rw e (v.kept (omega arith));
    held = λ h. rw e (v.held (omega arith));
  }

  told-Ready : Changes c d → Ready (at_index (index_after d.channel) d)
  unfolding set_index
  told-Ready k =
      let reads : rank d.state ≤ 2 → is_reading d.channel ≡ true =
        λ h. k.reading h ∙ v.reading (omega arith) in
      record {
        inv = at_index-Inv (index_after d.channel) w;
        begun = omega (arith, v.begun);
        reading = λ h. unfold is_reading in reads h;
        kept = λ h. inl (index_after-added d.channel (reads h));
        held = λ h. index_after-added d.channel (reads (omega arith));
      }

  removed-Ready : d.channel ≡ c.channel → 2 ≤ rank d.state → Ready (at_index fresh d)
  unfolding set_index
  removed-Ready e over = record {
    inv = at_index-Inv fresh w;
    begun = omega (arith, v.begun);
    reading = λ h. unfold is_reading in rw e (v.reading (omega arith));
    kept = λ h. inr refl;
    held = λ h. absurd (omega arith);
  }

  left-Ready : 3 ≤ rank d.state → Ready (at_index fresh d)
  unfolding set_index
  left-Ready over = record {
    inv = at_index-Inv fresh w;
    begun = omega (arith, v.begun);
    reading = λ h. absurd (omega arith);
    kept = λ h. inr refl;
    held = λ h. absurd (omega arith);
  }

module _ (os : Epoll) where
  -- What an operation leaves: the channel in the poller's store, and a connection that is ready with it.
  pub record Settled (p : Poller os) (id : ℕ) (d : Connection) (q : Poller os) : Type 0 where
    pub index : Index
    pub placed : Placed os p id index d.channel q
    pub ready : Ready (at_index index d)

  pub tell-Settled :
      {p : Poller os} {c : Connection} (id : ℕ) (r : Outcome)
      → Tracked os p
      → c.channel ≡ p.store id
      → Ready c
      → Inv r.0
      → rank c.state ≤ rank r.0.state
      → Shape c r
      → Settled p id r.0 (tell os (asks r.1) id (set_channel os id r.0.channel p))
  tell-Settled id r t same v w later (quiet e h) = rw e (record {
    index = r.0.channel.index;
    placed = nothing-Placed os t id r.0.channel (h ∙ same);
    ready = quiet-Ready v w later h;
  })
  tell-Settled id r t same v w later (told e k) = rw e (record {
    index = index_after r.0.channel;
    placed = updates-Placed os t id r.0.channel (rw (k.fd, same) refl) (rw (k.index, same) refl);
    ready = told-Ready v w later k;
  })
  tell-Settled id r t same v w later (removed e h over) = rw e (record {
    index = fresh;
    placed = removes-Placed os t id r.0.channel (h ∙ same);
    ready = removed-Ready v w later h over;
  })
  tell-Settled id r t same v w later (left e k over) = rw e (record {
    index = fresh;
    placed = leaves-Placed os t id r.0.channel (rw (k.fd, same) refl) (rw (k.index, same) refl);
    ready = left-Ready v w later over;
  })
