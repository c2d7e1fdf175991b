-- ===== src/Poller/Update.antt =====
-- Each request of a channel keeps the poller's table, the kernel's interest list and the index of
-- every channel in agreement (net/poller/EpollPoller.cpp, net/poller/Poller.cpp).
use tiny_network_library.Base.{
  refl, ℕ, ◌≡◌, sym, subst, arith, false, none, some, ◌==◌, if◌then◌else◌, Bool-cases, inl, inr,
  true, not, ◌&&◌,
}
use tiny_network_library.Channel.{
  Channel, Index, fresh, added, deleted, set_index, is_none_event, enable_reading, disable_reading,
  enable_writing, disable_writing, disable_all,
}
use tiny_network_library.Poller.Kernel.{Epoll}
use tiny_network_library.Poller.{
  Poller, put, control, update_by, Control, with_index, add, modify, delete, update_channel,
  is_added, remove_channel, request, Request, has_channel, change, wants_reading, stops_reading,
  wants_writing, stops_writing, stops_all, removes,
}
use tiny_network_library.Poller.Tracked.{Tracked, Replaces, Replaces-Tracked, is_fresh}

-- The index that `updateChannel` leaves.
abbrev pub index_after : Channel → Index
index_after c = if is_added c.index && is_none_event c then deleted else added

module _ (os : Epoll) where
  open os use {Kernel, interest, ctl, ctl_add, ctl_modify, ctl_delete}

  control_lem :
      (op : Control) (id : ℕ) (p : Poller os) {k : Kernel}
      → ctl op (p.store id).fd (p.store id).events p.kernel ≡ some k
      → control os op id p ≡ record p { kernel = k }
  unfolding control
  control_lem op id p e = rw (e, control)

  -- The channel with its new events, before `update()`.
  module _ {p : Poller os} (t : Tracked os p) (id : ℕ) (c : Channel)
      (same_fd : c.fd ≡ (p.store id).fd) (same_index : c.index ≡ (p.store id).index) where
    changed : Poller os
    changed = record p { store = put id c p.store }

    here : put id c p.store id ≡ c
    here = ground arith

    update_fresh :
        c.index ≡ fresh
        → (q : Poller os) × (update_by os fresh id changed ≡ q)
          × Replaces os p id (set_index added c) q
    unfolding changed update_by set_index
    update_fresh e =
        let q0 =
          with_index os added id
            (record changed { channels = put (changed.store id).fd (some id) changed.channels }) in
        let (k, ok, law) =
          ctl_add (q0.store id).fd (q0.store id).events p.kernel (ground (arith, t.list id)) in
        (
          record q0 { kernel = k },
          control_lem add id q0 ok,
          record {
            same_fd = same_fd;
            store = λ j. ground arith;
            table = λ fd. ground arith;
            list = λ fd. ground (arith, law fd);
          },
        )

    -- The table already holds a channel that is not fresh.
    table_known :
        is_fresh c.index ≡ false
        → (fd : ℕ) → p.channels fd ≡ (if c.fd == fd then some id else p.channels fd)
    table_known known fd = ground (arith, t.table id)

    update_deleted :
        c.index ≡ deleted
        → (q : Poller os) × (update_by os deleted id changed ≡ q)
          × Replaces os p id (set_index added c) q
    unfolding changed update_by set_index
    update_deleted e =
        let q0 = with_index os added id changed in
        let (k, ok, law) =
          ctl_add (q0.store id).fd (q0.store id).events p.kernel (ground (arith, t.list id)) in
        (
          record q0 { kernel = k },
          control_lem add id q0 ok,
          record {
            same_fd = same_fd;
            store = λ j. ground arith;
            table = λ fd. table_known (ground arith) fd;
            list = λ fd. ground (arith, law fd);
          },
        )

    idle_step :
        {k : Kernel}
        → is_none_event c ≡ true
        → ctl delete (changed.store id).fd (changed.store id).events p.kernel ≡ some k
        → update_by os added id changed ≡ with_index os deleted id (record changed { kernel = k })
    unfolding changed update_by
    idle_step idle ok = rw (here, idle, control_lem delete id changed ok, here)

    busy_step :
        {k : Kernel}
        → is_none_event c ≡ false
        → ctl modify (changed.store id).fd (changed.store id).events p.kernel ≡ some k
        → update_by os added id changed ≡ record changed { kernel = k }
    unfolding changed update_by
    busy_step busy ok = rw (here, busy, control_lem modify id changed ok)

    update_idle :
        c.index ≡ added
        → is_none_event c ≡ true
        → (q : Poller os) × (update_by os added id changed ≡ q)
          × Replaces os p id (set_index deleted c) q
    unfolding changed update_by set_index
    update_idle e idle =
        let (k, ok, law) =
          ctl_delete (changed.store id).fd (changed.store id).events (p.store id).events p.kernel
            (ground (arith, t.list id)) in
        (
          with_index os deleted id (record changed { kernel = k }),
          idle_step idle ok,
          record {
            same_fd = same_fd;
            store = λ j. ground arith;
            table = λ fd. table_known (ground arith) fd;
            list = λ fd. ground (arith, law fd);
          },
        )

    update_busy :
        c.index ≡ added
        → is_none_event c ≡ false
        → (q : Poller os) × (update_by os added id changed ≡ q)
          × Replaces os p id (set_index added c) q
    unfolding changed update_by set_index
    update_busy e busy =
        let (k, ok, law) =
          ctl_modify (changed.store id).fd (changed.store id).events (p.store id).events p.kernel
            (ground (arith, t.list id)) in
        (
          record changed { kernel = k },
          busy_step busy ok,
          record {
            same_fd = same_fd;
            store = λ j. ground arith;
            table = λ fd. ground (arith, table_known (ground arith) fd);
            list = λ fd. ground (arith, law fd);
          },
        )

    -- `update()` never fails in the kernel, and changes only what concerns the channel: an added one that
    -- wants nothing is deleted, any other is added.
    with_after :
        (i : Index) {q : Poller os}
        → index_after c ≡ i
        → Replaces os p id (set_index i c) q
        → Replaces os p id (set_index (index_after c) c) q
    with_after i {q} e = subst (λ j. Replaces os p id (set_index j c) q) (sym e)

    update_by-Replaces :
        (i : Index)
        → c.index ≡ i
        → Replaces os p id (set_index (index_after c) c) (update_by os i id changed)
    unfolding is_none_event
    update_by-Replaces fresh e =
        let (q, done, r) = update_fresh e in rw done (with_after added (rw e refl) r)
    update_by-Replaces deleted e =
        let (q, done, r) = update_deleted e in rw done (with_after added (rw e refl) r)
    update_by-Replaces added e = elim (Bool-cases (is_none_event c)) [
      | inl idle ↦
          let (q, done, r) = update_idle e idle in
          rw done (with_after deleted (rw (e, idle) refl) r)
      | inr busy ↦
          let (q, done, r) = update_busy e busy in rw done (with_after added (rw (e, busy) refl) r)
    ]

    pub update_channel-Replaces :
        Replaces os p id
          (set_index (index_after c) c)
          (update_channel os id (record p { store = put id c p.store }))
    unfolding update_channel changed
    update_channel-Replaces = rw (here, update_channel) (update_by-Replaces c.index refl)

    -- Afterwards table, list and index are in agreement.
    pub update_channel-Tracked :
        Tracked os (update_channel os id (record p { store = put id c p.store }))
    update_channel-Tracked = Replaces-Tracked os t update_channel-Replaces

  module _ {p : Poller os} (t : Tracked os p) (id : ℕ) where
    abbrev without : Poller os
    without = record p { channels = put (p.store id).fd none p.channels }

    remove_plain : is_added (p.store id).index ≡ false → Tracked os (with_index os fresh id without)
    unfolding set_index
    remove_plain e = Replaces-Tracked os {id = id} {c = set_index fresh (p.store id)} t (record {
      same_fd = refl;
      store = λ j. ground arith;
      table = λ fd. ground arith;
      list = λ fd. ground (arith, t.list id);
    })

    remove_added :
        {k : Kernel}
        → ctl delete (p.store id).fd (p.store id).events p.kernel ≡ some k
        → ((fd : ℕ)
            → interest k fd ≡ (if (p.store id).fd == fd then none else interest p.kernel fd))
        → Tracked os (with_index os fresh id (control os delete id without))
    unfolding set_index
    remove_added {k} ok law = rw (control_lem delete id without ok) (
        Replaces-Tracked os {id = id} {c = set_index fresh (p.store id)} t (record {
          same_fd = refl;
          store = λ j. ground arith;
          table = λ fd. ground arith;
          list = λ fd. ground (arith, law fd);
        }))

    pub remove_channel-Tracked : Tracked os (remove_channel os id p)
    unfolding remove_channel
    remove_channel-Tracked = elim (Bool-cases (is_added (p.store id).index)) [
      | inr plain ↦ rw plain (remove_plain plain)
      | inl held ↦
          let (k, ok, law) =
            ctl_delete (p.store id).fd (p.store id).events (p.store id).events p.kernel
              (ground (arith, t.list id)) in
          rw held (remove_added ok law)
    ]

  -- Every request of a channel (a change of interest followed by `update()`, or `remove()`) keeps the
  -- agreement: a fresh channel is in neither table, an added one is in the poller's table and in the
  -- kernel's list with exactly the events that it wants, a deleted one in the poller's table only.
  pub request-Tracked :
      (r : Request) (id : ℕ) {p : Poller os} → Tracked os p → Tracked os (request os r id p)
  unfolding request enable_reading disable_reading enable_writing disable_writing disable_all
  request-Tracked wants_reading id {p} t =
      update_channel-Tracked t id (change wants_reading (p.store id)) refl refl
  request-Tracked stops_reading id {p} t =
      update_channel-Tracked t id (change stops_reading (p.store id)) refl refl
  request-Tracked wants_writing id {p} t =
      update_channel-Tracked t id (change wants_writing (p.store id)) refl refl
  request-Tracked stops_writing id {p} t =
      update_channel-Tracked t id (change stops_writing (p.store id)) refl refl
  request-Tracked stops_all id {p} t =
      update_channel-Tracked t id (change stops_all (p.store id)) refl refl
  request-Tracked removes id t = remove_channel-Tracked t id

  -- `hasChannel` answers yes exactly for the channels that are not fresh.
  pub has_channel_lem :
      {p : Poller os}
      → Tracked os p
      → (id : ℕ) → has_channel os id p ≡ not (is_fresh (p.store id).index)
  unfolding has_channel
  has_channel_lem t id = ground (arith, t.table id)
