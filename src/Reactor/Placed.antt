-- ===== src/Reactor/Placed.antt =====
-- `updateChannel` and `removeChannel` of net/EventLoop.cpp for a channel that has just changed: the poller
-- afterwards.
use tiny_network_library.Base.{
  ℕ, ◌≡◌, refl, sym, ap, ◌∙◌, arith, [], ◌∷◌, none, ◌==◌, if◌then◌else◌, Bool-cases, Option-cases,
  inl, inr,
}
use tiny_network_library.Channel.{Channel, Index, fresh, set_index}
use tiny_network_library.Poller.Kernel.{Epoll, Control, delete}
use tiny_network_library.Poller.{Poller, put, control, is_added, remove_channel}
use tiny_network_library.Poller.Tracked.{Tracked}
use tiny_network_library.Poller.Update.{
  index_after, update_channel-Replaces, update_channel-Tracked, remove_channel-Tracked,
}
use tiny_network_library.Reactor.{updates, removes, tell, set_channel}

module _ (os : Epoll) where
  open os use {ctl}

  -- The poller `q` holds `d` with index `i` in the place of `id`, and is else in agreement.
  pub record Placed (p : Poller os) (id : ℕ) (i : Index) (d : Channel) (q : Poller os)
      : Type 0 where
    pub tracked : Tracked os q
    pub store : (j : ℕ) → q.store j ≡ (if id == j then set_index i d else p.store j)

  same-Tracked :
      {p q : Poller os}
      → Tracked os p
      → q.kernel ≡ p.kernel
      → q.channels ≡ p.channels
      → ((j : ℕ) → q.store j ≡ p.store j)
      → Tracked os q
  same-Tracked t k cs s = record {
    distinct = λ i j e.
        t.distinct i j
          (ap (λ (c : Channel). c.fd) (sym (s i)) ∙ e ∙ ap (λ (c : Channel). c.fd) (s j));
    table = λ j. rw (cs, s j) (t.table j);
    list = λ j. rw (k, s j) (t.list j);
  }

  store-control : (op : Control) (id : ℕ) (p : Poller os) → (control os op id p).store ≡ p.store
  unfolding control
  store-control op id p =
      elim (Option-cases (ctl op (p.store id).fd (p.store id).events p.kernel)) [
        | inl e ↦ rw (e, control) refl
        | inr (k, e) ↦ rw (e, control) refl
      ]

  store-remove_channel :
      (id : ℕ) (p : Poller os) (j : ℕ)
      → (remove_channel os id p).store j
        ≡ (if id == j then set_index fresh (p.store id) else p.store j)
  unfolding remove_channel
  store-remove_channel id p j =
      let p1 : Poller os = record p { channels = put (p.store id).fd none p.channels } in
      elim (Bool-cases (is_added (p.store id).index)) [
        | inl held ↦ rw (held, store-control delete id p1) refl
        | inr plain ↦ rw plain refl
      ]

  module _ {p : Poller os} (t : Tracked os p) (id : ℕ) (d : Channel) where
    -- Nothing is asked, and the channel is as it was.
    pub nothing-Placed :
        d ≡ p.store id → Placed p id d.index d (tell os [] id (set_channel os id d p))
    unfolding tell set_channel set_index
    nothing-Placed e = record {
      tracked = same-Tracked t refl refl (λ j. elim (Bool-cases (id == j)) [
        | inl same ↦ ground (arith, e)
        | inr other ↦ rw other refl
      ]);
      store =
          λ j. elim (Bool-cases (id == j)) [ inl same ↦ rw same refl | inr other ↦ rw other refl ];
    }

    pub updates-Placed :
        d.fd ≡ (p.store id).fd
        → d.index ≡ (p.store id).index
        → Placed p id (index_after d) d (tell os (updates ∷ []) id (set_channel os id d p))
    unfolding tell set_channel
    updates-Placed f i = record {
      tracked = update_channel-Tracked os t id d f i;
      store = (update_channel-Replaces os t id d f i).store;
    }

    removed-Placed :
        (i : Index) (q : Poller os)
        → Placed p id i d q
        → Placed p id fresh d (remove_channel os id q)
    unfolding set_index
    removed-Placed i q h = record {
      tracked = remove_channel-Tracked os h.tracked id;
      store = λ j. elim (Bool-cases (id == j)) [
        | inl same ↦ rw same (store-remove_channel id q j ∙ rw same (ground (arith, h.store id)))
        | inr other ↦ rw other (store-remove_channel id q j ∙ rw other (ground (arith, h.store j)))
      ];
    }

    pub removes-Placed :
        d ≡ p.store id → Placed p id fresh d (tell os (removes ∷ []) id (set_channel os id d p))
    unfolding tell
    removes-Placed e = removed-Placed d.index _ (nothing-Placed e)

    pub leaves-Placed :
        d.fd ≡ (p.store id).fd
        → d.index ≡ (p.store id).index
        → Placed p id fresh d (tell os (updates ∷ removes ∷ []) id (set_channel os id d p))
    unfolding tell
    leaves-Placed f i = removed-Placed (index_after d) _ (updates-Placed f i)
