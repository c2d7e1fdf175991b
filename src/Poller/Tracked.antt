-- ===== src/Poller/Tracked.antt =====
-- The table and the kernel's interest list of net/poller/EpollPoller.cpp agree with the index of
-- every channel, and each request keeps them so.
use tiny_network_library.Base.{
  ℕ, ◌≡◌, sym, ◌∙◌, arith, false, Option, none, some, ◌==◌, if◌then◌else◌, Bool-cases, inl, inr,
  Bool, true,
}
use tiny_network_library.Channel.{Channel, Index, fresh, added, deleted}
use tiny_network_library.Poller.Kernel.{Epoll}
use tiny_network_library.Poller.{Poller}

-- What the table and the interest list hold for a channel with an index.
abbrev pub table_entry : Index → ℕ → Option ℕ
table_entry fresh id = none
table_entry added id = some id
table_entry deleted id = some id

abbrev pub interest_entry : Index → ℕ → Option ℕ
interest_entry fresh events = none
interest_entry added events = some events
interest_entry deleted events = none

abbrev pub is_fresh : Index → Bool
is_fresh fresh = true
is_fresh _ = false

module _ (os : Epoll) where
  open os use {Kernel, interest, ctl, ctl_add, ctl_modify, ctl_delete}

  pub record Tracked (p : Poller os) : Type 0 where
    pub distinct : (i j : ℕ) → (p.store i).fd ≡ (p.store j).fd → i ≡ j
    pub table : (j : ℕ) → p.channels (p.store j).fd ≡ table_entry (p.store j).index j
    pub list :
        (j : ℕ)
        → interest p.kernel (p.store j).fd ≡ interest_entry (p.store j).index (p.store j).events

  -- One channel `c` in the place of `id`, and the two tables changed at its descriptor alone.
  pub record Replaces (p : Poller os) (id : ℕ) (c : Channel) (q : Poller os) : Type 0 where
    pub same_fd : c.fd ≡ (p.store id).fd
    pub store : (j : ℕ) → q.store j ≡ (if id == j then c else p.store j)
    pub table :
        (fd : ℕ) → q.channels fd ≡ (if c.fd == fd then table_entry c.index id else p.channels fd)
    pub list :
        (fd : ℕ)
        → interest q.kernel fd
          ≡ (if c.fd == fd then interest_entry c.index c.events else interest p.kernel fd)

  module _ {p q : Poller os} {id : ℕ} {c : Channel} (t : Tracked p) (r : Replaces p id c q) where
    fd_after : (j : ℕ) → (q.store j).fd ≡ (p.store j).fd
    fd_after j = ground (arith, r.store j, r.same_fd)

    apart : (j : ℕ) → (id == j) ≡ false → (c.fd == (p.store j).fd) ≡ false
    apart j h = ground (arith, t.distinct id j, r.same_fd)

    table_after : (j : ℕ) → q.channels (q.store j).fd ≡ table_entry (q.store j).index j
    table_after j = elim (Bool-cases (id == j)) [
      | inl same ↦ ground (arith, r.store j, r.table (q.store j).fd)
      | inr other ↦ ground (arith, r.store j, r.table (q.store j).fd, apart j other, t.table j)
    ]

    list_after :
        (j : ℕ)
        → interest q.kernel (q.store j).fd ≡ interest_entry (q.store j).index (q.store j).events
    list_after j = elim (Bool-cases (id == j)) [
      | inl same ↦ ground (arith, r.store j, r.list (q.store j).fd)
      | inr other ↦ ground (arith, r.store j, r.list (q.store j).fd, apart j other, t.list j)
    ]

    pub Replaces-Tracked : Tracked q
    Replaces-Tracked = record {
      distinct = λ i j e. t.distinct i j (sym (fd_after i) ∙ e ∙ fd_after j);
      table = table_after;
      list = list_after;
    }
