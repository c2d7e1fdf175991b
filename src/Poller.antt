-- ===== src/Poller.antt =====
-- net/poller/: the poller's table of channels and the kernel's interest list. The kernel is an
-- interface; the channels are a store, from the channel's identity (its address) to its fields.
pub mod Kernel
pub mod Tracked
pub mod Update
pub mod Active
pub mod Histories
pub mod Tables
mod Examples
use tiny_network_library.Base.{
  ℕ, ◌*◌, ◌≡◌, Bool, true, false, List, [], ◌∷◌, Option, none, some, length, ◌==◌, if◌then◌else◌,
}
use tiny_network_library.Channel.{
  Channel, Index, fresh, added, deleted, set_index, set_revents, is_none_event, enable_reading,
  disable_reading, enable_writing, disable_writing, disable_all,
}
use Kernel.{Epoll, Control, add, modify, delete}

-- A table of numbers to values.
abbrev pub Table : Type 0 → Type 0
Table A = ℕ → Option A

abbrev pub put {ℓ} : {A : Type ℓ} → ℕ → A → (ℕ → A) → ℕ → A
put k v m j = if k == j then v else m j

abbrev pub is_added : Index → Bool
is_added added = true
is_added _ = false

-- The members of Channel that end in `update()` or `remove()`.
pub data Request : Type 0 where
  wants_reading stops_reading wants_writing stops_writing stops_all removes : Request

abbrev pub change : Request → Channel → Channel
change wants_reading c = enable_reading c
change stops_reading c = disable_reading c
change wants_writing c = enable_writing c
change stops_writing c = disable_writing c
change stops_all c = disable_all c
change removes c = c

-- What `epoll_wait` answers: the events in the order in which they stand in its array, each with the
-- channel behind its pointer (`none` is the null pointer) and the returned mask; an empty list is
-- the timeout.
pub data WaitResult : Type 0 where
  wait_failed : WaitResult
  happened : List (Option ℕ × ℕ) → WaitResult

-- kInitEventListSize.
abbrev pub init_event_list_size : ℕ
init_event_list_size = 16

module _ (os : Epoll) where
  open os use {Kernel, ctl}

  -- The poller, with the channels that it and the loop point at.
  pub record Poller : Type 0 where
    pub kernel : Kernel
    pub channels : Table ℕ
    pub store : ℕ → Channel
    pub capacity : ℕ

  -- `epoll_ctl`: a failure is logged, and nothing else happens.
  unfoldable pub control : Control → ℕ → Poller → Poller
  control op id p = elim (ctl op (p.store id).fd (p.store id).events p.kernel) [
    | none ↦ p
    | some k ↦ record p { kernel = k }
  ]

  abbrev pub with_index : Index → ℕ → Poller → Poller
  with_index i id p = record p { store = put id (set_index i (p.store id)) p.store }

  unfoldable pub update_by : Index → ℕ → Poller → Poller
  unfolding control
  update_by fresh id p =
      control add id
        (with_index added id (record p { channels = put (p.store id).fd (some id) p.channels }))
  update_by deleted id p = control add id (with_index added id p)
  update_by added id p =
      if is_none_event (p.store id)
      then with_index deleted id (control delete id p)
      else control modify id p

  unfoldable pub update_channel : ℕ → Poller → Poller
  unfolding update_by
  update_channel id p = update_by (p.store id).index id p

  unfoldable pub remove_channel : ℕ → Poller → Poller
  unfolding control
  remove_channel id p =
      let p1 = record p { channels = put (p.store id).fd none p.channels } in
      with_index fresh id (if is_added (p.store id).index then control delete id p1 else p1)

  unfoldable pub has_channel : ℕ → Poller → Bool
  has_channel id p = elim (p.channels (p.store id).fd) [ none ↦ false | some j ↦ j == id ]

  unfoldable pub request : Request → ℕ → Poller → Poller
  unfolding update_channel remove_channel
  request removes id p = remove_channel id p
  request r id p = update_channel id (record p { store = put id (change r (p.store id)) p.store })

  -- The loop of `fillActiveChannels`: a null pointer is logged and passed over.
  unfoldable pub fill_active_channels : List (Option ℕ × ℕ) → Poller → Poller × List ℕ
  fill_active_channels [] p = (p, [])
  fill_active_channels ((none, mask) ∷ es) p = fill_active_channels es p
  fill_active_channels ((some id, mask) ∷ es) p =
      let p1 = record p { store = put id (set_revents mask (p.store id)) p.store } in
      let (p2, active) = fill_active_channels es p1 in (p2, id ∷ active)

  -- The event array is doubled when it was filled.
  unfoldable pub poll : WaitResult → Poller → Poller × List ℕ
  poll wait_failed p = (p, [])
  poll (happened []) p = (p, [])
  poll (happened (e ∷ es)) p =
      let (p1, active) = fill_active_channels (e ∷ es) p in
      (
        record p1 {
          capacity = if length (e ∷ es) == p1.capacity then p1.capacity * 2 else p1.capacity;
        },
        active,
      )
