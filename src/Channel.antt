-- ===== src/Channel.antt =====
-- net/Channel.hpp and net/Channel.cpp: one descriptor, the events that its owner wants, and the
-- callbacks that a returned event leads to. `update` and `remove` go through the loop to the poller
-- (see Poller), so here a change of interest only computes the new event mask.
pub mod Events
use Prim.Native.Nat.{bit_and, bit_or}
use tiny_network_library.Base.{
  ℕ, ◌-◌, ◌^◌, ◌&&◌, ◌||◌, Bool, true, false, not, List, [], ◌∷◌, ◌++◌, ◌==◌, if◌then◌else◌,
}

-- The masks of <sys/epoll.h>.
abbrev pub epoll_in : ℕ
epoll_in = 1

abbrev pub epoll_pri : ℕ
epoll_pri = 2

abbrev pub epoll_out : ℕ
epoll_out = 4

abbrev pub epoll_err : ℕ
epoll_err = 8

abbrev pub epoll_hup : ℕ
epoll_hup = 16

abbrev pub none_event : ℕ
none_event = 0

abbrev pub read_event : ℕ
read_event = bit_or epoll_in epoll_pri

abbrev pub write_event : ℕ
write_event = epoll_out

-- `~m` on 32 bits.
abbrev pub complement : ℕ → ℕ
complement m = 2 ^ 32 - 1 - m

-- A test of bits, `x & m`.
abbrev pub has_bits : ℕ → ℕ → Bool
has_bits x m = not (bit_and x m == 0)

-- The values of `index`: kNew, kAdded and kDeleted of net/poller/EpollPoller.cpp.
pub data Index : Type 0 where
  fresh added deleted : Index

pub record Channel : Type 0 where
  pub fd : ℕ
  pub events : ℕ
  pub revents : ℕ
  pub index : Index
  pub tied : Bool
  pub has_read : Bool
  pub has_write : Bool
  pub has_close : Bool
  pub has_error : Bool

unfoldable pub new : ℕ → Channel
new fd = record {
  fd = fd;
  events = 0;
  revents = 0;
  index = fresh;
  tied = false;
  has_read = false;
  has_write = false;
  has_close = false;
  has_error = false;
}

unfoldable pub set_read_callback : Channel → Channel
set_read_callback c = record c { has_read = true }

unfoldable pub set_write_callback : Channel → Channel
set_write_callback c = record c { has_write = true }

unfoldable pub set_close_callback : Channel → Channel
set_close_callback c = record c { has_close = true }

unfoldable pub set_error_callback : Channel → Channel
set_error_callback c = record c { has_error = true }

unfoldable pub tie : Channel → Channel
tie c = record c { tied = true }

unfoldable pub set_revents : ℕ → Channel → Channel
set_revents r c = record c { revents = r }

unfoldable pub set_index : Index → Channel → Channel
set_index i c = record c { index = i }

-- The five changes of interest, each followed by `update()` in the source.
unfoldable pub enable_reading : Channel → Channel
enable_reading c = record c { events = bit_or c.events read_event }

unfoldable pub disable_reading : Channel → Channel
disable_reading c = record c { events = bit_and c.events (complement read_event) }

unfoldable pub enable_writing : Channel → Channel
enable_writing c = record c { events = bit_or c.events write_event }

unfoldable pub disable_writing : Channel → Channel
disable_writing c = record c { events = bit_and c.events (complement write_event) }

unfoldable pub disable_all : Channel → Channel
disable_all c = record c { events = bit_and c.events none_event }

unfoldable pub is_none_event : Channel → Bool
is_none_event c = c.events == none_event

unfoldable pub is_writing : Channel → Bool
is_writing c = has_bits c.events write_event

unfoldable pub is_reading : Channel → Bool
is_reading c = has_bits c.events read_event

-- The callbacks, in the order in which `handleEventWithGuard` calls them.
pub data Callback : Type 0 where
  close_callback error_callback read_callback write_callback : Callback

abbrev pub call_if : Bool → Callback → List Callback
call_if true cb = cb ∷ []
call_if false cb = []

unfoldable pub handle_event_with_guard : Channel → List Callback
handle_event_with_guard c =
    call_if (has_bits c.revents epoll_hup && not (has_bits c.revents epoll_in) && c.has_close)
      close_callback
    ++ (call_if (has_bits c.revents epoll_err && c.has_error) error_callback
        ++ (call_if (has_bits c.revents (bit_or epoll_in epoll_pri) && c.has_read) read_callback
            ++ call_if (has_bits c.revents epoll_out && c.has_write) write_callback))

-- `alive` says whether the weak pointer to the tied object can be locked.
unfoldable pub handle_event : Bool → Channel → List Callback
unfolding handle_event_with_guard
handle_event alive c =
    if c.tied then (if alive then handle_event_with_guard c else []) else handle_event_with_guard c
