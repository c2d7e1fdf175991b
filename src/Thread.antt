-- ===== src/Thread.antt =====
-- base/Thread.hpp and base/Thread.cpp: the flags of a thread object and what is left of its
-- `std::thread`. An operation that ends the program, or that uses a null pointer, has no result.
pub mod Uses
mod Examples
use tiny_network_library.Base.{
  ℕ, ◌+◌, ◌-◌, ◌%◌, ◌^◌, Bool, true, false, not, ◌&&◌, Option, none, some, ◌>>=◌, List, [], ◌∷◌,
  ◌++◌, Bytes, codes, decimal, ltb, if◌then◌else◌,
}

-- The shared pointer is null, or the `std::thread` behind it is joinable or was joined.
pub data Handle : Type 0 where
  absent joinable over : Handle

pub record Thread : Type 0 where
  pub started : Bool
  pub joined : Bool
  pub handle : Handle
  pub name : Bytes

-- A 32-bit counter, as `int` prints it.
unfoldable pub print_int : ℕ → Bytes
print_int n = if ltb n (2 ^ 31) then decimal n else 45 ∷ decimal (2 ^ 32 - n)

-- `++_numCreated`.
unfoldable pub next_number : ℕ → ℕ
next_number created = (created + 1) % 2 ^ 32

abbrev pub name_or_default : Bytes → ℕ → Bytes
name_or_default [] n = codes "Thread " ++ print_int n
name_or_default (c ∷ s) n = c ∷ s

-- The constructor, when `created` threads were made before.
unfoldable pub new : ℕ → Bytes → Thread
unfolding next_number
new created name = record {
  started = false;
  joined = false;
  handle = absent;
  name = name_or_default name (next_number created);
}

-- The old `std::thread` is destroyed: that ends the program if it is joinable.
abbrev pub release : Handle → Option Handle
release absent = some absent
release joinable = none
release over = some over

unfoldable pub start : Thread → Option Thread
start t = do old ← release t.handle; some (record t { started = true; handle = joinable })

-- `std::thread::join` throws unless the thread is joinable.
abbrev pub join_handle : Handle → Option Handle
join_handle absent = none
join_handle joinable = some over
join_handle over = none

unfoldable pub join : Thread → Option Thread
join t = do h ← join_handle t.handle; some (record t { joined = true; handle = h })

-- The destructor, and then that of the shared pointer.
unfoldable pub destroy : Thread → Option Handle
destroy t = do
  h ← if t.started && not t.joined then join_handle t.handle else some t.handle
  release h

pub data Use : Type 0 where
  starts joins : Use

unfoldable pub use_all : List Use → Thread → Option Thread
unfolding start join
use_all [] t = some t
use_all (starts ∷ us) t = do t1 ← start t; use_all us t1
use_all (joins ∷ us) t = do t1 ← join t; use_all us t1
