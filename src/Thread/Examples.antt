-- ===== src/Thread/Examples.antt =====
-- The theorems on base/Thread.cpp at threads that are started and joined.
use tiny_network_library.Base.{◌≡◌, refl, arith, some, [], ◌∷◌, codes, true, false}
use tiny_network_library.Thread.{Handle, Thread, new, start, destroy, starts, use_all, joinable}
use tiny_network_library.Thread.Uses.{use_all-destroy}

abbrev started : Thread
started = record { started = true; joined = false; handle = joinable; name = codes "worker" }

use_all-destroy_example : (h : Handle) × (destroy started ≡ some h)
unfolding use_all start new
use_all-destroy_example = use_all-destroy 3 (codes "worker") (starts ∷ []) (omega arith) refl
