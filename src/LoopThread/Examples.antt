-- ===== src/LoopThread/Examples.antt =====
-- The theorems on net/EventLoopThread.cpp at short runs.
use tiny_network_library.Base.{◌≡◌, refl, true, false, List, [], ◌∷◌}
use tiny_network_library.LoopThread.{
  looping, joining, new, thread_func, owner_step, Move, thread_moves, owner_moves, step, run,
}
use tiny_network_library.LoopThread.Handshake.{run_holding}
use tiny_network_library.LoopThread.Quit.{lost_quit}

-- The owner starts the thread, which shows its loop.
abbrev shown : List Move
shown = owner_moves ∷ thread_moves ∷ thread_moves ∷ owner_moves ∷ []

run_holding_example :
    ((run shown new).has_loop ≡ true)
    × ((run shown new).called_back ≡ true)
    × ((run shown new).loop.quitting ≡ false)
unfolding run step thread_func owner_step new
run_holding_example = run_holding shown refl

lost_quit_example :
    ((run (owner_moves ∷ thread_moves ∷ thread_moves ∷ []) (run shown new)).thread ≡ looping)
    × ((run (owner_moves ∷ thread_moves ∷ thread_moves ∷ []) (run shown new)).owner ≡ joining)
unfolding run step thread_func owner_step new
lost_quit_example = lost_quit shown (thread_moves ∷ []) refl refl

abbrev entered : List Move
entered = owner_moves ∷ thread_moves ∷ thread_moves ∷ owner_moves ∷ thread_moves ∷ []
