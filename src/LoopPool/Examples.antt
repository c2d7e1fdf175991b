-- ===== src/LoopPool/Examples.antt =====
-- The theorem on net/EventLoopThreadPool.cpp with two loops.
use tiny_network_library.Base.{◌≡◌, refl, true, some, [], ◌∷◌}
use tiny_network_library.LoopPool.{
  LoopPool, serve, get_all_loops, serve-get_all_loops, all_loops_of,
}

abbrev sample : LoopPool
sample = record { base_loop = 9; started = true; num_threads = 2; next = 0; loops = 4 ∷ 5 ∷ [] }

serve-get_all_loops_example : serve 2 sample ≡ some (4 ∷ 5 ∷ [], sample)
unfolding get_all_loops all_loops_of
serve-get_all_loops_example = serve-get_all_loops sample refl
