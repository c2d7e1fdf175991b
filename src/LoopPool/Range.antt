-- ===== src/LoopPool/Range.antt =====
-- The index of net/EventLoopThreadPool.cpp stays within the vector of loops.
use tiny_network_library.Base.{
  ℕ, zero, suc, ◌+◌, ◌<◌, ◌≡◌, refl, arith, some, List, [], ◌∷◌, length, get_elem?, leb,
  if◌then◌else◌,
}
use tiny_network_library.LoopPool.{LoopPool, next_of, get_next_loop, all_loops_of}

abbrev pub InRange : LoopPool → Type 0
InRange p = p.next < length (all_loops_of p.loops p.base_loop)

get_elem?-some : (xs : List ℕ) (i : ℕ) → i < length xs → (x : ℕ) × (get_elem? xs i ≡ some x)
get_elem?-some [] i h = absurd (omega arith)
get_elem?-some (x ∷ xs) zero h = (x, refl)
get_elem?-some (x ∷ xs) (suc i) h = get_elem?-some xs i (omega arith)

next_of-some :
    (ls : List ℕ) (p : LoopPool)
    → p.next < length (all_loops_of ls p.base_loop)
    → (l : ℕ) × (n : ℕ) × (next_of ls p ≡ some (l, record p { next = n }))
      × (n < length (all_loops_of ls p.base_loop))
unfolding next_of all_loops_of
next_of-some [] p h = (p.base_loop, p.next, refl, h)
next_of-some (x ∷ xs) p h =
    let (l, e) = get_elem?-some (x ∷ xs) p.next h in
    (
      l,
      if leb (length (x ∷ xs)) (p.next + 1) then 0 else p.next + 1,
      rw (e, next_of) refl,
      ground arith,
    )

-- A call of `getNextLoop` returns a loop and moves the index within the vector.
pub get_next_loop-some :
    (p : LoopPool)
    → InRange p
    → (l : ℕ) × (n : ℕ) × (get_next_loop p ≡ some (l, record p { next = n }))
      × InRange (record p { next = n })
unfolding get_next_loop
get_next_loop-some p h = next_of-some p.loops p h
