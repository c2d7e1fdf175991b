-- ===== src/LoopPool.antt =====
-- net/EventLoopThreadPool.hpp and net/EventLoopThreadPool.cpp: the loops among which a server hands
-- out its connections. A loop is a number.
pub mod Range
mod Examples
use tiny_network_library.Base.{
  ℕ, zero, suc, ◌+◌, ◌≡◌, refl, ap, ◌∙◌, sym, arith, Bool, true, false, Option, none, some, List,
  [], ◌∷◌, ◌++◌, length, get_elem?, leb, if◌then◌else◌, append_assoc, length-append,
}

pub record LoopPool : Type 0 where
  pub base_loop : ℕ
  pub started : Bool
  pub num_threads : ℕ
  pub next : ℕ
  pub loops : List ℕ

unfoldable pub new : ℕ → LoopPool
new base = record { base_loop = base; started = false; num_threads = 0; next = 0; loops = [] }

unfoldable pub set_thread_num : ℕ → LoopPool → LoopPool
set_thread_num n p = record p { num_threads = n }

-- `startLoop()` of the i-th thread returns the loop `make i`.
unfoldable pub start_threads : (ℕ → ℕ) → ℕ → ℕ → List ℕ
start_threads make i zero = []
start_threads make i (suc n) = make i ∷ start_threads make (suc i) n

unfoldable pub start : (ℕ → ℕ) → LoopPool → LoopPool
unfolding start_threads
start make p = record p { started = true; loops = p.loops ++ start_threads make 0 p.num_threads }

-- The vector is read at `_next`; `none` is a read outside of it.
unfoldable pub next_of : List ℕ → LoopPool → Option (ℕ × LoopPool)
next_of [] p = some (p.base_loop, p)
next_of (x ∷ xs) p = elim (get_elem? (x ∷ xs) p.next) [
  | none ↦ none
  | some l ↦
      some (l, record p { next = if leb (length (x ∷ xs)) (p.next + 1) then 0 else p.next + 1 })
]

unfoldable pub get_next_loop : LoopPool → Option (ℕ × LoopPool)
unfolding next_of
get_next_loop p = next_of p.loops p

unfoldable pub all_loops_of : List ℕ → ℕ → List ℕ
all_loops_of [] base = base ∷ []
all_loops_of (x ∷ xs) base = x ∷ xs

unfoldable pub get_all_loops : LoopPool → List ℕ
unfolding all_loops_of
get_all_loops p = all_loops_of p.loops p.base_loop

-- A number of calls of `getNextLoop`.
unfoldable pub serve : ℕ → LoopPool → Option (List ℕ × LoopPool)
serve zero p = some ([], p)
serve (suc n) p = elim (get_next_loop p) [
  | none ↦ none
  | some (l, q) ↦ elim (serve n q) [ none ↦ none | some (ls, r) ↦ some (l ∷ ls, r) ]
]

get_elem?-middle : (xs ys : List ℕ) (y : ℕ) → get_elem? (xs ++ (y ∷ ys)) (length xs) ≡ some y
get_elem?-middle [] ys y = refl
get_elem?-middle (x ∷ xs) ys y = ground (arith, get_elem?-middle xs ys y)

abbrev after : ℕ → ℕ → ℕ
after size i = if leb size (i + 1) then 0 else i + 1

next_of_middle :
    (xs ys : List ℕ) (l : ℕ) (p : LoopPool)
    → next_of (xs ++ (l ∷ ys)) (record p { next = length xs })
      ≡ some (l, record p { next = after (length (xs ++ (l ∷ ys))) (length xs) })
unfolding next_of
next_of_middle [] ys l p = refl
next_of_middle (x ∷ xs) ys l p = rw (get_elem?-middle xs ys l) refl

serve-suc :
    (n : ℕ) (p q : LoopPool) {r : LoopPool} {l : ℕ} {ls : List ℕ}
    → get_next_loop p ≡ some (l, q)
    → serve n q ≡ some (ls, r)
    → serve (suc n) p ≡ some (l ∷ ls, r)
unfolding serve
serve-suc n p q h k = rw (h, k, serve)

-- The call at the loop `l`, with `xs` before it.
served :
    (xs ys : List ℕ) (l n : ℕ) (p : LoopPool)
    → p.loops ≡ xs ++ (l ∷ ys)
    → after (length (xs ++ (l ∷ ys))) (length xs) ≡ n
    → get_next_loop (record p { next = length xs }) ≡ some (l, record p { next = n })
unfolding get_next_loop
served xs ys l n p e h =
    ap (λ ls. next_of ls (record p { next = length xs })) e
    ∙ next_of_middle xs ys l p
    ∙ ap (λ m. some (l, record p { next = m })) h

serve_rest :
    (xs ys : List ℕ) (l : ℕ) (p : LoopPool)
    → p.loops ≡ xs ++ (l ∷ ys)
    → serve (length (l ∷ ys)) (record p { next = length xs }) ≡ some (l ∷ ys, record p { next = 0 })
serve_rest xs [] l p e =
    serve-suc 0 _ (record p { next = 0 })
      (served xs [] l 0 p e (ground (arith, length-append xs (l ∷ [])))) (unfold serve in refl)
serve_rest xs (y ∷ ys) l p e =
    let long = length-append xs (l ∷ y ∷ ys) in
    let more = length-append xs (l ∷ []) in
    serve-suc (length (y ∷ ys)) _ _
      (served xs (y ∷ ys) l (length (xs ++ (l ∷ []))) p e (ground (arith, long, more)))
      (serve_rest (xs ++ (l ∷ [])) ys y p (e ∙ sym (append_assoc xs (l ∷ []) (y ∷ ys))))

serve_all :
    (ls : List ℕ) (p : LoopPool)
    → p.loops ≡ ls
    → p.next ≡ 0
    → serve (length (all_loops_of ls p.base_loop)) p ≡ some (all_loops_of ls p.base_loop, p)
unfolding all_loops_of
serve_all [] p e z =
    serve-suc 0 p p (unfold get_next_loop next_of in ap (λ ls. next_of ls p) e)
      (unfold serve in refl)
serve_all (x ∷ xs) p e z =
    let same : record p { next = 0 } ≡ p = ap (λ n. record p { next = n }) (sym z) in
    ap (serve (length (x ∷ xs))) (sym same)
    ∙ serve_rest [] xs x p e
    ∙ ap (λ q. some (x ∷ xs, q)) same

-- Round robin: from the first loop on, as many calls of `getNextLoop` as there are loops, or one if
-- there are none, return every loop of `getAllLoops` once and in order, read none outside the
-- vector, and leave the pool as it was.
pub serve-get_all_loops :
    (p : LoopPool) → p.next ≡ 0 → serve (length (get_all_loops p)) p ≡ some (get_all_loops p, p)
unfolding get_all_loops
serve-get_all_loops p z = serve_all p.loops p refl z
