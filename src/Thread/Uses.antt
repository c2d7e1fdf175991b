-- ===== src/Thread/Uses.antt =====
-- Which uses of a thread of base/Thread.cpp are safe, and the default names.
use tiny_network_library.Base.{
  ◌%◌, ◌^◌, subst, ℕ, ◌+◌, ◌<◌, ◌≤◌, ◌≡◌, refl, ap, sym, ◌∙◌, arith, true, false, none, some, List,
  [], ◌∷◌, ◌++◌, Bytes, codes, decimal, decimal_injective, ltb, lt→ltb, drop,
}
use tiny_network_library.Thread.{
  Handle, absent, joinable, over, Thread, print_int, next_number, new, start, join, destroy, Use,
  starts, joins, use_all,
}

abbrev pub start_count : List Use → ℕ
start_count [] = 0
start_count (starts ∷ us) = 1 + start_count us
start_count (joins ∷ us) = start_count us

-- The flags say what is left of the thread, as long as it is started once.
data Fits : Thread → ℕ → Type 0 where
  fresh :
      {n : Bytes} → Fits (record { started = false; joined = false; handle = absent; name = n }) 1
  runs :
      {n : Bytes} → Fits (record { started = true; joined = false; handle = joinable; name = n }) 0
  ended : {n : Bytes} → Fits (record { started = true; joined = true; handle = over; name = n }) 0

abbrev Safe : Thread → Type 0
Safe t = (h : Handle) × (destroy t ≡ some h)

Fits-Safe : {t : Thread} {k : ℕ} → Fits t k → Safe t
unfolding destroy
Fits-Safe fresh = (absent, refl)
Fits-Safe runs = (over, refl)
Fits-Safe ended = (over, refl)

same_thread : {t u : Thread} → some t ≡ some u → t ≡ u
same_thread e = cc

uses-Safe :
    (us : List Use) {t t' : Thread} {k : ℕ}
    → Fits t k
    → start_count us ≤ k
    → use_all us t ≡ some t'
    → Safe t'
unfolding use_all start join
uses-Safe [] f h e = subst (λ t. Safe t) (same_thread e) (Fits-Safe f)
uses-Safe (starts ∷ us) (fresh {n}) h e = uses-Safe us (runs {n = n}) (omega arith) e
uses-Safe (starts ∷ us) runs h e = absurd (omega arith)
uses-Safe (starts ∷ us) ended h e = absurd (omega arith)
uses-Safe (joins ∷ us) fresh h e = absurd cc
uses-Safe (joins ∷ us) (runs {n}) h e = uses-Safe us (ended {n = n}) h e
uses-Safe (joins ∷ us) ended h e = absurd cc

-- The destructor is safe: after any uses of a new thread that went well, with at most one `start`
-- among them, it neither ends the program nor uses a null pointer.
pub use_all-destroy :
    (created : ℕ) (name : Bytes) (us : List Use) {t : Thread}
    → start_count us ≤ 1
    → use_all us (new created name) ≡ some t
    → (h : Handle) × (destroy t ≡ some h)
unfolding new
use_all-destroy created name us h e = uses-Safe us fresh h e

-- A thread that is started again after a join runs, but `_joined` is still set: the destructor does not
-- join, and the program ends.
pub restart_terminates :
    (created : ℕ) (name : Bytes)
    → (t : Thread) × (use_all (starts ∷ joins ∷ starts ∷ []) (new created name) ≡ some t)
      × (destroy t ≡ none)
unfolding use_all start join destroy new
restart_terminates created name = (_, refl, refl)

default_name : (n : ℕ) → n < 2147483647 → (new n []).name ≡ codes "Thread " ++ decimal (n + 1)
unfolding new next_number print_int
default_name n h =
    let fits : (n + 1) % 2 ^ 32 ≡ n + 1 = omega arith in
    let small : ltb (n + 1) (2 ^ 31) ≡ true = lt→ltb (n + 1) (2 ^ 31) (omega arith) in
    rw (fits, small) refl

-- Two threads that were made without a name have different ones, below 2 ^ 31 - 1 threads.
pub default_names_differ :
    (m n : ℕ) → m < 2147483647 → n < 2147483647 → (new m []).name ≡ (new n []).name → m ≡ n
default_names_differ m n h k e =
    let same = sym (default_name m h) ∙ e ∙ default_name n k in
    let number = decimal_injective (m + 1) (n + 1) (ap (drop 7) same) in omega (arith, number)
