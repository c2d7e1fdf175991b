-- ===== src/Timers/Order.antt =====
-- The order of the entries in timer/TimerQueue.cpp.
use tiny_network_library.Base.{
  ℕ, ◌≡◌, refl, arith, true, false, List, [], ◌∷◌, All, Bool-cases, inl, inr, some, Option, none,
  if◌then◌else◌,
}
use tiny_network_library.Clock.{Timestamp}
use tiny_network_library.Timers.{Entry, entry_lt, insert_entry, TimerQueue, insert, is_earlier}

-- Each entry comes before all that follow it, as in a `std::set`.
abbrev pub IsSorted : List Entry → Type 0
IsSorted [] = Unit
IsSorted (e ∷ es) = All (λ x. entry_lt e x ≡ true) es × IsSorted es

pub entry_lt_trans :
    (a b c : Entry) → entry_lt a b ≡ true → entry_lt b c ≡ true → entry_lt a c ≡ true
entry_lt_trans a b c h k = ground arith

pub entry_lt_total : (a b : Entry) → entry_lt a b ≡ false → entry_lt b a ≡ false → a ≡ b
entry_lt_total a b h k = ground arith

All-after :
    (a b : Entry) (es : List Entry)
    → entry_lt a b ≡ true
    → All (λ x. entry_lt b x ≡ true) es
    → All (λ x. entry_lt a x ≡ true) es
All-after a b [] h k = tt
All-after a b (x ∷ es) h (k, ks) = (entry_lt_trans a b x h k, All-after a b es h ks)

pub All-insert_entry :
    (P : Entry → Type 0) (e : Entry) (es : List Entry) → P e → All P es → All P (insert_entry e es)
unfolding insert_entry
All-insert_entry P e [] h k = (h, tt)
All-insert_entry P e (x ∷ es) h (k, ks) = elim (Bool-cases (entry_lt e x)) [
  | inl less ↦ rw less (h, (k, ks))
  | inr no' ↦ elim (Bool-cases (entry_lt x e)) [
    | inl more ↦ rw (no', more) (k, All-insert_entry P e es h ks)
    | inr same ↦ rw (no', same) (k, ks)
  ]
]

pub insert_entry-IsSorted :
    (e : Entry) (es : List Entry) → IsSorted es → IsSorted (insert_entry e es)
unfolding insert_entry
insert_entry-IsSorted e [] s = (tt, tt)
insert_entry-IsSorted e (x ∷ es) (after, s) = elim (Bool-cases (entry_lt e x)) [
  | inl less ↦ rw less ((less, All-after e x es less after), (after, s))
  | inr no' ↦ elim (Bool-cases (entry_lt x e)) [
    | inl more ↦
        rw (no', more)
          (
            All-insert_entry (λ y. entry_lt x y ≡ true) e es more after,
            insert_entry-IsSorted e es s,
          )
    | inr same ↦ rw (no', same) (after, s)
  ]
]

-- The time of the first entry.
abbrev pub first_time : List Entry → Option Timestamp
first_time [] = none
first_time (x ∷ es) = some x.when

-- `insert` keeps the entries in order, and it answers yes where the new time becomes the earliest,
-- and no where the earliest time stays as it was.
pub insert_earliest :
    (id : ℕ) (when : Timestamp) (q : TimerQueue)
    → IsSorted q.entries
    → IsSorted (insert id when q).1.entries
      × (first_time (insert id when q).1.entries
          ≡ (if (insert id when q).0 then some when else first_time q.entries))
unfolding insert
insert_earliest id when q s =
    let e : Entry = record { when = when; timer = id } in
    (insert_entry-IsSorted e q.entries s, first_lem q.entries)
  where
    first_lem :
        (es : List Entry)
        → first_time (insert_entry (record { when = when; timer = id }) es)
          ≡ (if is_earlier when es then some when else first_time es)
    first_lem [] = unfold insert_entry in refl
    first_lem (x ∷ es) = unfold insert_entry in ground arith
