-- ===== src/Server/Objects.antt =====
-- Lookups in the objects, the table and the waiting functors of net/TcpServer.cpp.
use tiny_network_library.Base.{
  ℕ, ◌+◌, ◌≡◌, refl, sym, arith, ◌&&◌, Bool, true, false, none, some, List, [], ◌∷◌, ◌++◌, Bytes,
  bytes_eq, bytes_eq_refl, bytes_eq_sound, ◌==◌, Bool-cases, Option-cases, inl, inr,
}
use tiny_network_library.Server.{
  Kind, listens, establishes, removes, destroys, Task, Object, object_at, update_object, find_name,
  erase_name, assign_name, take_task, ObjectMap, ConnectionMap,
}

pub object_at-update_same :
    (i : ℕ) (f : Object → Object) (os : ObjectMap) {o : Object}
    → object_at i os ≡ some o
    → object_at i (update_object i f os) ≡ some (f o)
object_at-update_same i f [] h = cc
object_at-update_same i f ((j, o) ∷ os) h = elim (Bool-cases (i == j)) [
  | inl same ↦ ground (arith, same, h)
  | inr other ↦ ground (arith, other, h, object_at-update_same i f os (rw other at h))
]

pub object_at-update_other :
    (i j : ℕ) (f : Object → Object) (os : ObjectMap)
    → (j == i) ≡ false
    → object_at j (update_object i f os) ≡ object_at j os
object_at-update_other i j f [] h = refl
object_at-update_other i j f ((k, o) ∷ os) h = ground (arith, h, object_at-update_other i j f os h)

pub find_name-erase_same : (n : Bytes) (t : ConnectionMap) → find_name n (erase_name n t) ≡ none
unfolding erase_name
find_name-erase_same n [] = refl
find_name-erase_same n ((m, i) ∷ t) = ground (arith, find_name-erase_same n t)

pub find_name-erase_other :
    (n m : Bytes) (t : ConnectionMap)
    → bytes_eq n m ≡ false
    → find_name n (erase_name m t) ≡ find_name n t
unfolding erase_name
find_name-erase_other n m [] h = refl
find_name-erase_other n m ((k, i) ∷ t) h = elim (Bool-cases (bytes_eq m k)) [
  | inr no' ↦ rw no' (rw (find_name-erase_other n m t h) refl)
  | inl same ↦
      let apart : bytes_eq n k ≡ false = rw (sym (bytes_eq_sound m k same)) h in
      rw (same, apart) (find_name-erase_other n m t h)
]

pub find_name-assign_same :
    (n : Bytes) (i : ℕ) (t : ConnectionMap) → find_name n (assign_name n i t) ≡ some i
unfolding assign_name
find_name-assign_same n i t = rw (bytes_eq_refl n) refl

pub find_name-assign_other :
    (n m : Bytes) (i : ℕ) (t : ConnectionMap)
    → bytes_eq n m ≡ false
    → find_name n (assign_name m i t) ≡ find_name n t
unfolding assign_name
find_name-assign_other n m i t h = rw h (find_name-erase_other n m t h)

abbrev pub same_kind : Kind → Kind → Bool
same_kind listens listens = true
same_kind establishes establishes = true
same_kind removes removes = true
same_kind destroys destroys = true
same_kind _ _ = false

-- How many functors of a kind wait for a connection.
abbrev pub one_if : Bool → ℕ
one_if true = 1
one_if false = 0

abbrev pub matches : Kind → ℕ → Task → Bool
matches k i t = same_kind k t.kind && i == t.conn

abbrev pub count : Kind → ℕ → List Task → ℕ
count k i [] = 0
count k i (t ∷ ts) = one_if (matches k i t) + count k i ts

pub count-append :
    (k : Kind) (i : ℕ) (ts us : List Task) → count k i (ts ++ us) ≡ count k i ts + count k i us
count-append k i [] us = omega arith
count-append k i (t ∷ ts) us = omega (arith, count-append k i ts us)

-- A functor that a loop takes is missing in the others.
pub count-take_task :
    (loop : ℕ) (k : Kind) (i : ℕ) (ts : List Task) {t : Task} {rest : List Task}
    → take_task loop ts ≡ some (t, rest)
    → count k i ts ≡ one_if (matches k i t) + count k i rest
count-take_task loop k i [] h = cc
count-take_task loop k i (u ∷ ts) {t} {rest} h = elim (Bool-cases (loop == u.loop)) [
  | inl same ↦ ground (arith, same, h)
  | inr other ↦ elim (Option-cases (take_task loop ts)) [
    | inl e ↦ absurd (ground (arith, other, e, h))
    | inr ((v, vs), e) ↦ ground (arith, other, e, h, count-take_task loop k i ts e)
  ]
]
