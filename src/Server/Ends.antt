-- ===== src/Server/Ends.antt =====
-- The destructor of net/TcpServer.cpp: what happens to the connections of its table.
use tiny_network_library.Base.{
  ℕ, ◌<◌, ◌≡◌, ◌⊎◌, refl, sym, subst, ◌∙◌, arith, Bool, true, false, List, [], ◌∷◌, ◌++◌, some,
  Bytes, bytes_eq, ◌==◌, Bool-cases, inl, inr, subst,
}
use tiny_network_library.Connection.{Connection, Effect, remove_channel, connect_destroyed}
use tiny_network_library.Server.{
  System, Object, destroys, ConnectionMap, object_at, find_name, run_in_loop, run_task,
  queue_in_loop, act, act_on,
}
use tiny_network_library.Server.Accepting.{destroy_all, destruct, loop_of}
use tiny_network_library.Server.Objects.{
  object_at-update_same, object_at-update_other, count, count-append,
}

-- The channel was taken from the poller.
abbrev pub removed : List Effect → Bool
removed [] = false
removed (remove_channel ∷ es) = true
removed (e ∷ es) = removed es

removed_left : (es fs : List Effect) → removed es ≡ true → removed (es ++ fs) ≡ true
removed_left [] fs h = cc
removed_left (e ∷ es) fs h = ground (arith, h, removed_left es fs)

removed_right : (es fs : List Effect) → removed fs ≡ true → removed (es ++ fs) ≡ true
removed_right [] fs h = h
removed_right (e ∷ es) fs h = ground (arith, removed_right es fs h)

connect_destroyed-removed : (c : Connection) → removed (connect_destroyed c).1 ≡ true
unfolding connect_destroyed
connect_destroyed-removed c = ground arith

-- The connection is destroyed, or a functor that destroys it waits.
abbrev pub IsLeft : ℕ → System → Type 0
IsLeft i s =
    (0 < count destroys i s.tasks)
    ⊎ ((o : Object) × (object_at i s.objects ≡ some o) × (removed o.effects ≡ true))

abbrev Exists : ℕ → System → Type 0
Exists i s = (o : Object) × (object_at i s.objects ≡ some o)

module _ (here loop j : ℕ) (s : System) where
  abbrev next : System
  next = run_in_loop here (record { loop = loop; kind = destroys; conn = j }) s

  next-Exists : (i : ℕ) → Exists i s → Exists i next
  unfolding run_in_loop run_task queue_in_loop act
  next-Exists i (o, e) = elim (Bool-cases (here == loop)) [
    | inr far ↦ rw far (o, e)
    | inl near ↦ elim (Bool-cases (i == j)) [
      | inl same ↦
          let eq : j ≡ i = ground arith in
          rw (near, eq)
            (
              act_on connect_destroyed o,
              object_at-update_same i (act_on connect_destroyed) s.objects e,
            )
      | inr other ↦
          rw near (o, object_at-update_other j i (act_on connect_destroyed) s.objects other ∙ e)
    ]
  ]

  next-IsLeft : (i : ℕ) → IsLeft i s → IsLeft i next
  unfolding run_in_loop run_task queue_in_loop act act_on
  next-IsLeft i (inl waits) = elim (Bool-cases (here == loop)) [
    | inl near ↦ rw near (inl waits)
    | inr far ↦ rw far (
        inl (
          omega (
            arith,
            count-append destroys i s.tasks
                (record { loop = loop; kind = destroys; conn = j } ∷ []),
          )))
  ]
  next-IsLeft i (inr (o, e, gone)) = elim (Bool-cases (here == loop)) [
    | inr far ↦ rw far (inr (o, e, gone))
    | inl near ↦ elim (Bool-cases (i == j)) [
      | inl same ↦
          let eq : j ≡ i = ground arith in
          rw (near, eq)
            (inr (
              act_on connect_destroyed o,
              object_at-update_same i (act_on connect_destroyed) s.objects e,
              removed_left o.effects (connect_destroyed o.connection).1 gone,
            ))
      | inr other ↦
          rw near (
            inr
              (o, object_at-update_other j i (act_on connect_destroyed) s.objects other ∙ e, gone))
    ]
  ]

  made-IsLeft : Exists j s → IsLeft j next
  unfolding run_in_loop run_task queue_in_loop act act_on
  made-IsLeft (o, e) = elim (Bool-cases (here == loop)) [
    | inr far ↦ rw far (
        inl (
          ground (
            arith,
            count-append destroys j s.tasks
                (record { loop = loop; kind = destroys; conn = j } ∷ []),
          )))
    | inl near ↦ rw near (
        inr (
          act_on connect_destroyed o,
          object_at-update_same j (act_on connect_destroyed) s.objects e,
          removed_right o.effects (connect_destroyed o.connection).1
              (connect_destroyed-removed o.connection),
        ))
  ]

module _ (here : ℕ) where
  all-IsLeft :
      (t : ConnectionMap) (s : System) (i : ℕ) → IsLeft i s → IsLeft i (destroy_all here t s)
  unfolding destroy_all
  all-IsLeft [] s i h = h
  all-IsLeft ((n, j) ∷ t) s i h =
      let loop = loop_of (object_at j s.objects) here in
      all-IsLeft t (next here loop j s) i (next-IsLeft here loop j s i h)

  named-IsLeft :
      (t : ConnectionMap) (s : System) (n : Bytes) (i : ℕ)
      → find_name n t ≡ some i
      → Exists i s
      → IsLeft i (destroy_all here t s)
  unfolding destroy_all
  named-IsLeft [] s n i h e = absurd (cc)
  named-IsLeft ((m, j) ∷ t) s n i h e =
      let loop = loop_of (object_at j s.objects) here in
      elim (Bool-cases (bytes_eq n m)) [
        | inl same ↦
            let eq : i ≡ j = ground (arith, same, h) in
            all-IsLeft t (next here loop j s) i (
              subst (λ k. IsLeft k (next here loop j s)) (sym eq)
                (made-IsLeft here loop j s (subst (λ k. Exists k s) eq e)))
        | inr other ↦
            named-IsLeft t (next here loop j s) n i (rw other at h) (next-Exists here loop j s i e)
      ]

  connections-next : (loop j : ℕ) (s : System) → (next here loop j s).connections ≡ s.connections
  unfolding run_in_loop run_task queue_in_loop act
  connections-next loop j s = elim (Bool-cases (here == loop)) [
    | inl near ↦ rw near refl
    | inr far ↦ rw far refl
  ]

  connections-destroy_all :
      (t : ConnectionMap) (s : System) → (destroy_all here t s).connections ≡ s.connections
  unfolding destroy_all
  connections-destroy_all [] s = refl
  connections-destroy_all ((n, j) ∷ t) s =
      let loop = loop_of (object_at j s.objects) here in
      connections-destroy_all t (next here loop j s) ∙ connections-next loop j s

-- After the destructor the table is empty, and every connection that it named is destroyed, its channel taken
-- from the poller, or a functor that destroys it waits at a loop.
pub destruct-IsLeft :
    (here : ℕ) (s : System) (n : Bytes) (i : ℕ) (o : Object)
    → find_name n s.connections ≡ some i
    → object_at i s.objects ≡ some o
    → ((destruct here s).connections ≡ []) × IsLeft i (destruct here s)
unfolding destruct
destruct-IsLeft here s n i o named e = (
  connections-destroy_all here s.connections (record s { connections = [] }),
  named-IsLeft here s.connections (record s { connections = [] }) n i named (o, e),
)
