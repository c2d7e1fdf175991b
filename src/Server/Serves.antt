-- ===== src/Server/Serves.antt =====
-- The functors of net/TcpServer.cpp keep the invariant of the server.
use tiny_network_library.Base.{
  ℕ, ◌≤◌, ◌<◌, ◌≡◌, refl, sym, subst, ◌∙◌, arith, false, none, List, [], ◌∷◌, ◌++◌, length, ◌==◌,
  ==_iff, Bool-cases, inl, inr,
}
use tiny_network_library.Connection.{Connection, Outcome, connect_established, connect_destroyed}
use tiny_network_library.Server.{
  listen, Kind, listens, establishes, removes, destroys, Task, Object, System, object_at,
  update_object, find_name, act_on, act, ConnectionMap, erase_name, run_task, run_in_loop,
  queue_in_loop, remove_connection_in_loop,
}
use tiny_network_library.Server.Accepting.{conn_name}
use tiny_network_library.Server.Names.{conn_name_apart}
use tiny_network_library.Server.Objects.{
  count, count-append, object_at-update_same, object_at-update_other, find_name-erase_other,
}
use tiny_network_library.Server.Stages.{
  Stage, created, serving, leaving, erased, gone, due, Fits, At, absent, present, Inv,
  established-Fits, destroyed-Fits, removed-Fits,
}

-- What a step leaves alone for the number `j`.
pub record Same (s s' : System) (j : ℕ) : Type 0 where
  pub object : object_at j s'.objects ≡ object_at j s.objects
  pub tasks : (k : Kind) → count k j s'.tasks ≡ count k j s.tasks
  pub table :
      j < s.next_conn_id
      → find_name (conn_name s.name s.ip_port j) s'.connections
        ≡ find_name (conn_name s.name s.ip_port j) s.connections
  pub naming : conn_name s'.name s'.ip_port j ≡ conn_name s.name s.ip_port j
  pub next : s.next_conn_id ≤ s'.next_conn_id

pub same-At : {s s' : System} (j : ℕ) → Same s s' j → At s j → At s' j
same-At j e (absent o w) = absent (e.object ∙ o) λ h k. e.tasks k ∙ w (omega (arith, e.next, h)) k
same-At j e (present o g i l n f) =
    present o g (e.object ∙ i) (omega (arith, e.next, l)) (n ∙ sym e.naming) (record {
      state = f.state;
      waits = λ k. e.tasks k ∙ f.waits k;
      table = rw n (e.table l ∙ rw n at f.table);
      called = f.called;
    })

-- One functor more or less, about another connection.
pub count_other :
    (k : Kind) (j : ℕ) (t : Task) (ts : List Task)
    → (j == t.conn) ≡ false
    → count k j (t ∷ ts) ≡ count k j ts
count_other k j t ts h = ground (arith, h)

abbrev pub with_task : Task → System → System
with_task t s = record s { tasks = t ∷ s.tasks }

-- A step about the number `i` alone.
pub only_at :
    {s s' : System} (i : ℕ)
    → Inv s
    → length s'.ip_port ≤ 51
    → s'.next_conn_id < 2147483648
    → ((j : ℕ) → (j == i) ≡ false → Same s s' j)
    → At s' i
    → Inv s'
only_at {s} {s'} i v a b same here = record {
  address = a;
  below = b;
  at = λ j. elim (Bool-cases (j == i)) [
    | inr other ↦ same-At j (same j other) (v.at j)
    | inl it ↦ subst (λ n. At s' n) (sym ((==_iff j i).0 it)) here
  ];
}

update-absent :
    (i : ℕ) (f : Object → Object) (os : List (ℕ × Object))
    → object_at i os ≡ none
    → object_at i (update_object i f os) ≡ none
update-absent i f [] h = refl
update-absent i f ((j, o) ∷ os) h = elim (Bool-cases (i == j)) [
  | inl same ↦ absurd (ground (arith, same, h))
  | inr other ↦ ground (arith, other, h, update-absent i f os (rw other at h))
]

-- An operation of the connection that a functor is about.
act-Inv :
    (t : Task) (f : Connection → Outcome) (next : Stage) (s : System)
    → ((g : Stage) (ts : List Task) (m : ConnectionMap) (o : Object)
        → Fits (t ∷ ts) m t.conn o g
        → Fits ts m t.conn (act_on f o) next)
    → Inv (with_task t s)
    → Inv (act t.conn f s)
unfolding act act_on
act-Inv t f next s fits v =
    only_at t.conn v v.address v.below
      (λ j other. record {
        object = object_at-update_other t.conn j (act_on f) s.objects other;
        tasks = λ k. sym (count_other k j t s.tasks other);
        table = λ l. refl;
        naming = refl;
        next = omega arith;
      })
      (elim (v.at t.conn) [
        | absent o w ↦
            absent (update-absent t.conn (act_on f) s.objects o) λ h k. omega (arith, w h k)
        | present o g i l n u ↦
            present (act_on f o) next (object_at-update_same t.conn (act_on f) s.objects i) l n
              (fits g s.tasks s.connections o u)
      ])

-- No functor about a connection is a `listens`, and one about no object leaves the numbers.
no_listens : (g : Stage) → due g listens ≡ 0
no_listens created = refl
no_listens serving = refl
no_listens leaving = refl
no_listens erased = refl
no_listens gone = refl

listens-Inv :
    (l i : ℕ) (s : System)
    → Inv (with_task (record { loop = l; kind = listens; conn = i }) s)
    → Inv (run_task listens i s)
unfolding run_task listen
listens-Inv l i s v =
    only_at i v v.address v.below
      (λ j other. record {
        object = refl;
        tasks = λ k.
            sym (count_other k j (record { loop = l; kind = listens; conn = i }) s.tasks other);
        table = λ h. refl;
        naming = refl;
        next = omega arith;
      })
      (elim (v.at i) [
        | absent o w ↦ absent o λ h k. omega (arith, w h k)
        | present o g e h n u ↦ absurd (ground (arith, u.waits listens, no_listens g))
      ])

-- The table and the functors of the others are as before.
erased-Same :
    (t : Task) (o : Object) (ts : List Task) (s : System)
    → Inv (with_task t s)
    → t.conn < s.next_conn_id
    → o.name ≡ conn_name s.name s.ip_port t.conn
    → ((j : ℕ) → (j == t.conn) ≡ false → (k : Kind) → count k j ts ≡ count k j s.tasks)
    → (j : ℕ) → (j == t.conn) ≡ false
    → Same
        (with_task t s)
        (record s { connections = erase_name o.name s.connections; tasks = ts })
        j
erased-Same t o ts s v h n e j other = record {
  object = refl;
  tasks = λ k. e j other k ∙ sym (count_other k j t s.tasks other);
  table = λ l. find_name-erase_other _ o.name s.connections (
      rw n (
        conn_name_apart s.name s.ip_port j t.conn v.address (omega (arith, v.below))
          (omega (arith, v.below)) other));
  naming = refl;
  next = omega arith;
}

removes-Inv :
    (l i : ℕ) (s : System)
    → Inv (with_task (record { loop = l; kind = removes; conn = i }) s)
    → Inv (remove_connection_in_loop i s)
unfolding remove_connection_in_loop queue_in_loop
removes-Inv l i s v = elim (v.at i) [
  | absent e w ↦
      rw (e, remove_connection_in_loop)
        (only_at i v v.address v.below
          (λ j other. record {
            object = refl;
            tasks = λ k.
                sym (count_other k j (record { loop = l; kind = removes; conn = i }) s.tasks other);
            table = λ h. refl;
            naming = refl;
            next = omega arith;
          })
          (absent e λ h k. omega (arith, w h k)))
  | present o g e h n u ↦
      let t : Task = record { loop = o.loop; kind = destroys; conn = i } in
      rw (e, remove_connection_in_loop)
        (only_at i v v.address v.below
          (erased-Same (record { loop = l; kind = removes; conn = i }) o (s.tasks ++ (t ∷ [])) s v h
            n
            λ j other k.
              count-append k j s.tasks (t ∷ []) ∙ omega (arith, count_other k j t [] other))
          (present o erased e h n (removed-Fits g l o.loop s.tasks s.connections i o u)))
]

-- Running a functor, or queueing it, is what the invariant with that functor waiting expects.
kind-Inv :
    (k : Kind) (l i : ℕ) (s : System)
    → Inv (with_task (record { loop = l; kind = k; conn = i }) s)
    → Inv (run_task k i s)
unfolding run_task
kind-Inv listens l i s v = listens-Inv l i s v
kind-Inv establishes l i s v =
    act-Inv (record { loop = l; kind = establishes; conn = i }) connect_established serving s
      (λ g ts m o. established-Fits g l ts m i o) v
kind-Inv removes l i s v = removes-Inv l i s v
kind-Inv destroys l i s v =
    act-Inv (record { loop = l; kind = destroys; conn = i }) connect_destroyed gone s
      (λ g ts m o. destroyed-Fits g l ts m i o) v

pub run_task-Inv : (t : Task) (s : System) → Inv (with_task t s) → Inv (run_task t.kind t.conn s)
run_task-Inv t s v = kind-Inv t.kind t.loop t.conn s v

-- The order of the functors does not matter to the invariant.
pub tasks-Inv :
    (ts us : List Task) (s : System)
    → ((k : Kind) (j : ℕ) → count k j us ≡ count k j ts)
    → Inv (record s { tasks = ts })
    → Inv (record s { tasks = us })
tasks-Inv ts us s e v = record {
  address = v.address;
  below = v.below;
  at = λ j.
      same-At j
        (record {
          object = refl;
          tasks = λ k. e k j;
          table = λ l. refl;
          naming = refl;
          next = omega arith;
        })
        (v.at j);
}

pub queue_in_loop-Inv : (t : Task) (s : System) → Inv (with_task t s) → Inv (queue_in_loop t s)
unfolding queue_in_loop
queue_in_loop-Inv t s v =
    tasks-Inv (t ∷ s.tasks) (s.tasks ++ (t ∷ [])) s
      (λ k j. omega (arith, count-append k j s.tasks (t ∷ []))) v

pub run_in_loop-Inv :
    (here : ℕ) (t : Task) (s : System) → Inv (with_task t s) → Inv (run_in_loop here t s)
unfolding run_in_loop
run_in_loop-Inv here t s v = elim (Bool-cases (here == t.loop)) [
  | inl now ↦ rw now (run_task-Inv t s v)
  | inr later ↦ rw later (queue_in_loop-Inv t s v)
]
