-- ===== src/Server/Steps.antt =====
-- Every step of the server of net/TcpServer.cpp has a result, and the invariant holds after it.
use tiny_network_library.Base.{
  ℕ, ◌+◌, ◌≤◌, ◌<◌, ◌≡◌, refl, sym, arith, false, Option, some, ◌∷◌, ◌==◌, Bool-cases, Option-cases,
  inl, inr,
}
use tiny_network_library.Channel.{is_reading}
use tiny_network_library.LoopPool.{get_next_loop}
use tiny_network_library.LoopPool.Range.{InRange, get_next_loop-some}
use tiny_network_library.Connection.{
  Connection, Outcome, call_connection, call_close, Effect, disconnected, connecting, ConnState,
}
use tiny_network_library.Connection
use tiny_network_library.Connection.Lifecycle.{Operation}
use tiny_network_library.Server.{
  listens, destroys, AcceptResult, accepted, accept_failed, handle_read, Kind, establishes, removes,
  Task, System, object_at, run_in_loop, take_task, assign_name,
}
use tiny_network_library.Server.Accepting.{
  conn_name, new_object, new_connection, is_open, Move, accepts, runs, works, is_event, step,
}
use tiny_network_library.Server.Names.{conn_name_apart}
use tiny_network_library.Server.Objects.{
  count, count-take_task, matches, one_if, find_name-assign_same, find_name-assign_other,
}
use tiny_network_library.Server.Stages.{created, due, Fits, At, absent, present, Inv}
use tiny_network_library.Server.Counters.{
  Counts, run_task-Counts, run_in_loop-Counts, works_on-Counts,
}
use tiny_network_library.Server.Works.{works_on-Inv}
use tiny_network_library.Server.Serves.{
  Same, only_at, with_task, count_other, run_task-Inv, run_in_loop-Inv, tasks-Inv,
}

-- A step has a result, keeps the invariant, and gives out one number at most.
abbrev pub Goes : Option System → System → Type 0
Goes r s =
    (s' : System) × (r ≡ some s')
    × Inv s'
    × InRange s'.pool
    × (s'.next_conn_id ≤ s.next_conn_id + 1)

counted : (s s' : System) → Counts s s' → InRange s.pool → Inv s' → Goes (some s') s
counted s s' c r v = (s', refl, v, rw c.0 r, omega (arith, c.1))

-- What `newConnection` has added when it calls `runInLoop`.
abbrev added : System → ℕ → ℕ → ℕ → System
added s fd loop n = record s {
  pool = record s.pool { next = n };
  next_conn_id = s.next_conn_id + 1;
  connections =
      assign_name (conn_name s.name s.ip_port s.next_conn_id) s.next_conn_id s.connections;
  objects = (s.next_conn_id, new_object s fd loop) ∷ s.objects;
}

abbrev begin_task : System → ℕ → Task
begin_task s loop = record { loop = loop; kind = establishes; conn = s.next_conn_id }

new_connection_run :
    (fd : ℕ) (s : System) {loop n : ℕ}
    → get_next_loop s.pool ≡ some (loop, record s.pool { next = n })
    → s.next_conn_id < 2147483647
    → new_connection fd s
      ≡ some (run_in_loop s.pool.base_loop (begin_task s loop) (added s fd loop n))
unfolding new_connection
new_connection_run fd s e h =
    let fits : (s.next_conn_id == 2147483647) ≡ false = ground arith in
    rw (e, fits, new_connection) refl

-- Nothing is there for the next number.
nobody : {s : System} → At s s.next_conn_id → (k : Kind) → count k s.next_conn_id s.tasks ≡ 0
nobody (absent e w) k = w (omega arith) k
nobody (present o g e l n f) k = absurd (omega arith)

begun-Fits :
    (s : System) (fd loop n : ℕ)
    → Inv s
    → Fits
        (begin_task s loop ∷ s.tasks)
        (added s fd loop n).connections
        s.next_conn_id
        (new_object s fd loop)
        created
begun-Fits s fd loop n v = record {
  state = unfold Connection.new in refl;
  waits = λ k. omega (arith, nobody (v.at s.next_conn_id) k, begun_due k);
  table = find_name-assign_same _ s.next_conn_id s.connections;
  called = refl;
}
  where
    begun_due : (k : Kind) → one_if (matches k s.next_conn_id (begin_task s loop)) ≡ due created k
    begun_due listens = refl
    begun_due establishes = ground arith
    begun_due removes = refl
    begun_due destroys = refl

added-Same :
    (s : System) (fd loop n : ℕ)
    → Inv s
    → (j : ℕ) → (j == s.next_conn_id) ≡ false
    → Same s (with_task (begin_task s loop) (added s fd loop n)) j
added-Same s fd loop n v j other = record {
  object = rw other refl;
  tasks = λ k. count_other k j (begin_task s loop) s.tasks other;
  table = λ l. find_name-assign_other _ _ s.next_conn_id s.connections (
      conn_name_apart s.name s.ip_port j s.next_conn_id v.address (omega (arith, v.below)) v.below
        other);
  naming = refl;
  next = omega arith;
}

added-Inv :
    (s : System) (fd loop n : ℕ)
    → Inv s
    → s.next_conn_id < 2147483647
    → Inv (with_task (begin_task s loop) (added s fd loop n))
added-Inv s fd loop n v h =
    only_at s.next_conn_id v v.address (omega arith) (added-Same s fd loop n v) (
      present (new_object s fd loop) created (ground arith) (omega arith) refl
        (begun-Fits s fd loop n v))

new_connection_total :
    (fd : ℕ) (s : System)
    → Inv s
    → InRange s.pool
    → s.next_conn_id < 2147483647
    → Goes (new_connection fd s) s
new_connection_total fd s v r h =
    let (loop, n, e, r') = get_next_loop-some s.pool r in
    let c = run_in_loop-Counts s.pool.base_loop (begin_task s loop) (added s fd loop n) in
    (
      run_in_loop s.pool.base_loop (begin_task s loop) (added s fd loop n),
      new_connection_run fd s e h,
      run_in_loop-Inv s.pool.base_loop (begin_task s loop) (added s fd loop n)
          (added-Inv s fd loop n v h),
      rw c.0 r',
      omega (arith, c.1),
    )

runs_total : (loop : ℕ) (s : System) → Inv s → InRange s.pool → Goes (step (runs loop) s) s
unfolding step
runs_total loop s v r = elim (Option-cases (take_task loop s.tasks)) [
  | inl e ↦ rw (e, step) (s, refl, v, r, omega arith)
  | inr ((t, rest), e) ↦
      let s0 = record s { tasks = rest } in
      let ready =
        tasks-Inv s.tasks (t ∷ rest) s (λ k j. sym (count-take_task loop k j s.tasks e)) v in
      rw (e, step) (counted s _ (run_task-Counts t.kind t.conn s0) r (run_task-Inv t s0 ready))
]

works_total :
    (i : ℕ) (op : Operation) (s : System) → Inv s → InRange s.pool → Goes (step (works i op) s) s
unfolding step
works_total i op s v r = elim (Option-cases (object_at i s.objects)) [
  | inl e ↦ rw (e, step) (s, refl, v, r, omega arith)
  | inr (o, e) ↦ elim (Bool-cases (is_open o.connection.state)) [
    | inr down ↦ rw (e, step, down) (s, refl, v, r, omega arith)
    | inl up ↦ elim (Bool-cases (is_event op)) [
      | inr other ↦ rw (e, step, up, other) (s, refl, v, r, omega arith)
      | inl event ↦
          rw (e, step, up, event)
            (counted s _ (works_on-Counts i op o s) r (works_on-Inv i op o s v e up event))
    ]
  ]
]

accepts_total :
    (a : AcceptResult) (s : System)
    → Inv s
    → InRange s.pool
    → s.next_conn_id < 2147483647
    → Goes (step (accepts a) s) s
unfolding step handle_read
accepts_total accept_failed s v r h = elim (Bool-cases (is_reading s.acceptor.channel)) [
  | inl on ↦ rw (on, step) (s, refl, v, r, omega arith)
  | inr off ↦ rw (off, step) (s, refl, v, r, omega arith)
]
accepts_total (accepted fd) s v r h = elim (Bool-cases (is_reading s.acceptor.channel)) [
  | inr off ↦ rw (off, step) (s, refl, v, r, omega arith)
  | inl on ↦ elim (Bool-cases s.acceptor.has_callback) [
    | inl set ↦ rw (on, step, handle_read, set) (new_connection_total fd s v r h)
    | inr unset ↦ rw (on, step, handle_read, unset) (s, refl, v, r, omega arith)
  ]
]

pub step_total :
    (m : Move) (s : System)
    → Inv s
    → InRange s.pool
    → s.next_conn_id < 2147483647
    → Goes (step m s) s
step_total (accepts a) s v r h = accepts_total a s v r h
step_total (runs loop) s v r h = runs_total loop s v r
step_total (works i op) s v r h = works_total i op s v r
