-- ===== src/Server/Counters.antt =====
-- The functors of net/TcpServer.cpp leave the loop pool and the counter of names alone.
use tiny_network_library.Base.{ℕ, ◌≡◌, refl, Option-cases, Bool-cases, inl, inr, ◌==◌}
use tiny_network_library.Connection.Lifecycle.{Operation, perform}
use tiny_network_library.Server.{
  listen, Kind, listens, establishes, removes, destroys, Task, Object, System, object_at, act,
  run_task, run_in_loop, queue_in_loop, remove_connection_in_loop,
}
use tiny_network_library.Server.Accepting.{works_on, remove_connection, closes_in}

-- The loop pool and the next number are those of `s`.
abbrev pub Counts : System → System → Type 0
Counts s s' = (s'.pool ≡ s.pool) × (s'.next_conn_id ≡ s.next_conn_id)

removal-Counts : (i : ℕ) (s : System) → Counts s (remove_connection_in_loop i s)
unfolding remove_connection_in_loop queue_in_loop
removal-Counts i s = elim (Option-cases (object_at i s.objects)) [
  | inl e ↦ rw (e, remove_connection_in_loop) (refl, refl)
  | inr (o, e) ↦ rw (e, remove_connection_in_loop) (refl, refl)
]

pub run_task-Counts : (k : Kind) (i : ℕ) (s : System) → Counts s (run_task k i s)
unfolding run_task act listen
run_task-Counts listens i s = (refl, refl)
run_task-Counts establishes i s = (refl, refl)
run_task-Counts removes i s = removal-Counts i s
run_task-Counts destroys i s = (refl, refl)

pub run_in_loop-Counts : (here : ℕ) (t : Task) (s : System) → Counts s (run_in_loop here t s)
unfolding run_in_loop queue_in_loop
run_in_loop-Counts here t s = elim (Bool-cases (here == t.loop)) [
  | inl now ↦ rw now (run_task-Counts t.kind t.conn s)
  | inr later ↦ rw later (refl, refl)
]

pub works_on-Counts :
    (i : ℕ) (op : Operation) (o : Object) (s : System) → Counts s (works_on i op o s)
unfolding works_on act remove_connection
works_on-Counts i op o s = elim (Bool-cases (closes_in (perform op o.connection).1)) [
  | inl told ↦ rw told (
      run_in_loop-Counts o.loop (record { loop = s.pool.base_loop; kind = removes; conn = i })
        (act i (perform op) s))
  | inr quiet ↦ rw quiet (refl, refl)
]
