-- ===== src/Server/Accepting.antt =====
-- The operations of net/TcpServer.cpp, and every step of the server and its loops.
use tiny_network_library.Base.{
  ℕ, ◌+◌, Bool, true, false, Option, none, some, ◌>>=◌, List, [], ◌∷◌, ◌++◌, take, Bytes, decimal,
  ◌==◌, if◌then◌else◌,
}
use tiny_network_library.Channel.{is_reading}
use tiny_network_library.LoopPool.{LoopPool, get_next_loop}
use tiny_network_library.LoopPool
use tiny_network_library.Connection.{
  Connection, ConnState, connected, disconnecting, connecting, disconnected, Effect, call_close,
  Outcome,
}
use tiny_network_library.Connection
use tiny_network_library.Connection.Lifecycle.{Operation, is_destroyed, perform}
use tiny_network_library.Server.{
  handle_read, AcceptResult, given, closed, logged, listens, establishes, removes, destroys, Task,
  Object, System, object_at, assign_name, act, run_task, run_in_loop, take_task, ConnectionMap,
}

-- `start`: only the first call starts the pool. `make i` is the loop of the i-th thread, and `here`
-- the loop of the calling thread.
unfoldable pub start : (ℕ → ℕ) → ℕ → System → System
unfolding run_in_loop
start make here s =
    let s1 = record s { started = s.started + 1 } in
    if s.started == 0
    then run_in_loop here (record { loop = s.pool.base_loop; kind = listens; conn = 0 })
        (record s1 { pool = LoopPool.start make s.pool })
    else s1

-- The name of a connection; `snprintf` writes at most 63 bytes of its second part.
unfoldable pub conn_name : Bytes → Bytes → ℕ → Bytes
conn_name name ip_port i = name ++ take 63 (45 ∷ (ip_port ++ (35 ∷ decimal i)))

-- `++_nextConnId` on an `int`; no result where that overflows.
abbrev pub next_id : ℕ → Option ℕ
next_id i = if i == 2147483647 then none else some (i + 1)

abbrev pub new_object : System → ℕ → ℕ → Object
new_object s fd loop = record {
  name = conn_name s.name s.ip_port s.next_conn_id;
  loop = loop;
  connection = record (Connection.new fd) { has_write_complete = s.has_write_complete };
  effects = [];
}

-- `newConnection`, on the thread of the base loop.
unfoldable pub new_connection : ℕ → System → Option System
unfolding run_in_loop assign_name conn_name
new_connection fd s = do
  (loop, pool) ← get_next_loop s.pool
  next ← next_id s.next_conn_id
  let i = s.next_conn_id
  let o = new_object s fd loop
  some (
      run_in_loop s.pool.base_loop (record { loop = loop; kind = establishes; conn = i })
        (record s {
          pool = pool;
          next_conn_id = next;
          connections = assign_name o.name i s.connections;
          objects = (i, o) ∷ s.objects;
        }))

-- `removeConnection`, the close callback, on the thread of the loop `here`.
unfoldable pub remove_connection : ℕ → ℕ → System → System
unfolding run_in_loop
remove_connection here i s =
    run_in_loop here (record { loop = s.pool.base_loop; kind = removes; conn = i }) s

-- The loop of a connection of the table; each of them exists.
abbrev pub loop_of : Option Object → ℕ → ℕ
loop_of none here = here
loop_of (some o) here = o.loop

-- The loop of the destructor, on the thread of the loop `here`.
unfoldable pub destroy_all : ℕ → ConnectionMap → System → System
unfolding run_in_loop
destroy_all here [] s = s
destroy_all here ((n, i) ∷ t) s =
    let t1 : Task = record {
      loop = loop_of (object_at i s.objects) here;
      kind = destroys;
      conn = i;
    } in
    destroy_all here t (run_in_loop here t1 s)

-- The whole destructor. The source resets the pointers of the table one after the other and the map goes with
-- the server at the end; no `connectDestroyed` looks at the table, so it is taken as empty from the start.
unfoldable pub destruct : ℕ → System → System
unfolding destroy_all
destruct here s = destroy_all here s.connections (record s { connections = [] })

abbrev pub is_open : ConnState → Bool
is_open disconnected = false
is_open connecting = false
is_open connected = true
is_open disconnecting = true

abbrev pub closes_in : List Effect → Bool
closes_in [] = false
closes_in (call_close ∷ es) = true
closes_in (e ∷ es) = closes_in es

-- An operation of an open connection on its loop: the close callback is the server's.
unfoldable pub works_on : ℕ → Operation → Object → System → System
unfolding remove_connection act
works_on i op o s =
    let s1 = act i (perform op) s in
    if closes_in (perform op o.connection).1 then remove_connection o.loop i s1 else s1

-- What can happen next: the listening socket has a connection, a loop runs its first functor, or an
-- open connection has an event or a call on its loop.
pub data Move : Type 0 where
  accepts : AcceptResult → Move
  runs : ℕ → Move
  works : ℕ → Operation → Move

-- The operations that a connection's events and users reach; `connectDestroyed` is the server's.
abbrev pub is_event : Operation → Bool
is_event is_destroyed = false
is_event _ = true

unfoldable pub step : Move → System → Option System
unfolding new_connection works_on run_task handle_read
step (accepts r) s =
    if is_reading s.acceptor.channel
    then elim (handle_read r s.acceptor) [
      | given fd ↦ new_connection fd s
      | closed fd ↦ some s
      | logged ↦ some s
    ]
    else some s
step (runs loop) s = elim (take_task loop s.tasks) [
  | none ↦ some s
  | some (t, rest) ↦ some (run_task t.kind t.conn (record s { tasks = rest }))
]
step (works i op) s = elim (object_at i s.objects) [
  | none ↦ some s
  | some o ↦
      if is_open o.connection.state
      then (if is_event op then some (works_on i op o s) else some s)
      else some s
]

-- A number of moves in a row.
unfoldable pub run : List Move → System → Option System
run [] s = some s
run (m ∷ ms) s = do s1 ← step m s; run ms s1
