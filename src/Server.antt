-- ===== src/Server.antt =====
-- net/Acceptor.cpp and net/TcpServer.cpp: the listening socket, the table of connections, and the
-- functors that the server gives to its loops. The threads act one after the other in any order;
-- each loop runs its functors in the order in which they came (see Loop.Fifo).
pub mod Ends
pub mod Accepting
mod Names
mod Objects
mod Stages
mod Outcomes
mod Events
mod Serves
mod Works
mod Counters
mod Steps
pub mod Life
mod Examples
use tiny_network_library.Base.{
  ℕ, ◌+◌, Bool, true, false, ◌||◌, Option, none, some, List, [], ◌∷◌, ◌++◌, take, Bytes, bytes_eq,
  decimal, ◌==◌, if◌then◌else◌,
}
use tiny_network_library.Channel.{Channel, set_read_callback, enable_reading, disable_all}
use tiny_network_library.Channel
use tiny_network_library.LoopPool.{LoopPool}
use tiny_network_library.LoopPool
use tiny_network_library.Connection.{
  Connection, ConnState, connected, disconnecting, Effect, call_close, Outcome, connect_established,
  connect_destroyed,
}
use tiny_network_library.Connection
use tiny_network_library.Connection.Lifecycle.{Operation, perform}

pub record Acceptor : Type 0 where
  pub listenning : Bool
  pub channel : Channel
  pub has_callback : Bool

unfoldable pub new_acceptor : ℕ → Acceptor
new_acceptor fd = record {
  listenning = false;
  channel = set_read_callback (Channel.new fd);
  has_callback = false;
}

unfoldable pub set_new_connection_callback : Acceptor → Acceptor
set_new_connection_callback a = record a { has_callback = true }

unfoldable pub listen : Acceptor → Acceptor
listen a = record a { listenning = true; channel = enable_reading a.channel }

-- The destructor asks for no more events before it removes the channel.
unfoldable pub close_acceptor : Acceptor → Acceptor
close_acceptor a = record a { channel = disable_all a.channel }

-- `accept` gave a descriptor, or failed.
pub data AcceptResult : Type 0 where
  accepted : ℕ → AcceptResult
  accept_failed : AcceptResult

-- The callback gets the descriptor, it is closed, or the failure is logged.
pub data Received : Type 0 where
  given closed : ℕ → Received
  logged : Received

unfoldable pub handle_read : AcceptResult → Acceptor → Received
handle_read (accepted fd) a = if a.has_callback then given fd else closed fd
handle_read accept_failed a = logged

-- What a functor of the server calls: the acceptor's `listen`, a connection's `connectEstablished`
-- and `connectDestroyed`, and `removeConnectionInLoop`.
pub data Kind : Type 0 where
  listens establishes removes destroys : Kind

-- A functor that waits at a loop, about a connection; `listens` is about none, number 0.
pub record Task : Type 0 where
  pub loop : ℕ
  pub kind : Kind
  pub conn : ℕ

-- A connection object, with all that its operations have asked for so far. The number that its
-- name ends with stands for the shared pointer.
pub record Object : Type 0 where
  pub name : Bytes
  pub loop : ℕ
  pub connection : Connection
  pub effects : List Effect

abbrev pub ObjectMap : Type 0
ObjectMap = List (ℕ × Object)

abbrev pub ConnectionMap : Type 0
ConnectionMap = List (Bytes × ℕ)

pub record System : Type 0 where
  pub name : Bytes
  pub ip_port : Bytes
  pub acceptor : Acceptor
  pub pool : LoopPool
  pub has_write_complete : Bool
  pub started : ℕ
  pub next_conn_id : ℕ
  pub connections : ConnectionMap
  pub objects : ObjectMap
  pub tasks : List Task

-- The base loop is `loop`, and the listening descriptor `fd`.
unfoldable pub new : ℕ → ℕ → Bytes → Bytes → System
new loop fd ip_port name = record {
  name = name;
  ip_port = ip_port;
  acceptor = set_new_connection_callback (new_acceptor fd);
  pool = LoopPool.new loop;
  has_write_complete = false;
  started = 0;
  next_conn_id = 1;
  connections = [];
  objects = [];
  tasks = [];
}

unfoldable pub set_write_complete_callback : System → System
set_write_complete_callback s = record s { has_write_complete = true }

unfoldable pub set_thread_num : ℕ → System → System
set_thread_num n s = record s { pool = LoopPool.set_thread_num n s.pool }

abbrev pub object_at : ℕ → ObjectMap → Option Object
object_at i [] = none
object_at i ((j, o) ∷ os) = let rest = object_at i os in if i == j then some o else rest

abbrev pub update_object : ℕ → (Object → Object) → ObjectMap → ObjectMap
update_object i f [] = []
update_object i f ((j, o) ∷ os) =
    let rest = update_object i f os in if i == j then (j, f o) ∷ os else (j, o) ∷ rest

abbrev pub find_name : Bytes → ConnectionMap → Option ℕ
find_name n [] = none
find_name n ((m, i) ∷ t) = let rest = find_name n t in if bytes_eq n m then some i else rest

unfoldable pub erase_name : Bytes → ConnectionMap → ConnectionMap
erase_name n [] = []
erase_name n ((m, i) ∷ t) =
    let rest = erase_name n t in if bytes_eq n m then rest else (m, i) ∷ rest

-- `map[key] = value`.
unfoldable pub assign_name : Bytes → ℕ → ConnectionMap → ConnectionMap
unfolding erase_name
assign_name n i t = (n, i) ∷ erase_name n t

unfoldable pub queue_in_loop : Task → System → System
queue_in_loop t s = record s { tasks = s.tasks ++ (t ∷ []) }

-- An operation of the connection `i`.
unfoldable pub act_on : (Connection → Outcome) → Object → Object
act_on f o = record o { connection = (f o.connection).0; effects = o.effects ++ (f o.connection).1 }

unfoldable pub act : ℕ → (Connection → Outcome) → System → System
unfolding act_on
act i f s = record s { objects = update_object i (act_on f) s.objects }

unfoldable pub remove_connection_in_loop : ℕ → System → System
unfolding queue_in_loop erase_name
remove_connection_in_loop i s = elim (object_at i s.objects) [
  | none ↦ s
  | some o ↦
      queue_in_loop (record { loop = o.loop; kind = destroys; conn = i })
        (record s { connections = erase_name o.name s.connections })
]

-- The body of a functor.
unfoldable pub run_task : Kind → ℕ → System → System
unfolding act remove_connection_in_loop listen
run_task listens i s = record s { acceptor = listen s.acceptor }
run_task establishes i s = act i connect_established s
run_task removes i s = remove_connection_in_loop i s
run_task destroys i s = act i connect_destroyed s

-- `runInLoop` on the thread of the loop `here`.
unfoldable pub run_in_loop : ℕ → Task → System → System
unfolding run_task queue_in_loop
run_in_loop here t s = if here == t.loop then run_task t.kind t.conn s else queue_in_loop t s

-- The first functor that waits at the loop, and the others.
abbrev pub take_task : ℕ → List Task → Option (Task × List Task)
take_task loop [] = none
take_task loop (t ∷ ts) =
    let rest = take_task loop ts in
    if loop == t.loop
    then some (t, ts)
    else elim rest [ none ↦ none | some (u, us) ↦ some (u, t ∷ us) ]
