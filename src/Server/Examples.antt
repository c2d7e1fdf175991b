-- ===== src/Server/Examples.antt =====
-- The theorems on net/TcpServer.cpp at a server without threads and one connection.
use tiny_network_library.Base.{
  ℕ, ◌≡◌, refl, arith, true, Option, none, some, List, [], ◌∷◌, ◌++◌, codes, ◌⊎◌, bytes_eq,
}
use tiny_network_library.LoopPool
use tiny_network_library.LoopPool.{get_next_loop, next_of}
use tiny_network_library.Channel
use tiny_network_library.Channel.{is_reading, enable_reading, set_read_callback, tie, disable_all}
use tiny_network_library.Connection
use tiny_network_library.Connection.{
  Connection, connect_established, connect_destroyed, handle_close, Effect, is_disconnected,
}
use tiny_network_library.Connection.Lifecycle.{closes, perform}
use tiny_network_library.Server
use tiny_network_library.Server.{
  accepted, System, Object, handle_read, listen, object_at, run_task, run_in_loop, queue_in_loop,
  remove_connection_in_loop, act, act_on, erase_name, assign_name, find_name,
}
use tiny_network_library.Server.Accepting.{
  start, new_connection, remove_connection, works_on, Move, accepts, runs, works, step, run,
  conn_name, is_open, destruct,
}
use tiny_network_library.Server.Ends.{destruct-IsLeft, IsLeft}
use tiny_network_library.Server.Names.{conn_name_injective}
use tiny_network_library.Server.Stages.{lifecycle}
use tiny_network_library.Buffer.{received}
use tiny_network_library.Channel.{set_revents}
use tiny_network_library.Connection.Effects.{Inv}
use tiny_network_library.Connection.Lifecycle.{established-Inv}
use tiny_network_library.Connection.Dispatch.{dispatch}
use tiny_network_library.Server.Outcomes.{Outcomes}
use tiny_network_library.Server.Events.{dispatch-Outcomes}
use tiny_network_library.Server.Life.{
  Setup, started_server, run-some, run-lifecycle, run-idle, whole_life,
}

abbrev sample : Setup
sample = record {
  base_loop = 0;
  listen_fd = 3;
  ip_port = codes "127.0.0.1:80";
  name = codes "http";
  threads = 0;
  make = λ i. i;
  here = 0;
}

-- A connection comes, is closed by its peer, and `connectDestroyed` runs.
abbrev sample_moves : List Move
sample_moves = accepts (accepted 5) ∷ works 1 closes ∷ runs 0 ∷ []

conn_name_injective_example : ◌≡◌ {A = ℕ} 7 7
unfolding conn_name
conn_name_injective_example =
    conn_name_injective (codes "http") (codes "127.0.0.1:80") 7 7 (omega arith) (omega arith)
      (omega arith) refl

run-some_example : (s : System) × (run sample_moves (started_server sample) ≡ some s)
run-some_example = run-some sample sample_moves (omega arith) (omega arith)

abbrev result : Option System → System
result none = started_server sample
result (some s) = s

abbrev sample_end : System
sample_end = result (run sample_moves (started_server sample))

abbrev found : Option Object → Object
found none = record { name = []; loop = 0; connection = Connection.new 0; effects = [] }
found (some o) = o

abbrev sample_object : Object
sample_object = found (object_at 1 sample_end.objects)

run-lifecycle_example :
    (rest : List Effect) × (lifecycle sample_object.effects ++ rest ≡ whole_life)
unfolding run step start new_connection remove_connection works_on run_task run_in_loop
    queue_in_loop remove_connection_in_loop act act_on erase_name assign_name get_next_loop next_of
    is_reading enable_reading handle_read listen perform handle_close connect_established
    connect_destroyed tie disable_all set_read_callback Server.new Server.new_acceptor
    Server.set_new_connection_callback LoopPool.new LoopPool.set_thread_num Server.set_thread_num
    LoopPool.start LoopPool.start_threads Channel.new Connection.new
run-lifecycle_example =
    run-lifecycle sample sample_moves sample_end 1 sample_object (omega arith) (omega arith) refl
      refl

run-idle_example :
    ((is_open sample_object.connection.state ≡ true)
      × (find_name sample_object.name sample_end.connections ≡ some 1))
    ⊎ ((is_disconnected sample_object.connection.state ≡ true)
        × (find_name sample_object.name sample_end.connections ≡ none)
        × (lifecycle sample_object.effects ≡ whole_life))
unfolding run step start new_connection remove_connection works_on run_task run_in_loop
    queue_in_loop remove_connection_in_loop act act_on erase_name assign_name get_next_loop next_of
    is_reading enable_reading handle_read listen perform handle_close connect_established
    connect_destroyed tie disable_all set_read_callback Server.new Server.new_acceptor
    Server.set_new_connection_callback LoopPool.new LoopPool.set_thread_num Server.set_thread_num
    LoopPool.start LoopPool.start_threads Channel.new Connection.new
run-idle_example =
    run-idle sample sample_moves sample_end 1 sample_object (omega arith) (omega arith) refl refl
      refl

-- An established connection whose peer has closed: EPOLLIN and EPOLLHUP.
abbrev hung_up : Connection
hung_up =
    let c = (connect_established (Connection.new 5)).0 in
    record c { channel = set_revents 17 c.channel }

hung_up-Inv : Inv hung_up
unfolding set_revents connect_established enable_reading tie Connection.new Channel.new
    Channel.is_writing
hung_up-Inv =
    let v = established-Inv 5 in record { sound = v.sound; mask = v.mask; interest = v.interest }

dispatch-Outcomes_example :
    Outcomes
      (dispatch (received []) (Connection.accepted 0) hung_up).0
      (dispatch (received []) (Connection.accepted 0) hung_up).1
unfolding set_revents connect_established Connection.new Channel.new
dispatch-Outcomes_example =
    dispatch-Outcomes (received []) (Connection.accepted 0) hung_up hung_up-Inv refl refl

-- Two connections in the table, of which the second belongs to another loop.
abbrev object_of : ℕ → Object
object_of loop = record { name = []; loop = loop; connection = Connection.new loop; effects = [] }

abbrev two_open : System
two_open = record (Server.new 0 3 (codes "127.0.0.1:80") (codes "http")) {
  connections = (codes "a", 1) ∷ (codes "b", 2) ∷ [];
  objects = (1, object_of 0) ∷ (2, object_of 7) ∷ [];
}

destruct-IsLeft_example : ((destruct 0 two_open).connections ≡ []) × IsLeft 2 (destruct 0 two_open)
unfolding bytes_eq
destruct-IsLeft_example = destruct-IsLeft 0 two_open (codes "b") 2 (object_of 7) refl refl
