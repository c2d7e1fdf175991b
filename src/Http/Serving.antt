-- ===== src/Http/Serving.antt =====
-- http/HttpServer.cpp on top of net/TcpServer.cpp: the server that an HTTP server is.
use tiny_network_library.Base.{ℕ, ◌<◌, ◌≡◌, ◌≤◌, Bytes, List, length, some}
use tiny_network_library.Server
use tiny_network_library.Server.{System, set_thread_num}
use tiny_network_library.Server.Accepting
use tiny_network_library.Server.Accepting.{Move, run}
use tiny_network_library.Server.Life.{run-some}

-- The constructor: a TCP server with four threads, whose callbacks are `onConnection`, which only
-- logs, and `onMessage`.
unfoldable pub new : ℕ → ℕ → Bytes → Bytes → System
new loop fd ip_port name = set_thread_num 4 (Server.new loop fd ip_port name)

unfoldable pub start : (ℕ → ℕ) → ℕ → System → System
start make here s = Accepting.start make here s

-- An HTTP server goes on whatever happens, as the TCP server below it does.
pub serving-some :
    (make : ℕ → ℕ) (here loop fd : ℕ) (ip_port name : Bytes) (ms : List Move)
    → length ip_port ≤ 51
    → length ms < 2147483647
    → (s : System) × (run ms (start make here (new loop fd ip_port name)) ≡ some s)
unfolding start new
serving-some make here loop fd ip_port name ms short h =
    run-some
      (record {
        base_loop = loop;
        listen_fd = fd;
        ip_port = ip_port;
        name = name;
        threads = 4;
        make = make;
        here = here;
      })
      ms short h
