-- ===== src/Echo/Serving.antt =====
-- example/example_echoServer.cpp on top of net/TcpServer.cpp.
use tiny_network_library.Base.{ℕ, ◌<◌, ◌≡◌, ◌≤◌, Bytes, List, length, some, codes}
use tiny_network_library.Server.{System}
use tiny_network_library.Server.Accepting.{Move, run}
use tiny_network_library.Server.Life.{run-some}
use tiny_network_library.Echo.{new, start}

-- An echo server goes on whatever connections come and go, as the TCP server below it does.
pub serving_some :
    (make : ℕ → ℕ) (here loop fd : ℕ) (ip_port : Bytes) (ms : List Move)
    → length ip_port ≤ 51
    → length ms < 2147483647
    → (s : System) × (run ms (start make here (new loop fd ip_port)) ≡ some s)
unfolding start new tiny_network_library.Server.new tiny_network_library.Server.set_thread_num
    tiny_network_library.LoopPool.new tiny_network_library.LoopPool.set_thread_num
serving_some make here loop fd ip_port ms short h =
    run-some
      (record {
        base_loop = loop;
        listen_fd = fd;
        ip_port = ip_port;
        name = codes "EchoServer";
        threads = 0;
        make = make;
        here = here;
      })
      ms short h
