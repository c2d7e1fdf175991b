-- ===== src/Echo.antt =====
-- example/example_echoServer.cpp: the message callback of the echo server, on the model of a connection
-- (net/TcpConnection.cpp) and its buffers (net/Buffer.hpp).
pub mod Whole
pub mod Serving
mod Examples
use tiny_network_library.Base.{
  ℕ, true, false, Bool, ◌||◌, List, [], ◌∷◌, ◌++◌, Option, none, some, Bytes, if◌then◌else◌, codes,
}
use tiny_network_library.Server
use tiny_network_library.Server.{System}
use tiny_network_library.Server.Accepting
use tiny_network_library.Buffer.{ReadResult, retrieve_all_as_string}
use tiny_network_library.Connection.Deliver.{deliver, behind}
use tiny_network_library.Connection.{
  Connection, Effect, call_message, Outcome, WriteResult, handle_read, handle_write, send,
}

-- The constructor: a TCP server of this name, whose callbacks are `onConnection`, which only logs, and
-- `onMessage`.
unfoldable pub new : ℕ → ℕ → Bytes → System
new loop fd ip_port = Server.new loop fd ip_port (codes "EchoServer")

unfoldable pub start : (ℕ → ℕ) → ℕ → System → System
start make here s = Accepting.start make here s

-- `onMessage`: everything that is readable is sent back. `none` is a read outside the storage.
unfoldable pub on_message : WriteResult → Connection → Option Outcome
on_message w c = elim (retrieve_all_as_string c.input) [
  | none ↦ none
  | some (message, b) ↦ some (send true message w (record c { input = b }))
]

-- A read event and a write event of the connection's channel; `readv` and `write` answer as given.
pub data Event : Type 0 where
  arrives : ReadResult → WriteResult → Event
  writable : WriteResult → Event

unfoldable pub step : Event → Connection → Option Outcome
unfolding on_message
step (arrives r w) c = deliver (on_message w) r c
step (writable w) c = some (handle_write w c)

unfoldable pub run : List Event → Connection → Option Outcome
unfolding step
run [] c = some (c, [])
run (e ∷ es) c = elim (step e c) [ none ↦ none | some (c1, out) ↦ behind out (run es c1) ]
