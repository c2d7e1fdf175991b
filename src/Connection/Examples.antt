-- ===== src/Connection/Examples.antt =====
-- The theorems on net/TcpConnection.cpp at a connection just established.
use tiny_network_library.Base.{◌≡◌, refl, arith, [], ◌∷◌, ◌++◌, true, Bytes, List}
use tiny_network_library.Buffer.{
  Buffer, contents, append, put, store, ensure_writable_bytes, make_space, retrieve, retrieve_all,
}
use tiny_network_library.Buffer
use tiny_network_library.Channel.{Channel, is_writing, enable_reading, tie, enable_writing}
use tiny_network_library.Channel
use tiny_network_library.Channel.{enable_writing, disable_writing}
use tiny_network_library.Connection.{
  Connection, new, connect_established, accepted, refused, would_block, connected, is_fatal,
  shutdown_in_loop, send_in_loop, is_idle, attempt, after_attempt, buffer_rest, shutdown,
  handle_write, drained,
}
use tiny_network_library.Connection.Effects.{Inv, written}
use tiny_network_library.Connection.Send.{Sends}
use tiny_network_library.Connection.Stream.{run-Sends, Event, sends, writable, messages, run}
use tiny_network_library.Connection.Lifecycle.{
  Operation, sends_in_loop, shuts, established-Inv, perform,
}
use tiny_network_library.Connection.Drained.{half_close_delivers, perform_all}
use tiny_network_library.Connection.Lifecycle

abbrev sample : Connection
sample = (connect_established (new 5)).0

sample-Inv : Inv sample
sample-Inv = established-Inv 5

abbrev hello : Bytes
hello = 104 ∷ 105 ∷ []

-- Two messages, of which the kernel takes one byte at once and the rest when it can.
abbrev script : List Event
script = sends hello (accepted 1) ∷ sends hello (refused would_block) ∷ writable (accepted 3) ∷ []

sample_up : sample.state ≡ connected
unfolding connect_established
sample_up = refl

run-Sends_example : Sends (messages script) sample (run script sample)
unfolding connect_established new Buffer.new is_fatal
run-Sends_example =
    run-Sends script sample-Inv refl ((omega arith, tt), ((tt, refl), (tt, tt))) (omega arith)

-- The kernel takes one of two bytes at once, the connection is shut down, and half-closes when the kernel
-- has taken the other.
abbrev ending : List Operation
ending = sends_in_loop hello (accepted 1) ∷ shuts true ∷ []

half_close_delivers_example :
    (hello
      ≡ written (
          (perform_all ending sample).1
          ++ (perform (Lifecycle.writable (accepted 1)) (perform_all ending sample).0).1))
    × (contents (perform (Lifecycle.writable (accepted 1)) (perform_all ending sample).0).0.output
        ≡ [])
unfolding connect_established new is_writing perform shutdown_in_loop enable_reading tie Channel.new
    perform_all contents Buffer.new send_in_loop is_idle attempt after_attempt buffer_rest append
    put ensure_writable_bytes store shutdown handle_write drained retrieve retrieve_all
    enable_writing disable_writing
half_close_delivers_example =
    half_close_delivers ending (Lifecycle.writable (accepted 1)) sample sample-Inv
      ((omega arith, tt, omega arith), (tt, tt)) tt refl refl
