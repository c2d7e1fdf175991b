-- ===== src/Echo/Examples.antt =====
-- The theorem on example/example_echoServer.cpp with two messages on a new connection.
use tiny_network_library.Base.{◌≡◌, refl, arith, [], ◌∷◌, List, some}
use tiny_network_library.Buffer.{received, initial_size}
use tiny_network_library.Buffer
use tiny_network_library.Buffer.Bounds.{new-IsValid}
use tiny_network_library.Connection.{
  Connection, Outcome, new, connect_established, accepted, refused, would_block, is_fatal,
}
use tiny_network_library.Connection.Lifecycle.{established-Inv}
use tiny_network_library.Connection.Deliver.{Listens}
use tiny_network_library.Echo.{Event, arrives, writable, run}
use tiny_network_library.Echo.Whole.{run-Echoes, Echoes, arrived}

abbrev sample : Connection
sample = (connect_established (new 5)).0

-- Of the first message the kernel takes one byte, of the second none; then it takes the rest.
abbrev script : List Event
script =
    arrives (received (104 ∷ 105 ∷ [])) (accepted 1)
    ∷ arrives (received (33 ∷ [])) (refused would_block)
    ∷ writable (accepted 2)
    ∷ []

sample-Listens : Listens sample
unfolding connect_established new Buffer.new Buffer.contents
sample-Listens = record {
  inv = established-Inv 5;
  up = refl;
  sound = new-IsValid initial_size (omega arith);
  read = refl;
}

run-Echoes_example : (o : Outcome) × (run script sample ≡ some o) × Echoes (arrived script) sample o
unfolding connect_established new Buffer.new is_fatal
run-Echoes_example =
    run-Echoes script sample-Listens
      (
        (omega arith, omega arith, omega arith, tt),
        ((omega arith, omega arith, tt, refl), (tt, tt)),
      )
      (omega arith, omega arith)
