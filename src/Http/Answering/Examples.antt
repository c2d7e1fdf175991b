-- ===== src/Http/Answering/Examples.antt =====
-- The theorem on http/HttpServer.cpp with two requests on a new connection, of which the kernel first takes
-- one byte.
use tiny_network_library.Base.{
  ◌≡◌, ◌≤◌, refl, arith, [], ◌∷◌, List, Bytes, codes, some, none, false,
}
use tiny_network_library.Buffer.{initial_size}
use tiny_network_library.Buffer
use tiny_network_library.Buffer.Bounds.{new-IsValid}
use tiny_network_library.Connection.{
  Connection, Outcome, new, connect_established, accepted, refused, would_block, is_fatal,
}
use tiny_network_library.Connection.Deliver.{Listens}
use tiny_network_library.Connection.Answers.{Answers}
use tiny_network_library.Connection.Lifecycle.{established-Inv}
use tiny_network_library.Http.Request.{
  Request, get, http11, get_header, lookup, insert, method_string, is_space,
}
use tiny_network_library.Http.Response
use tiny_network_library.Http.Response.{Response}
use tiny_network_library.Http.Server.{wants_close}
use tiny_network_library.Base
use tiny_network_library.Http.Answering.Whole.{run-Answers}
use tiny_network_library.Http.Answering.{
  IsWellFormed, Wire, Event, arrives, writable, run, all_brought, all_owed,
}

abbrev sample : Connection
sample = (connect_established (new 5)).0

-- The callback answers "200 OK" with the path.
abbrev callback : Request → Response → Response
callback q r = record r { status_code = 200; status_message = codes "OK"; body = q.path }

abbrev hello : Wire
hello = record {
  method = get;
  path = codes "/a";
  query = none;
  version = http11;
  headers = (codes "A", codes "b") ∷ [];
}

abbrev script : List Event
script =
    arrives hello 7 (accepted 1)
    ∷ arrives hello 8 (refused would_block)
    ∷ writable (accepted 30)
    ∷ []

sample-Listens : Listens sample
unfolding connect_established new Buffer.new Buffer.contents
sample-Listens = record {
  inv = established-Inv 5;
  up = refl;
  sound = new-IsValid initial_size (omega arith);
  read = refl;
}

hello-IsWellFormed : IsWellFormed hello
unfolding method_string is_space
hello-IsWellFormed = (
  record {
    method_known = λ e. cc;
    version_known = λ e. cc;
    path_space = omega arith;
    path_question = omega arith;
    path_return = omega arith;
    query_space = tt;
    query_return = tt;
  },
  ((omega arith, omega arith, omega arith, (refl, refl)), tt),
)

run-Answers_example :
    (o : Outcome) × (run callback script sample ≡ some o)
    × Answers (all_brought callback script) (all_owed callback script) sample o
unfolding connect_established new Buffer.new is_fatal wants_close Response.new get_header lookup
    insert method_string Base.bytes_eq
run-Answers_example =
    run-Answers callback script sample-Listens
      (
        (hello-IsWellFormed, omega arith, refl, omega arith, tt),
        ((hello-IsWellFormed, omega arith, refl, tt, refl), (tt, tt)),
      )
      (omega arith, omega arith)
