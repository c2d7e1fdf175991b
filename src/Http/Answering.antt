-- ===== src/Http/Answering.antt =====
-- http/HttpServer.cpp on a connection (net/TcpConnection.cpp): from the bytes of the requests to the bytes of
-- the responses. Each read event brings one request.
pub mod Whole
mod Examples
use tiny_network_library.Base.{
  length-append, ℕ, ◌+◌, ◌<◌, ◌≤◌, ◌≡◌, refl, ap, ◌∙◌, arith, Bool, true, false, List, [], ◌∷◌,
  ◌++◌, Option, none, some, Bytes, length, append-nil, All,
}
use tiny_network_library.Buffer
use tiny_network_library.Buffer.{Buffer, received, contents, initial_size, extra_size}
use tiny_network_library.Buffer.Bounds.{new-IsValid, max_size}
use tiny_network_library.Connection.{
  Connection, Outcome, WriteResult, send, send_buffer, send_in_loop, handle_write, is_connected,
  call_message,
}
use tiny_network_library.Connection.Answers.{
  Answers, send_in_loop-Answers, nothing-Answers, writable-Answers, Answers-then, called-Answers,
}
use tiny_network_library.Connection.Deliver.{
  Listens, Finds, filled, deliver, behind, Listens-Finds, deliver-filled,
}
use tiny_network_library.Connection.Effects.{IsHonest}
use tiny_network_library.Connection.Send.{IsUsable}
use tiny_network_library.Http.Context.Line.{request_line, query_or}
use tiny_network_library.Http.Context.Whole.{
  parse_request-Complete, Header, header_block, IsPlain, IsRequestLine, store_headers,
}
use tiny_network_library.Http.Request.{Request, Method, Version}
use tiny_network_library.Http.Response.{
  Response, new, append_to_buffer, append_to_buffer_refines, response_text,
}
use tiny_network_library.Http.Context.{init, is_got_all}
use tiny_network_library.Http.Context.Storage.{parse_request-storage}
use tiny_network_library.Http.Server.{
  on_parsed, and_then, shutdown_if, wants_close, on_request, on_message,
}

-- A request as a client means it.
pub record Wire : Type 0 where
  pub method : Method
  pub path : Bytes
  pub query : Option Bytes
  pub version : Version
  pub headers : List Header

-- What the client writes.
abbrev pub wire_text : Wire → Bytes
wire_text x =
    request_line x.method x.path x.query x.version ++ (13 ∷ 10 ∷ header_block x.headers [])

-- What the callback is to get, at a time `t`.
abbrev pub request_of : Wire → ℕ → Request
request_of x t = store_headers x.headers (record {
  method = x.method;
  version = x.version;
  path = x.path;
  query = query_or x.query [];
  receive_time = t;
  headers = [];
})

abbrev pub IsWellFormed : Wire → Type 0
IsWellFormed x = IsRequestLine x.method x.path x.query x.version × All IsPlain x.headers

pub data Event : Type 0 where
  arrives : Wire → ℕ → WriteResult → Event
  writable : WriteResult → Event

pub length-wire_text : (x : Wire) → 0 < length (wire_text x)
length-wire_text x = omega (
  arith,
  length-append (request_line x.method x.path x.query x.version)
      (13 ∷ 10 ∷ header_block x.headers []),
)

-- Room for `n` bytes that arrive and `m` bytes that are answered.
abbrev pub HasRoom : ℕ → ℕ → Connection → Type 0
HasRoom n m c =
    (length c.input.bytes + n + extra_size < max_size)
    × (length c.output.bytes + m + initial_size + 8 < max_size)

module _ (callback : Request → Response → Response) where
  abbrev pub response : Wire → ℕ → Response
  response x t = callback (request_of x t) (new (wants_close (request_of x t)))

  unfoldable pub step : Event → Connection → Option Outcome
  step (arrives x t w) c = deliver (on_message callback w t) (received (wire_text x)) c
  step (writable w) c = some (handle_write w c)

  unfoldable pub run : List Event → Connection → Option Outcome
  unfolding step
  run [] c = some (c, [])
  run (e ∷ es) c = elim (step e c) [ none ↦ none | some (c1, out) ↦ behind out (run es c1) ]

  abbrev pub brought : Event → Bytes
  brought (arrives x t w) = wire_text x
  brought (writable w) = []

  abbrev pub owed : Event → Bytes
  owed (arrives x t w) = response_text (response x t)
  owed (writable w) = []

  abbrev pub all_brought : List Event → ℕ
  all_brought [] = 0
  all_brought (e ∷ es) = length (brought e) + all_brought es

  abbrev pub all_owed : List Event → Bytes
  all_owed [] = []
  all_owed (e ∷ es) = owed e ++ all_owed es

  -- A well-formed request in one read, whose response keeps the connection; the kernel takes no more than it is
  -- given, and reports no broken connection.
  abbrev pub IsFair : Event → Type 0
  IsFair (arrives x t w) =
      IsWellFormed x
      × (length (wire_text x) ≤ extra_size)
      × ((response x t).close_connection ≡ false)
      × IsHonest (length (response_text (response x t))) w
      × IsUsable w
  IsFair (writable w) = Unit
