-- ===== src/Http/Server.antt =====
-- http/HttpServer.cpp: a message of a connection is parsed, handed to the user's callback and
-- answered. All of it runs on the thread of the connection's loop.
use tiny_network_library.Base.{
  ℕ, ◌&&◌, ◌||◌, Bool, true, false, not, Option, none, some, [], ◌∷◌, ◌++◌, codes, bytes_eq,
  if◌then◌else◌,
}
use tiny_network_library.Buffer
use tiny_network_library.Buffer.{Buffer, contents, initial_size}
use tiny_network_library.Connection.{Connection, Outcome, WriteResult, send, send_buffer, shutdown}
use tiny_network_library.Http.Request.{Request, Version, http10, get_header}
use tiny_network_library.Http.Response.{
  Response, new, set_status_code, set_status_message, set_close_connection, append_to_buffer,
}
use tiny_network_library.Http.Context.{Parsed, init, is_got_all, parse_request}

unfoldable pub default_http_callback : Request → Response → Response
unfolding set_status_code set_status_message set_close_connection
default_http_callback q r =
    set_close_connection true (set_status_message (codes "Not Found") (set_status_code 404 r))

abbrev pub is_http10 : Version → Bool
is_http10 http10 = true
is_http10 _ = false

-- Whether the connection is to be closed after the response.
unfoldable pub wants_close : Request → Bool
wants_close q =
    let connection = get_header (codes "Connection") q in
    bytes_eq connection (codes "close")
    || (is_http10 q.version && not (bytes_eq connection (codes "Keep-Alive")))

-- One operation and then another.
abbrev pub and_then : Outcome → (Connection → Outcome) → Outcome
and_then (c, es) f = let (c1, more) = f c in (c1, es ++ more)

abbrev pub shutdown_if : Bool → Connection → Outcome
shutdown_if true c = shutdown true c
shutdown_if false c = (c, [])

module _ (callback : Request → Response → Response) (w : WriteResult) where
  unfoldable pub on_request : Request → Connection → Outcome
  unfolding wants_close append_to_buffer
  on_request q c =
      let response = callback q (new (wants_close q)) in
      and_then (send_buffer true (append_to_buffer response (Buffer.new initial_size)) w c).0
        (shutdown_if response.close_connection)

  unfoldable pub on_parsed : Parsed → Connection → Outcome
  unfolding on_request
  on_parsed p c =
      let c1 = record c { input = p.buffer } in
      let answered =
        if p.ok
        then (c1, [])
        else and_then
            (send true (codes "HTTP/1.1 400 Bad Request" ++ (13 ∷ 10 ∷ 13 ∷ 10 ∷ [])) w c1)
            (shutdown true) in
      if is_got_all p.context.state
      then and_then answered (on_request p.context.request)
      else answered

  -- `onMessage` at a time `t`: a new parser each time. `none` is a parser that does not return.
  unfoldable pub on_message : ℕ → Connection → Option Outcome
  unfolding on_parsed
  on_message t c = elim (parse_request t init c.input) [
    | none ↦ none
    | some p ↦ some (on_parsed p c)
  ]
