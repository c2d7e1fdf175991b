-- ===== src/Connection/Dispatch.antt =====
-- An event of the loop on a connection: net/Channel.cpp calls the callbacks that the constructor of
-- net/TcpConnection.cpp has set.
use tiny_network_library.Base.{true, List, [], ◌∷◌, ◌++◌}
use tiny_network_library.Buffer.{ReadResult}
use tiny_network_library.Channel.{
  Callback, close_callback, error_callback, read_callback, write_callback, handle_event,
}
use tiny_network_library.Connection.{
  Connection, Outcome, WriteResult, handle_close, handle_read, handle_write,
}
use tiny_network_library.Connection.Effects.{Inv}
use tiny_network_library.Connection.Lifecycle.{perform, perform-Inv, closes, readable, writable}

-- The functions behind the callbacks; `handleError` only logs.
unfoldable pub call : ReadResult → WriteResult → Callback → Connection → Outcome
call r w close_callback c = handle_close c
call r w error_callback c = (c, [])
call r w read_callback c = handle_read r c
call r w write_callback c = handle_write w c

unfoldable pub call_all : ReadResult → WriteResult → List Callback → Connection → Outcome
unfolding call
call_all r w [] c = (c, [])
call_all r w (cb ∷ cbs) c =
    let (c1, es) = call r w cb c in let (c2, fs) = call_all r w cbs c1 in (c2, es ++ fs)

-- `handleEvent`, where `readv` answers `r`, and `write` answers `w`. The connection is alive while
-- it runs.
unfoldable pub dispatch : ReadResult → WriteResult → Connection → Outcome
unfolding call_all
dispatch r w c = call_all r w (handle_event true c.channel) c

call-Inv :
    (r : ReadResult) (w : WriteResult) (cb : Callback) (c : Connection)
    → Inv c
    → Inv (call r w cb c).0
unfolding call perform
call-Inv r w close_callback c v = perform-Inv closes c v tt
call-Inv r w error_callback c v = v
call-Inv r w read_callback c v = perform-Inv (readable r) c v tt
call-Inv r w write_callback c v = perform-Inv (writable w) c v tt

call_all-Inv :
    (r : ReadResult) (w : WriteResult) (cbs : List Callback) (c : Connection)
    → Inv c
    → Inv (call_all r w cbs c).0
unfolding call_all
call_all-Inv r w [] c v = v
call_all-Inv r w (cb ∷ cbs) c v = call_all-Inv r w cbs _ (call-Inv r w cb c v)

-- Whatever events are reported and whatever the kernel answers, the connection keeps the invariant of
-- its output buffer and its write interest.
pub dispatch-Inv :
    (r : ReadResult) (w : WriteResult) (c : Connection) → Inv c → Inv (dispatch r w c).0
unfolding dispatch
dispatch-Inv r w c v = call_all-Inv r w (handle_event true c.channel) c v
