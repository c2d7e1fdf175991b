-- ===== src/Connection.antt =====
-- net/TcpConnection.hpp and net/TcpConnection.cpp: one connection, run by its loop. An operation
-- returns the new connection and, in order, what it asked of the kernel, of the loop and of the
-- user. What `write` and `readv` answer is an argument.
pub mod Effects
pub mod Send
pub mod Stream
pub mod Lifecycle
pub mod HalfClose
pub mod Drained
pub mod Dispatch
pub mod Deliver
pub mod Answers
pub mod Interest
mod Examples
use tiny_network_library.Base.{
  ℕ, ◌+◌, ◌*◌, ◌≤◌, ◌≡◌, ◌&&◌, ◌||◌, Bool, true, false, not, List, [], ◌∷◌, ◌++◌, length, take,
  drop, Bytes, sub_size, add_size, ltb, leb, ◌==◌, if◌then◌else◌,
}
use tiny_network_library.Buffer.{
  Buffer, ReadResult, received, read_failed, contents, readable_bytes, append, retrieve,
  retrieve_all, read_fd, initial_size,
}
use tiny_network_library.Buffer
use tiny_network_library.Channel.{
  Channel, enable_reading, enable_writing, disable_writing, disable_all, is_writing, tie,
}
use tiny_network_library.Channel

pub data ConnState : Type 0 where
  disconnected connecting connected disconnecting : ConnState

pub record Connection : Type 0 where
  pub state : ConnState
  pub channel : Channel
  pub input : Buffer
  pub output : Buffer
  pub high_water_mark : ℕ
  pub has_write_complete : Bool
  pub has_high_water : Bool

-- `wrote` holds the bytes that a `write` on the descriptor accepted. The `queue` effects are
-- functors given to the loop; the last three are the user's and the server's callbacks.
pub data Effect : Type 0 where
  wrote : Bytes → Effect
  shutdown_write update_channel remove_channel : Effect
  queue_write_complete : Effect
  queue_high_water : ℕ → Effect
  queue_send : Bytes → Effect
  queue_shutdown : Effect
  call_connection call_message call_close : Effect

abbrev pub Outcome : Type 0
Outcome = Connection × List Effect

-- The values of `errno` that the code tells apart.
pub data Errno : Type 0 where
  would_block broken_pipe connection_reset other_errno : Errno

pub data WriteResult : Type 0 where
  accepted : ℕ → WriteResult
  refused : Errno → WriteResult

-- The constructor: the four channel callbacks are set.
unfoldable pub new : ℕ → Connection
new fd = record {
  state = connecting;
  channel = record (Channel.new fd) {
    has_read = true;
    has_write = true;
    has_close = true;
    has_error = true;
  };
  input = Buffer.new initial_size;
  output = Buffer.new initial_size;
  high_water_mark = 64 * 1024 * 1024;
  has_write_complete = false;
  has_high_water = false;
}

unfoldable pub set_write_complete_callback : Connection → Connection
set_write_complete_callback c = record c { has_write_complete = true }

unfoldable pub set_high_water_mark_callback : ℕ → Connection → Connection
set_high_water_mark_callback mark c = record c { has_high_water = true; high_water_mark = mark }

-- What the direct `write` of `sendInLoop` leaves: `nwrote`, `remaining`, `error`, and its effects.
pub record Attempt : Type 0 where
  pub nwrote : ℕ
  pub remaining : ℕ
  pub error : Bool
  pub effects : List Effect

abbrev pub when : Bool → Effect → List Effect
when true e = e ∷ []
when false e = []

-- EPIPE and ECONNRESET are the errors after which the message is given up.
unfoldable pub is_fatal : Errno → Bool
is_fatal would_block = false
is_fatal broken_pipe = true
is_fatal connection_reset = true
is_fatal other_errno = false

unfoldable pub attempt : Bytes → WriteResult → Bool → Attempt
attempt message (accepted n) complete = record {
  nwrote = n;
  remaining = sub_size (length message) n;
  error = false;
  effects =
      wrote (take n message)
      ∷ when (sub_size (length message) n == 0 && complete) queue_write_complete;
}
attempt message (refused e) complete = record {
  nwrote = 0;
  remaining = length message;
  error = is_fatal e;
  effects = [];
}

-- No direct write while earlier bytes are waiting.
unfoldable pub no_attempt : Bytes → Attempt
no_attempt message = record { nwrote = 0; remaining = length message; error = false; effects = [] }

-- The second half of `sendInLoop`: what was not written goes to the output buffer.
unfoldable pub buffer_rest : Bytes → ℕ → ℕ → Connection → Outcome
buffer_rest message nwrote remaining c =
    let old_len = readable_bytes c.output in
    let c1 = record c { output = append (take remaining (drop nwrote message)) c.output } in
    let high =
      when
        (leb c.high_water_mark (add_size old_len remaining)
          && ltb old_len c.high_water_mark
          && c.has_high_water)
        (queue_high_water (add_size old_len remaining)) in
    if is_writing c.channel
    then (c1, high)
    else (record c1 { channel = enable_writing c.channel }, high ++ (update_channel ∷ []))

unfoldable pub after_attempt : Bytes → Attempt → Connection → Outcome
unfolding buffer_rest
after_attempt message a c =
    if not a.error && ltb 0 a.remaining
    then (let (c', es) = buffer_rest message a.nwrote a.remaining c in (c', a.effects ++ es))
    else (c, a.effects)

unfoldable pub is_idle : Connection → Bool
is_idle c = not (is_writing c.channel) && readable_bytes c.output == 0

abbrev pub is_disconnected : ConnState → Bool
is_disconnected disconnected = true
is_disconnected _ = false

abbrev pub is_connected : ConnState → Bool
is_connected connected = true
is_connected _ = false

abbrev pub is_disconnecting : ConnState → Bool
is_disconnecting disconnecting = true
is_disconnecting _ = false

unfoldable pub send_in_loop : Bytes → WriteResult → Connection → Outcome
unfolding after_attempt is_idle attempt no_attempt
send_in_loop message w c =
    if is_disconnected c.state
    then (c, [])
    else after_attempt message
        (if is_idle c then attempt message w c.has_write_complete else no_attempt message) c

-- `send`: dropped unless connected, and handed to the loop from another thread.
unfoldable pub send : Bool → Bytes → WriteResult → Connection → Outcome
unfolding send_in_loop
send in_loop_thread message w c =
    if is_connected c.state
    then (if in_loop_thread then send_in_loop message w c else (c, queue_send message ∷ []))
    else (c, [])

-- `send(Buffer*)`: the buffer is emptied if the connection takes the message.
unfoldable pub send_buffer : Bool → Buffer → WriteResult → Connection → Outcome × Buffer
unfolding send
send_buffer in_loop_thread b w c =
    if is_connected c.state
    then (send in_loop_thread (contents b) w c, retrieve_all b)
    else ((c, []), b)

unfoldable pub shutdown_in_loop : Connection → Outcome
shutdown_in_loop c = (c, when (not (is_writing c.channel)) shutdown_write)

-- `shutdown`: the half-close runs at once on the loop's own thread, and is queued from another.
unfoldable pub shutdown : Bool → Connection → Outcome
unfolding shutdown_in_loop
shutdown in_loop_thread c =
    let c1 = record c { state = disconnecting } in
    if is_connected c.state
    then (if in_loop_thread then shutdown_in_loop c1 else (c1, queue_shutdown ∷ []))
    else (c, [])

unfoldable pub connect_established : Connection → Outcome
connect_established c = (
  record c { state = connected; channel = enable_reading (tie c.channel) },
  update_channel ∷ call_connection ∷ [],
)

unfoldable pub connect_destroyed : Connection → Outcome
connect_destroyed c =
    if is_connected c.state
    then (
      record c { state = disconnected; channel = disable_all c.channel },
      update_channel ∷ call_connection ∷ remove_channel ∷ [],
    )
    else (c, remove_channel ∷ [])

unfoldable pub handle_close : Connection → Outcome
handle_close c = (
  record c { state = disconnected; channel = disable_all c.channel },
  update_channel ∷ call_connection ∷ call_close ∷ [],
)

-- A read of no bytes is the end of the stream. `handleError` only logs.
unfoldable pub handle_read : ReadResult → Connection → Outcome
unfolding handle_close
handle_read (read_failed e) c = (c, [])
handle_read (received []) c = handle_close c
handle_read (received (x ∷ d)) c =
    (record c { input = (read_fd (received (x ∷ d)) c.input).0 }, call_message ∷ [])

-- The output buffer has run empty.
unfoldable pub drained : Connection → Outcome
unfolding shutdown_in_loop
drained c =
    let c1 = record c { channel = disable_writing c.channel } in
    let es = update_channel ∷ when c.has_write_complete queue_write_complete in
    if is_disconnecting c.state then (c1, es ++ (shutdown_in_loop c1).1) else (c1, es)

unfoldable pub handle_write : WriteResult → Connection → Outcome
unfolding drained
handle_write (refused e) c = (c, [])
handle_write (accepted n) c =
    if is_writing c.channel && ltb 0 n
    then (let c1 = record c { output = retrieve n c.output } in
        let es = wrote (take n (contents c.output)) in
        if readable_bytes c1.output == 0
        then (let (c2, more) = drained c1 in (c2, es ∷ more))
        else (c1, es ∷ []))
    else (c, [])
