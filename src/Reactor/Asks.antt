-- ===== src/Reactor/Asks.antt =====
-- What each operation of net/TcpConnection.cpp asks of the loop for its channel, and what it has done to
-- the channel by then.
use tiny_network_library.Base.{
  add_size, ℕ, ◌≤◌, ◌≡◌, refl, arith, Bool, true, false, not, ◌&&◌, List, [], ◌∷◌, ◌++◌, Bytes, ltb,
  leb, ◌==◌, Bool-cases, inl, inr,
}
use tiny_network_library.Buffer.{ReadResult, received, read_failed, retrieve, readable_bytes}
use tiny_network_library.Channel.{
  is_writing, is_reading, enable_writing, disable_writing, disable_all, Callback, close_callback,
  error_callback, read_callback, write_callback,
}
use tiny_network_library.Channel.Events.{IsMask, enable_writing_lem, disable_writing_lem}
use tiny_network_library.Connection.{
  queue_high_water, queue_write_complete, shutdown_write, Connection, Effect, update_channel,
  Outcome, Attempt, WriteResult, accepted, refused, when, after_attempt, buffer_rest, attempt,
  no_attempt, is_idle, is_disconnected, is_connected, is_disconnecting, send_in_loop, send,
  handle_write, drained, handle_read, handle_close, shutdown, shutdown_in_loop, connect_destroyed,
}
use tiny_network_library.Connection.Effects.{Inv}
use tiny_network_library.Connection.Dispatch.{call}
use tiny_network_library.Connection.Lifecycle.{
  Operation, sends_in_loop, sends_elsewhere, writable, readable, closes, shuts, shuts_in_loop,
  is_destroyed, perform, rank,
}
use tiny_network_library.Reactor.{updates, removes, asks}

-- The same descriptor and index, and the interest in reading while the connection is up.
pub record Changes (c d : Connection) : Type 0 where
  pub fd : d.channel.fd ≡ c.channel.fd
  pub index : d.channel.index ≡ c.channel.index
  pub reading : rank d.state ≤ 2 → is_reading d.channel ≡ is_reading c.channel

pub data Shape (c : Connection) (r : Outcome) : Type 0 where
  quiet : asks r.1 ≡ [] → r.0.channel ≡ c.channel → Shape c r
  told : asks r.1 ≡ updates ∷ [] → Changes c r.0 → Shape c r
  removed : asks r.1 ≡ removes ∷ [] → r.0.channel ≡ c.channel → 2 ≤ rank r.0.state → Shape c r
  left : asks r.1 ≡ updates ∷ removes ∷ [] → Changes c r.0 → 3 ≤ rank r.0.state → Shape c r

asks-append : (es fs : List Effect) → asks (es ++ fs) ≡ asks es ++ asks fs
asks-append [] fs = refl
asks-append (e ∷ es) fs = ground (arith, asks-append es fs)

asks_when : (b : Bool) (e : Effect) → asks (e ∷ []) ≡ [] → asks (when b e) ≡ []
asks_when true e h = h
asks_when false e h = refl

-- Effects that ask for nothing, before the others.
behind :
    (c : Connection) (es : List Effect) (r : Outcome)
    → asks es ≡ []
    → Shape c r
    → Shape c (r.0, es ++ r.1)
behind c es r none' (quiet e h) = quiet (rw (asks-append es r.1, none') e) h
behind c es r none' (told e h) = told (rw (asks-append es r.1, none') e) h
behind c es r none' (removed e h k) = removed (rw (asks-append es r.1, none') e) h k
behind c es r none' (left e h k) = left (rw (asks-append es r.1, none') e) h k

buffer_rest-Shape :
    (m : Bytes) (n k : ℕ) (c : Connection) → IsMask c.channel.events → Shape c (buffer_rest m n k c)
unfolding buffer_rest enable_writing
buffer_rest-Shape m n k c v =
    let len = readable_bytes c.output in
    let loud =
      leb c.high_water_mark (add_size len k) && ltb len c.high_water_mark && c.has_high_water in
    let high = asks_when loud (queue_high_water (add_size len k)) refl in
    elim (Bool-cases (is_writing c.channel)) [
      | inl on ↦ rw on (quiet high refl)
      | inr off ↦ rw off (
          told
            (rw
              (
                asks-append (when loud (queue_high_water (add_size len k))) (update_channel ∷ []),
                high,
              )
              refl)
            (record { fd = refl; index = refl; reading = λ h. (enable_writing_lem c.channel v).0 }))
    ]

asks-attempt : (m : Bytes) (w : WriteResult) (b : Bool) → asks (attempt m w b).effects ≡ []
unfolding attempt
asks-attempt m (accepted n) b = asks_when _ queue_write_complete refl
asks-attempt m (refused e) b = refl

after_attempt-Shape :
    (m : Bytes) (a : Attempt) (c : Connection)
    → asks a.effects ≡ []
    → IsMask c.channel.events
    → Shape c (after_attempt m a c)
unfolding after_attempt
after_attempt-Shape m a c none' v = elim (Bool-cases (not a.error && ltb 0 a.remaining)) [
  | inl more ↦ rw more (
      behind c a.effects (buffer_rest m a.nwrote a.remaining c) none'
        (buffer_rest-Shape m a.nwrote a.remaining c v))
  | inr enough ↦ rw enough (quiet none' refl)
]

send_in_loop-Shape :
    (m : Bytes) (w : WriteResult) (c : Connection)
    → IsMask c.channel.events
    → Shape c (send_in_loop m w c)
unfolding send_in_loop no_attempt
send_in_loop-Shape m w c v = elim (Bool-cases (is_disconnected c.state)) [
  | inl down ↦ rw down (quiet refl refl)
  | inr up ↦ elim (Bool-cases (is_idle c)) [
    | inl idle ↦
        rw (up, idle)
          (after_attempt-Shape m (attempt m w c.has_write_complete) c
            (asks-attempt m w c.has_write_complete) v)
    | inr busy ↦ rw (up, busy) (after_attempt-Shape m (no_attempt m) c refl v)
  ]
]

send-Shape : (m : Bytes) (w : WriteResult) (c : Connection) → Shape c (send false m w c)
unfolding send
send-Shape m w c = elim (Bool-cases (is_connected c.state)) [
  | inl up ↦ rw up (quiet refl refl)
  | inr other ↦ rw other (quiet refl refl)
]

shutdown_in_loop-Shape : (c : Connection) → Shape c (shutdown_in_loop c)
unfolding shutdown_in_loop
shutdown_in_loop-Shape c = quiet (asks_when _ shutdown_write refl) refl

shutdown-Shape : (here : Bool) (c : Connection) → Shape c (shutdown here c)
unfolding shutdown shutdown_in_loop
shutdown-Shape here c = elim (Bool-cases (is_connected c.state)) [
  | inr other ↦ rw other (quiet refl refl)
  | inl up ↦ elim (Bool-cases here) [
    | inl same ↦ rw (up, same) (quiet (asks_when _ shutdown_write refl) refl)
    | inr far ↦ rw (up, far) (quiet refl refl)
  ]
]

asks-drained : (c : Connection) → asks (drained c).1 ≡ updates ∷ []
unfolding drained shutdown_in_loop
asks-drained c =
    let q = asks_when c.has_write_complete queue_write_complete refl in
    elim (Bool-cases (is_disconnecting c.state)) [
      | inr other ↦ rw (other, q) refl
      | inl closing ↦
          rw
            (
              closing,
              asks-append,
              q,
              asks_when (not (is_writing (disable_writing c.channel))) shutdown_write refl,
            )
            refl
    ]

drained-Changes : (c : Connection) → IsMask c.channel.events → Changes c (drained c).0
unfolding drained shutdown_in_loop disable_writing
drained-Changes c v = elim (Bool-cases (is_disconnecting c.state)) [
  | inl closing ↦
      rw closing
        (record { fd = refl; index = refl; reading = λ h. (disable_writing_lem c.channel v).0 })
  | inr other ↦
      rw other
        (record { fd = refl; index = refl; reading = λ h. (disable_writing_lem c.channel v).0 })
]

handle_write-Shape :
    (w : WriteResult) (c : Connection) → IsMask c.channel.events → Shape c (handle_write w c)
unfolding handle_write
handle_write-Shape (refused e) c v = quiet refl refl
handle_write-Shape (accepted n) c v = elim (Bool-cases (is_writing c.channel && ltb 0 n)) [
  | inr idle ↦ rw idle (quiet refl refl)
  | inl busy ↦ elim (Bool-cases (readable_bytes (retrieve n c.output) == 0)) [
    | inr left' ↦ rw (busy, left') (quiet refl refl)
    | inl empty ↦
        let c1 : Connection = record c { output = retrieve n c.output } in
        let k = drained-Changes c1 v in
        rw (busy, empty)
          (told (asks-drained c1) (record { fd = k.fd; index = k.index; reading = k.reading }))
  ]
]

handle_close-Shape : (c : Connection) → Shape c (handle_close c)
unfolding handle_close disable_all
handle_close-Shape c =
    told refl (record { fd = refl; index = refl; reading = λ h. absurd (omega arith) })

handle_read-Shape : (r : ReadResult) (c : Connection) → Shape c (handle_read r c)
unfolding handle_read
handle_read-Shape (read_failed e) c = quiet refl refl
handle_read-Shape (received []) c = handle_close-Shape c
handle_read-Shape (received (x ∷ d)) c = quiet refl refl

connect_destroyed-Shape : (c : Connection) → 1 ≤ rank c.state → Shape c (connect_destroyed c)
unfolding connect_destroyed disable_all
connect_destroyed-Shape c h = elim (Bool-cases (is_connected c.state)) [
  | inl up ↦ rw up (
      left refl (record { fd = refl; index = refl; reading = λ k. absurd (omega arith) })
        (omega arith))
  | inr other ↦ rw other (removed refl refl (ground (arith, h)))
]

pub perform-Shape :
    (o : Operation) (c : Connection) → Inv c → 1 ≤ rank c.state → Shape c (perform o c)
unfolding perform
perform-Shape (sends_in_loop m w) c v h = send_in_loop-Shape m w c v.mask
perform-Shape (sends_elsewhere m w) c v h = send-Shape m w c
perform-Shape (writable w) c v h = handle_write-Shape w c v.mask
perform-Shape (readable r) c v h = handle_read-Shape r c
perform-Shape closes c v h = handle_close-Shape c
perform-Shape (shuts here) c v h = shutdown-Shape here c
perform-Shape shuts_in_loop c v h = shutdown_in_loop-Shape c
perform-Shape is_destroyed c v h = connect_destroyed-Shape c h

pub call-Shape :
    (r : ReadResult) (w : WriteResult) (cb : Callback) (c : Connection)
    → Inv c
    → Shape c (call r w cb c)
unfolding call
call-Shape r w close_callback c v = handle_close-Shape c
call-Shape r w error_callback c v = quiet refl refl
call-Shape r w read_callback c v = handle_read-Shape r c
call-Shape r w write_callback c v = handle_write-Shape w c v.mask
