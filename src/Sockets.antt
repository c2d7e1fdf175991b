-- ===== src/Sockets.antt =====
-- net/Socket.hpp and net/Socket.cpp: the calls on a socket, each of which logs a failure and goes on. The
-- kernel is an interface; what it keeps of a socket is what its manual pages name.
pub mod Opening
mod Examples
use tiny_network_library.Base.{
  ℕ, ◌≡◌, Bool, true, false, List, [], ◌∷◌, ◌++◌, Option, none, some, if◌then◌else◌, ◌==◌,
}
use tiny_network_library.Address.{InetAddress}

-- TCP_NODELAY, SO_REUSEADDR, SO_REUSEPORT and SO_KEEPALIVE.
pub data SocketOption : Type 0 where
  no_delay reuse_addr reuse_port keep_alive : SocketOption

abbrev pub same_option : SocketOption → SocketOption → Bool
same_option no_delay no_delay = true
same_option reuse_addr reuse_addr = true
same_option reuse_port reuse_port = true
same_option keep_alive keep_alive = true
same_option _ _ = false

-- What a socket is set to: the values of its options, its address, and whether it listens.
pub record Setting : Type 0 where
  pub options : SocketOption → ℕ
  pub bound : Option InetAddress
  pub listening : Bool

abbrev pub with_option : SocketOption → ℕ → Setting → Setting
with_option o value x = record x { options = λ p. if same_option o p then value else x.options p }

-- The system calls: `none` is a negative result. A call that succeeds has set what it was asked to set, and
-- nothing else of the socket. Of `bind` to port 0, where the kernel picks the port, and of `listen` on a
-- socket without an address, which gives it one, nothing is asked.
pub record Kernel : Type 1 where
  pub State : Type 0
  pub setting : State → ℕ → Setting
  pub socket : State → Option (ℕ × State)
  pub setsockopt : ℕ → SocketOption → ℕ → State → Option State
  pub bind : ℕ → InetAddress → State → Option State
  pub listen : ℕ → State → Option State
  pub accept4 : ℕ → State → Option (ℕ × InetAddress × State)
  pub shutdown : ℕ → State → Option State
  pub close : ℕ → State → State
  pub setsockopt_sets :
      (fd : ℕ) (o : SocketOption) (value : ℕ) (s t : State)
      → setsockopt fd o value s ≡ some t
      → setting t fd ≡ with_option o value (setting s fd)
  pub bind_binds :
      (fd : ℕ) (a : InetAddress) (s t : State)
      → (a.port == 0) ≡ false
      → bind fd a s ≡ some t
      → setting t fd ≡ record (setting s fd) { bound = some a }
  pub listen_listens :
      (fd : ℕ) (a : InetAddress) (s t : State)
      → (setting s fd).bound ≡ some a
      → listen fd s ≡ some t
      → setting t fd ≡ record (setting s fd) { listening = true }

-- The line that a failure leaves in the log.
pub data Line : Type 0 where
  bind_failed listen_failed accept_failed shutdown_failed : Line
  setsockopt_failed : SocketOption → Line

-- INADDR_ANY and port 0, as `memset` leaves them.
abbrev pub zero_address : InetAddress
zero_address = record { port = 0; address = 0 }

abbrev pub optval : Bool → ℕ
optval on = if on then 1 else 0

module _ (os : Kernel) where
  open os use {State}

  -- The state of the kernel, and what was logged.
  abbrev pub Result : Type 0
  Result = State × List Line

  abbrev pub or_log : Line → State → Option State → Result
  or_log line s none = (s, line ∷ [])
  or_log line s (some t) = (t, [])

  abbrev pub and_then : Result → (State → Result) → Result
  and_then r f = let (s, lines) = f r.0 in (s, r.1 ++ lines)

  unfoldable pub bind_address : ℕ → InetAddress → State → Result
  bind_address fd a s = or_log bind_failed s (os.bind fd a s)

  unfoldable pub listen : ℕ → State → Result
  listen fd s = or_log listen_failed s (os.listen fd s)

  -- The result is `none` for a negative descriptor; the peer's address is written in any case.
  unfoldable pub accept : ℕ → State → Option ℕ × InetAddress × Result
  accept fd s = elim (os.accept4 fd s) [
    | none ↦ (none, zero_address, (s, accept_failed ∷ []))
    | some (conn, peer, t) ↦ (some conn, peer, (t, []))
  ]

  unfoldable pub shutdown_write : ℕ → State → Result
  shutdown_write fd s = or_log shutdown_failed s (os.shutdown fd s)

  unfoldable pub set_option : SocketOption → ℕ → Bool → State → Result
  set_option o fd on s = or_log (setsockopt_failed o) s (os.setsockopt fd o (optval on) s)

  unfoldable pub set_tcp_no_delay : ℕ → Bool → State → Result
  unfolding set_option
  set_tcp_no_delay fd on s = set_option no_delay fd on s

  unfoldable pub set_reuse_addr : ℕ → Bool → State → Result
  unfolding set_option
  set_reuse_addr fd on s = set_option reuse_addr fd on s

  unfoldable pub set_reuse_port : ℕ → Bool → State → Result
  unfolding set_option
  set_reuse_port fd on s = set_option reuse_port fd on s

  unfoldable pub set_keep_alive : ℕ → Bool → State → Result
  unfolding set_option
  set_keep_alive fd on s = set_option keep_alive fd on s

  unfoldable pub destroy : ℕ → State → State
  destroy fd s = os.close fd s

  -- `createNonblocking` of net/Acceptor.cpp: `none` is `abort`.
  unfoldable pub create_nonblocking : State → Option (ℕ × State)
  create_nonblocking s = os.socket s

  -- The constructor of an Acceptor on a new socket, as far as the socket goes.
  unfoldable pub set_up : InetAddress → Bool → ℕ → State → Result
  unfolding set_reuse_addr set_reuse_port bind_address
  set_up a reuseport fd s =
      and_then (and_then (set_reuse_addr fd true s) (set_reuse_port fd reuseport))
        (bind_address fd a)

  -- The constructor, and then `listen` of the Acceptor.
  unfoldable pub open_acceptor : InetAddress → Bool → State → Option (ℕ × Result)
  unfolding create_nonblocking set_up listen
  open_acceptor a reuseport s = elim (create_nonblocking s) [
    | none ↦ none
    | some (fd, t) ↦ some (fd, and_then (set_up a reuseport fd t) (listen fd))
  ]
