-- ===== src/Sockets/Opening.antt =====
-- net/Socket.cpp under the constructor and `listen` of net/Acceptor.cpp: what silence in the log means.
use tiny_network_library.Base.{ℕ, Bool, true, some}
use tiny_network_library.Address.{InetAddress}
use tiny_network_library.Sockets.{
  Kernel, Setting, reuse_addr, reuse_port, with_option, optval, Result, and_then, listen, set_up,
}

-- Every setting that the server asks for.
abbrev pub as_asked : InetAddress → Bool → Setting → Setting
as_asked a reuseport x =
    record (with_option reuse_port (optval reuseport) (with_option reuse_addr 1 x)) {
      bound = some a;
      listening = true;
    }

module _ (os : Kernel) where
  open os use {State, setting}

  module _ (a : InetAddress) (reuseport : Bool) (fd : ℕ) (t : State) where
    opened : Result os
    opened = and_then os (set_up os a reuseport fd t) (listen os fd)
