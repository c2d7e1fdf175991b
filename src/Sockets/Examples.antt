-- ===== src/Sockets/Examples.antt =====
-- The theorem on net/Socket.cpp with a kernel that keeps the settings of its sockets in a function.
use tiny_network_library.Base.{
  ℕ, ◌≡◌, sym, ap, ◌∙◌, arith, true, false, Option, none, some, ◌==◌, if◌then◌else◌,
}
use tiny_network_library.Address.{InetAddress}
use tiny_network_library.Sockets.{
  Kernel, Setting, with_option, zero_address, Result, set_option, set_reuse_addr, set_reuse_port,
  create_nonblocking, and_then, create_nonblocking, set_up, listen, set_reuse_addr, set_reuse_port,
  set_option,
}

abbrev plain : Setting
plain = record { options = λ o. 0; bound = none; listening = false }

abbrev set_at : ℕ → Setting → (ℕ → Setting) → ℕ → Setting
set_at fd x s n = if fd == n then x else s n

set_here : (fd : ℕ) (x : Setting) (s t : ℕ → Setting) → some (set_at fd x s) ≡ some t → t fd ≡ x
set_here fd x s t e = sym (ap at_fd e) ∙ ground arith
  where
    at_fd : Option (ℕ → Setting) → Setting
    at_fd none = x
    at_fd (some u) = u fd

-- Every socket is number 3, and every call succeeds.
abbrev sample_kernel : Kernel
sample_kernel = record {
  State = ℕ → Setting;
  setting = λ s fd. s fd;
  socket = λ s. some (3, set_at 3 plain s);
  setsockopt = λ fd o value s. some (set_at fd (with_option o value (s fd)) s);
  bind = λ fd a s. some (set_at fd (record (s fd) { bound = some a }) s);
  listen = λ fd s. some (set_at fd (record (s fd) { listening = true }) s);
  accept4 = λ fd s. some (4, zero_address, s);
  shutdown = λ fd s. some s;
  close = λ fd s. s;
  setsockopt_sets = λ fd o value s t e. set_here fd (with_option o value (s fd)) s t e;
  bind_binds = λ fd a s t h e. set_here fd (record (s fd) { bound = some a }) s t e;
  listen_listens = λ fd a s t h e. set_here fd (record (s fd) { listening = true }) s t e;
}

abbrev before : ℕ → Setting
before n = plain

abbrev port_80 : InetAddress
port_80 = record { port = 80; address = 0 }

abbrev after : Result sample_kernel
after =
    (and_then sample_kernel (set_up sample_kernel port_80 true 3 (set_at 3 plain before))
      (listen sample_kernel 3))
