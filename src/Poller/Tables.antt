-- ===== src/Poller/Tables.antt =====
-- A kernel for the theorems on net/poller/: its interest list is a table.
use tiny_network_library.Base.{ℕ, refl, Option, none, some}
use tiny_network_library.Poller.Kernel.{Epoll, Control, add, modify, delete}
use tiny_network_library.Poller.{Table, put}

abbrev control_entry : Control → ℕ → ℕ → Table ℕ → Option ℕ → Option (Table ℕ)
control_entry add fd events k none = some (put fd (some events) k)
control_entry add fd events k (some old) = none
control_entry modify fd events k none = none
control_entry modify fd events k (some old) = some (put fd (some events) k)
control_entry delete fd events k none = none
control_entry delete fd events k (some old) = some (put fd none k)

-- A kernel whose interest list is a table from descriptors to events.
abbrev pub table_kernel : Epoll
table_kernel = record {
  Kernel = Table ℕ;
  interest = λ k fd. k fd;
  ctl = λ op fd events k. control_entry op fd events k (k fd);
  ctl_add = λ fd events k h. (put fd (some events) k, rw h refl, λ j. refl);
  ctl_modify = λ fd events old k h. (put fd (some events) k, rw h refl, λ j. refl);
  ctl_delete = λ fd events old k h. (put fd none k, rw h refl, λ j. refl);
}
