-- ===== src/Poller/Kernel.antt =====
-- The interest list that `epoll_ctl` keeps, as its manual page describes it, for a kernel that has
-- the memory for another entry.
use tiny_network_library.Base.{ℕ, ◌≡◌, Option, none, some, ◌==◌, if◌then◌else◌}

-- EPOLL_CTL_ADD, EPOLL_CTL_MOD and EPOLL_CTL_DEL.
pub data Control : Type 0 where
  add modify delete : Control

-- `ctl` returns the new kernel, or `none` for a negative result. A descriptor can be added once,
-- and changed or deleted while it is there; no call touches another descriptor.
pub record Epoll : Type 1 where
  pub Kernel : Type 0
  pub interest : Kernel → ℕ → Option ℕ
  pub ctl : Control → ℕ → ℕ → Kernel → Option Kernel
  pub ctl_add :
      (fd events : ℕ) (k : Kernel)
      → interest k fd ≡ none
      → (k' : Kernel) × (ctl add fd events k ≡ some k')
        × ((j : ℕ) → interest k' j ≡ (if fd == j then some events else interest k j))
  pub ctl_modify :
      (fd events old : ℕ) (k : Kernel)
      → interest k fd ≡ some old
      → (k' : Kernel) × (ctl modify fd events k ≡ some k')
        × ((j : ℕ) → interest k' j ≡ (if fd == j then some events else interest k j))
  pub ctl_delete :
      (fd events old : ℕ) (k : Kernel)
      → interest k fd ≡ some old
      → (k' : Kernel) × (ctl delete fd events k ≡ some k')
        × ((j : ℕ) → interest k' j ≡ (if fd == j then none else interest k j))
