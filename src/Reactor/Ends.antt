-- ===== src/Reactor/Ends.antt =====
-- The destructors of net/EventLoop.cpp and timer/TimerQueue.cpp: what they take from the kernel's list.
use tiny_network_library.Base.{
  ℕ, ◌≡◌, refl, sym, ap, ◌∙◌, arith, none, ◌==◌, if◌then◌else◌, Bool-cases, inl, inr, ltb,
}
use tiny_network_library.Channel.{fresh, disable_all, set_index}
use tiny_network_library.Poller.Kernel.{Epoll}
use tiny_network_library.Poller.{Poller}
use tiny_network_library.Poller.Tracked.{Tracked}
use tiny_network_library.Reactor.{Reactor, Reachable, unwatch, destruct}
use tiny_network_library.Reactor.Placed.{Placed, leaves-Placed}
use tiny_network_library.Reactor.Steps.{Reachable-Good}

module _ (os : Epoll) where
  open os use {Kernel, interest}

  unwatch-Placed :
      (id : ℕ) {p : Poller os}
      → Tracked os p
      → Placed os p id fresh (disable_all (p.store id)) (unwatch os id p)
  unfolding unwatch disable_all
  unwatch-Placed id {p} t = leaves-Placed os t id (disable_all (p.store id)) refl refl

  -- The descriptor of every channel stays, and one entry of the kernel's list goes.
  module _ (id : ℕ) {p : Poller os} (t : Tracked os p) where
    fd-unwatch : (j : ℕ) → ((unwatch os id p).store j).fd ≡ (p.store j).fd
    unfolding set_index disable_all
    fd-unwatch j = elim (Bool-cases (id == j)) [
      | inl same ↦ ground (arith, (unwatch-Placed id t).store j)
      | inr other ↦ ground (arith, (unwatch-Placed id t).store j)
    ]

    interest-unwatch :
        (j : ℕ)
        → interest (unwatch os id p).kernel (p.store j).fd
          ≡ (if id == j then none else interest p.kernel (p.store j).fd)
    unfolding set_index disable_all
    interest-unwatch j =
        let h = unwatch-Placed id t in
        let e = ap (interest (unwatch os id p).kernel) (sym (fd-unwatch j)) ∙ h.tracked.list j in
        elim (Bool-cases (id == j)) [
          | inl same ↦ rw same (e ∙ rw (h.store j, same) refl)
          | inr other ↦ rw other (e ∙ rw (h.store j, other) (sym (t.list j)))
        ]

  -- The destructor takes the wake-up descriptor and the timer descriptor from the kernel's list, and no
  -- other: the entry of every other channel is as it was. The kernel's list must be empty at the start,
  -- and the channels have different descriptors.
  pub Reachable-destruct :
      {k : Kernel} {fd : ℕ → ℕ} {r : Reactor os}
      → ((i j : ℕ) → fd i ≡ fd j → i ≡ j)
      → ((n : ℕ) → interest k n ≡ none)
      → Reachable os k fd r
      → (id : ℕ)
      → interest (destruct os r).poller.kernel (r.poller.store id).fd
        ≡ (if ltb id 2 then none else interest r.poller.kernel (r.poller.store id).fd)
  unfolding destruct
  Reachable-destruct {r} apart empty h id =
      let g = Reachable-Good os apart empty h in
      let t = (unwatch-Placed 0 g.tracked).tracked in
      let e0 = interest-unwatch 0 g.tracked id in
      let e1 = interest-unwatch 1 t id in
      let f = fd-unwatch 0 g.tracked id in
      ap (interest (unwatch os 1 (unwatch os 0 r.poller)).kernel) (sym f)
      ∙ e1
      ∙ ap (λ o. if 1 == id then none else o) (ap (interest (unwatch os 0 r.poller).kernel) f ∙ e0)
      ∙ ground arith
