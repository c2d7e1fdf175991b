-- ===== src/Poller/Active.antt =====
-- `poll` and `fillActiveChannels` of net/poller/EpollPoller.cpp: which channels are reported, and
-- with which events.
use tiny_network_library.Base.{
  ℕ, ◌≤◌, ◌≡◌, refl, sym, ap, ◌∙◌, arith, List, [], ◌∷◌, Option, none, some, ◌==◌, if◌then◌else◌,
  Bool-cases, inl, inr,
}
use tiny_network_library.Channel.{Channel, set_revents}
use tiny_network_library.Poller.Kernel.{Epoll}
use tiny_network_library.Poller.{put, Poller, fill_active_channels, poll, happened}
use tiny_network_library.Poller.Tracked.{Tracked}

-- The channels behind the events, without the null pointers.
abbrev pub reported : List (Option ℕ × ℕ) → List ℕ
reported [] = []
reported ((none, mask) ∷ es) = reported es
reported ((some id, mask) ∷ es) = id ∷ reported es

-- The last mask that the events name for a channel, or the one that it had.
abbrev pub last_mask : ℕ → List (Option ℕ × ℕ) → ℕ → ℕ
last_mask id [] old = old
last_mask id ((none, mask) ∷ es) old = last_mask id es old
last_mask id ((some j, mask) ∷ es) old = last_mask id es (if j == id then mask else old)

module _ (os : Epoll) where
  -- The poller `q` is `p` with the masks of `es` put into the channels.
  pub record Reports (es : List (Option ℕ × ℕ)) (p q : Poller os) : Type 0 where
    pub kernel : q.kernel ≡ p.kernel
    pub channels : q.channels ≡ p.channels
    pub store : (j : ℕ) → q.store j ≡ set_revents (last_mask j es (p.store j).revents) (p.store j)

  fill-Reports :
      (es : List (Option ℕ × ℕ)) (p : Poller os) → Reports es p (fill_active_channels os es p).0
  unfolding fill_active_channels set_revents
  fill-Reports [] p = record { kernel = refl; channels = refl; store = λ j. refl }
  fill-Reports ((none, mask) ∷ es) p =
      let r = fill-Reports es p in
      record { kernel = r.kernel; channels = r.channels; store = r.store }
  fill-Reports ((some id, mask) ∷ es) p =
      let p1 : Poller os = record p { store = put id (set_revents mask (p.store id)) p.store } in
      let r = fill-Reports es p1 in
      record {
        kernel = r.kernel;
        channels = r.channels;
        store = λ j. elim (Bool-cases (id == j)) [
          | inl same ↦ ground (arith, r.store j)
          | inr other ↦ ground (arith, r.store j)
        ];
      }

  fill-reported :
      (es : List (Option ℕ × ℕ)) (p : Poller os)
      → ((fill_active_channels os es p).1 ≡ reported es)
        × ((fill_active_channels os es p).0.capacity ≡ p.capacity)
  unfolding fill_active_channels
  fill-reported [] p = (refl, refl)
  fill-reported ((none, mask) ∷ es) p = fill-reported es p
  fill-reported ((some id, mask) ∷ es) p =
      let (a, c) =
        fill-reported es (record p { store = put id (set_revents mask (p.store id)) p.store }) in
      (ap (◌∷◌ id) a, c)

  Reports-Tracked :
      {es : List (Option ℕ × ℕ)} {p q : Poller os} → Tracked os p → Reports es p q → Tracked os q
  unfolding set_revents
  Reports-Tracked {es} {p} {q} t r = record {
    distinct = λ i j e.
        t.distinct i j (
          ap (λ (c : Channel). c.fd) (sym (r.store i))
          ∙ e
          ∙ ap (λ (c : Channel). c.fd) (r.store j));
    table = λ j. rw (r.channels, r.store j) (t.table j);
    list = λ j. rw (r.kernel, r.store j) (t.list j);
  }

  -- Whatever events `epoll_wait` answers, a poller whose tables and indices agree reports the channels behind the returned events in
  -- order, passing over null pointers; afterwards each channel has the last mask returned for it, or
  -- the one that it had, and nothing else of it has changed; table, list and indices still agree,
  -- and the event array has not shrunk.
  pub poll-Reports :
      (es : List (Option ℕ × ℕ)) {p : Poller os}
      → Tracked os p
      → ((poll os (happened es) p).1 ≡ reported es)
        × Reports es p (poll os (happened es) p).0
        × Tracked os (poll os (happened es) p).0
        × (p.capacity ≤ (poll os (happened es) p).0.capacity)
  unfolding poll set_revents
  poll-Reports [] {p} t =
      (refl, record { kernel = refl; channels = refl; store = λ j. refl }, t, omega arith)
  poll-Reports (e ∷ es) {p} t =
      let r = fill-Reports (e ∷ es) p in
      let (a, c) = fill-reported (e ∷ es) p in
      let q = (poll os (happened (e ∷ es)) p).0 in
      let r' : Reports (e ∷ es) p q = record {
        kernel = r.kernel;
        channels = r.channels;
        store = r.store;
      } in
      (a, r', Reports-Tracked t r', ground (arith, c))
