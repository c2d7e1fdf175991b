-- ===== src/Poller/Histories.antt =====
-- A poller from its construction on: any sequence of requests and polls.
use tiny_network_library.Base.{ℕ, ◌≡◌, refl, List, [], ◌∷◌, none}
use tiny_network_library.Channel
use tiny_network_library.Channel.{Channel}
use tiny_network_library.Poller.Kernel.{Epoll}
use tiny_network_library.Poller.{
  Poller, Request, request, poll, WaitResult, wait_failed, happened, init_event_list_size,
}
use tiny_network_library.Poller.Tracked.{Tracked}
use tiny_network_library.Poller.Update.{request-Tracked}
use tiny_network_library.Poller.Active.{poll-Reports}

pub data Event : Type 0 where
  requests : Request → ℕ → Event
  polls : WaitResult → Event

module _ (os : Epoll) where
  open os use {Kernel, interest}

  -- A new poller; the channel at address `id` is for the descriptor `fd id`.
  unfoldable pub init : Kernel → (ℕ → ℕ) → Poller os
  init k fd = record {
    kernel = k;
    channels = λ _. none;
    store = λ id. Channel.new (fd id);
    capacity = init_event_list_size;
  }

  unfoldable pub step : Event → Poller os → Poller os
  step (requests r id) p = request os r id p
  step (polls w) p = (poll os w p).0

  unfoldable pub run : List Event → Poller os → Poller os
  run [] p = p
  run (e ∷ es) p = run es (step e p)

  pub init-Tracked :
      (k : Kernel) (fd : ℕ → ℕ)
      → ((i j : ℕ) → fd i ≡ fd j → i ≡ j)
      → ((n : ℕ) → interest k n ≡ none)
      → Tracked os (init k fd)
  unfolding init Channel.new
  init-Tracked k fd apart empty = record {
    distinct = apart;
    table = λ j. refl;
    list = λ j. empty (fd j);
  }

  step-Tracked : (e : Event) {p : Poller os} → Tracked os p → Tracked os (step e p)
  unfolding step poll
  step-Tracked (requests r id) t = request-Tracked os r id t
  step-Tracked (polls wait_failed) t = t
  step-Tracked (polls (happened es)) t = (poll-Reports os es t).2

  run-Tracked : (es : List Event) {p : Poller os} → Tracked os p → Tracked os (run es p)
  unfolding run
  run-Tracked [] t = t
  run-Tracked (e ∷ es) t = run-Tracked es (step-Tracked e t)

  -- After any sequence of requests and polls on a new poller with an empty interest list and
  -- channels with different descriptors, the poller's table, the kernel's interest list and the
  -- index of every channel agree.
  pub run-init-Tracked :
      (es : List Event) (k : Kernel) (fd : ℕ → ℕ)
      → ((i j : ℕ) → fd i ≡ fd j → i ≡ j)
      → ((n : ℕ) → interest k n ≡ none)
      → Tracked os (run es (init k fd))
  run-init-Tracked es k fd apart empty = run-Tracked es (init-Tracked k fd apart empty)
