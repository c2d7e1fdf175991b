-- ===== src/Reactor/Examples.antt =====
-- The theorems on net/EventLoop.cpp as a whole: one connection with bytes that wait, and one functor of
-- another thread.
use Prim.Native.Nat.{bit_or}
use tiny_network_library.Base.{
  ◌<◌, ◌≡◌, refl, arith, [], ◌∷◌, Bytes, none, some, if◌then◌else◌, ◌==◌, inl, ◌++◌,
}
use tiny_network_library.Buffer.{readable_bytes}
use tiny_network_library.Buffer
use tiny_network_library.Channel.{read_event, write_event, enable_reading, tie}
use tiny_network_library.Channel
use tiny_network_library.Connection.{Connection, accepted, connect_established, send_in_loop}
use tiny_network_library.Connection
use tiny_network_library.Connection.Lifecycle.{sends_in_loop, perform}
use tiny_network_library.Loop.{other_pushes, other_wakes}
use tiny_network_library.Loop
use tiny_network_library.Poller
use tiny_network_library.Poller.Histories
use tiny_network_library.Poller.Tables.{table_kernel}
use tiny_network_library.Reactor.{
  Reactor, Reachable, init, established, act, commit, destruct, loaded, starts, then', establishes,
  operates, goes_on,
}
use tiny_network_library.Reactor.Served.{Reachable-serves, Reachable-wakes}
use tiny_network_library.Reactor.Ends.{Reachable-destruct}

abbrev hello : Bytes
hello = 104 ∷ 105 ∷ []

abbrev fresh_reactor : Reactor table_kernel
fresh_reactor = init table_kernel (λ _. none) (λ id. id)

abbrev one_up : Reactor table_kernel
one_up = established table_kernel 2 fresh_reactor

abbrev first : Connection
first = (connect_established (Connection.new (fresh_reactor.poller.store 2).fd)).0

one_up-Reachable : Reachable table_kernel (λ _. none) (λ id. id) one_up
unfolding init
one_up-Reachable = then' starts (establishes 2 (omega arith) refl)

abbrev one_waits : Reactor table_kernel
one_waits = act table_kernel 2 (perform (sends_in_loop hello (accepted 1))) one_up

one_waits-Reachable : Reachable table_kernel (λ _. none) (λ id. id) one_waits
unfolding init established connect_established Connection.new Buffer.new commit
one_waits-Reachable =
    then' one_up-Reachable (
      operates {c = first} 2 (sends_in_loop hello (accepted 1)) refl (omega arith, tt, omega arith))

abbrev second : Connection
second = (perform (sends_in_loop hello (accepted 1)) (loaded table_kernel one_up 2 first)).0

Reachable-serves_example :
    table_kernel.interest one_waits.poller.kernel (one_waits.poller.store 2).fd
    ≡ some (if readable_bytes second.output == 0 then read_event else bit_or read_event write_event)
unfolding act established init perform connect_established Connection.new send_in_loop
    Poller.update_channel Channel.is_writing enable_reading tie Channel.new
    Channel.set_read_callback Histories.init Channel.set_index Buffer.new
Reachable-serves_example =
    Reachable-serves table_kernel (λ i j e. e) (λ n. refl) one_waits-Reachable 2 second refl
      (inl refl)

-- Another thread queues a functor.
abbrev called_up : Reactor table_kernel
called_up = record one_up {
  system = record one_up.system {
    loop = Loop.wakeup (Loop.push 7 one_up.system.loop);
    posted = 0;
    queued = one_up.system.queued ++ (7 ∷ []);
  };
}

called_up-Reachable : Reachable table_kernel (λ _. none) (λ id. id) called_up
unfolding init established commit Loop.start
called_up-Reachable =
    then' (then' one_up-Reachable (goes_on (other_pushes 7) refl))
      (goes_on (other_wakes 0 refl) refl)

Reachable-wakes_example :
    (0 < called_up.system.loop.wakeups)
    × (table_kernel.interest called_up.poller.kernel (called_up.poller.store 0).fd
        ≡ some read_event)
unfolding init established commit Loop.start Loop.push Loop.wakeup Loop.new
Reachable-wakes_example =
    Reachable-wakes table_kernel (λ i j e. e) (λ n. refl) called_up-Reachable refl refl
      (omega arith)

Reachable-destruct_example :
    table_kernel.interest (destruct table_kernel one_up).poller.kernel (one_up.poller.store 0).fd
    ≡ none
Reachable-destruct_example =
    Reachable-destruct table_kernel (λ i j e. e) (λ n. refl) one_up-Reachable 0
