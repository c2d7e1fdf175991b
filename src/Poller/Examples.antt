-- ===== src/Poller/Examples.antt =====
-- The theorems on net/poller/ with an interest list that is a table.
use tiny_network_library.Base.{refl, [], ◌∷◌, List, none, some}
use tiny_network_library.Poller.Tables.{table_kernel}
use tiny_network_library.Poller.{Poller, happened, wants_reading, stops_all, removes}
use tiny_network_library.Poller.Tracked.{Tracked}
use tiny_network_library.Poller.Histories.{Event, requests, polls, init, run, run-init-Tracked}

abbrev script : List Event
script =
    requests wants_reading 1
    ∷ polls (happened ((some 1, 1) ∷ (none, 4) ∷ []))
    ∷ requests stops_all 1
    ∷ requests removes 1
    ∷ []

abbrev sample : Poller table_kernel
sample = run table_kernel script (init table_kernel (λ _. none) (λ id. id))

sample-Tracked : Tracked table_kernel sample
sample-Tracked =
    run-init-Tracked table_kernel script (λ _. none) (λ id. id) (λ i j e. e) (λ n. refl)

run-init-Tracked_example : Tracked table_kernel sample
run-init-Tracked_example =
    run-init-Tracked table_kernel script (λ _. none) (λ id. id) (λ i j e. e) (λ n. refl)
