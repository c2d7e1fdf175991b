-- ===== src/Log/Examples.antt =====
-- The theorems on log/ with a buffer of four bytes.
use tiny_network_library.Base.{List, ℕ, ◌≡◌, refl, arith, [], ◌∷◌, some, true, inr}
use tiny_network_library.Clock.{Timestamp}
use tiny_network_library.Log.File.Life.{append_all-destroy, new, destroy}
use tiny_network_library.Log.FixedBuffer.{FixedBuffer, IsValid, text, c_string}
use tiny_network_library.Log.File.{LogFile, Inv, append_all}
use tiny_network_library.Log.Async.{Event, appends, stops, works}
use tiny_network_library.Log.Async
use tiny_network_library.Log.Async.Exchange.{Adds}
use tiny_network_library.Log.Async.Histories.{run-Adds, init-Inv}
use tiny_network_library.Log.Roll.{Output}

-- "a" in a buffer of four bytes.
abbrev sample : FixedBuffer
sample = record { memory = 97 ∷ 0 ∷ 0 ∷ 0 ∷ []; cur = 1 }

sample-IsValid : IsValid 4 sample
sample-IsValid = omega arith

abbrev sample_file : LogFile
sample_file = record { buffer = sample; file = 33 ∷ [] }

sample_file-Inv : Inv 4 sample_file
unfolding text c_string
sample_file-Inv = record { valid = sample-IsValid; ended = inr refl; no_zero = omega arith }

append_all-destroy_example :
    (g : LogFile) × (append_all ((98 ∷ []) ∷ (99 ∷ 100 ∷ []) ∷ []) (new (7 ∷ 7 ∷ 7 ∷ []) (33 ∷ []))
      ≡ some g)
    × ((destroy g).file ≡ 33 ∷ 98 ∷ 99 ∷ 100 ∷ [])
append_all-destroy_example =
    append_all-destroy (7 ∷ 7 ∷ 7 ∷ []) (33 ∷ []) (98 ∷ []) ((99 ∷ 100 ∷ []) ∷ []) (omega arith)
      (omega arith) (omega arith)

abbrev at : ℕ → Timestamp
at n = record { microseconds = n }

abbrev output : Output
output = record {
  roll_size = 4;
  flush_interval = record { is_positive = true; micros = 3000000 };
  check_every = 2;
  count = 1;
  start_of_period = at 0;
  last_roll = at 10;
  last_flush = at 10;
  closed = 1 ∷ [];
  current = 2 ∷ 3 ∷ [];
  flushes = 0;
}

-- One line is written, another waits when the log is stopped.
abbrev script : List Event
script = appends (97 ∷ []) ∷ works ∷ works ∷ works ∷ appends (98 ∷ []) ∷ stops ∷ works ∷ []

run-Adds_example : Adds 4 (97 ∷ 98 ∷ []) (Async.init 4) (Async.run 4 script (Async.init 4))
run-Adds_example = run-Adds script (init-Inv 4 (omega arith)) (omega arith)
