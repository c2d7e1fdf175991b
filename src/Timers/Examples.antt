-- ===== src/Timers/Examples.antt =====
-- The theorems on timer/ and base/Timestamp.cpp with two timers.
use tiny_network_library.Base.{
  ℕ, ◌+◌, ◌*◌, ◌%◌, ◌≤◌, ◌<◌, ◌≡◌, arith, [], ◌∷◌, none, some, true, false,
}
use tiny_network_library.Clock.{Timestamp, period_start, period_start_day, per_second}
use tiny_network_library.Timers.{Timer, Entry, TimerQueue, handle_read, put_timer}
use tiny_network_library.Timers.Arming.{handle_read_unarmed}

abbrev at : ℕ → Timestamp
at n = record { microseconds = n }

-- A timer that repeats every 20 microseconds, and one that runs once.
abbrev repeating : Timer
repeating = record {
  callback = 100;
  expiration = at 10;
  interval = record { is_positive = true; micros = 20 };
  repeat = true;
}

abbrev single : Timer
single = record {
  callback = 200;
  expiration = at 40;
  interval = record { is_positive = false; micros = 0 };
  repeat = false;
}

abbrev first_entry : Entry
first_entry = record { when = at 10; timer = 1 }

abbrev second_entry : Entry
second_entry = record { when = at 40; timer = 2 }

abbrev sample : TimerQueue
sample = record {
  entries = first_entry ∷ second_entry ∷ [];
  store = put_timer 1 (some repeating) (put_timer 2 (some single) (λ _. none));
  armed = some (at 10);
}

-- At 15 the repeating timer has expired, and a callback adds a third timer.
abbrev afterwards : TimerQueue
afterwards = (handle_read (at 15) ((3, single) ∷ []) sample).0

handle_read_unarmed_example :
    ((handle_read (at 5) [] sample).0 ≡ sample) × ((handle_read (at 5) [] sample).1 ≡ [])
handle_read_unarmed_example = handle_read_unarmed (at 5) sample (omega arith)

period_start_day_example :
    ((period_start 86400 (at 90000000000)).microseconds ≤ 90000000000)
    × (90000000000 < (period_start 86400 (at 90000000000)).microseconds + 86400 * per_second)
    × ((period_start 86400 (at 90000000000)).microseconds % (86400 * per_second) ≡ 0)
period_start_day_example = period_start_day (at 90000000000)
