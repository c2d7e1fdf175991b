-- ===== src/Clock.antt =====
-- base/Timestamp.hpp and base/Timestamp.cpp: microseconds since 1970. Times before 1970, and those
-- that leave an `int64_t`, are not modelled. A `double` number of seconds enters as what the code
-- takes of it: whether it is positive, and its microseconds after the cast to `int64_t`.
use tiny_network_library.Base.{
  zero, suc, ◌-◌, ◌++◌, ◌∷◌, [], Bytes, length, decimal, if◌then◌else◌, ℕ, ◌+◌, ◌*◌, ◌/◌, ◌%◌, ◌≤◌,
  ◌<◌, ◌≡◌, arith, Bool, ltb,
}

pub record Timestamp : Type 0 where
  pub microseconds : ℕ

abbrev pub per_second : ℕ
per_second = 1000 * 1000

unfoldable pub from_parts : ℕ → ℕ → Timestamp
from_parts s us = record { microseconds = s * per_second + us }

unfoldable pub seconds : Timestamp → ℕ
seconds t = t.microseconds / per_second

unfoldable pub invalid : Timestamp
invalid = record { microseconds = 0 }

-- A number of seconds: `_ > 0.0`, and `static_cast<int64_t>(_ * 1000000)`.
pub record Seconds : Type 0 where
  pub is_positive : Bool
  pub micros : ℕ

unfoldable pub add_time : Timestamp → Seconds → Timestamp
add_time t s = record { microseconds = t.microseconds + s.micros }

abbrev pub before : Timestamp → Timestamp → Bool
before a b = ltb a.microseconds b.microseconds

-- Whole seconds and the microseconds within the second make up the time.
pub seconds_lem : (t : Timestamp) → from_parts (seconds t) (t.microseconds % per_second) ≡ t
unfolding from_parts seconds
seconds_lem t = ground arith

-- The start of a period of `n` seconds, `now.seconds() / n * n`.
unfoldable pub period_start : ℕ → Timestamp → Timestamp
unfolding from_parts seconds
period_start n t = from_parts (seconds t / n * n) 0

-- A period of a day begins at most a day before, at a whole number of days.
pub period_start_day :
    (t : Timestamp)
    → ((period_start 86400 t).microseconds ≤ t.microseconds)
      × (t.microseconds < (period_start 86400 t).microseconds + 86400 * per_second)
      × ((period_start 86400 t).microseconds % (86400 * per_second) ≡ 0)
unfolding period_start
period_start_day t = omega arith

-- `{:06}`: zeros in front of a number, up to a width.
abbrev pub zeros : ℕ → Bytes
zeros zero = []
zeros (suc n) = 48 ∷ zeros n

abbrev pub padded : ℕ → Bytes → Bytes
padded width s = zeros (width - length s) ++ s

-- `toString`: `local_time` is the text that the fmt library makes of the seconds in local time.
unfoldable pub to_string : (ℕ → Bytes) → Bool → Timestamp → Bytes
to_string local_time show_microseconds t =
    if show_microseconds
    then local_time (seconds t) ++ (46 ∷ padded 6 (decimal (t.microseconds % per_second)))
    else local_time (seconds t)

-- `now`: the clock counts in ticks, `per_tick` of them to a microsecond.
unfoldable pub now : ℕ → ℕ → Timestamp
now per_tick ticks = record { microseconds = ticks / per_tick }
