-- ===== src/Log/Roll.antt =====
-- `write` and `rollFile` of log/AsyncLogFile.cpp: the output file and when a new one is begun.
use tiny_network_library.Base.{
  ℕ, ◌+◌, ◌*◌, ◌<◌, ◌≡◌, inl, inr, refl, sym, ◌∙◌, arith, [], ◌++◌, length, Bytes, append_assoc,
  append-nil, leb, if◌then◌else◌, ◌==◌, Bool-cases,
}
use tiny_network_library.Clock.{Timestamp, Seconds, before, add_time, period_start}

abbrev pub seconds_per_roll : ℕ
seconds_per_roll = 60 * 60 * 24

-- `closed` holds what went to earlier files, `current` what went to the open one, which is what its
-- `tellp` counts for a file that was new. `flushes` counts the explicit flushes by time.
pub record Output : Type 0 where
  pub roll_size : ℕ
  pub flush_interval : Seconds
  pub check_every : ℕ
  pub count : ℕ
  pub start_of_period : Timestamp
  pub last_roll : Timestamp
  pub last_flush : Timestamp
  pub closed : Bytes
  pub current : Bytes
  pub flushes : ℕ

-- `rollFile()` at a time `now`.
unfoldable pub roll_file : Timestamp → Output → Output
roll_file now o =
    if before o.last_roll now
    then record o {
      last_roll = now;
      last_flush = now;
      start_of_period = period_start seconds_per_roll now;
      closed = o.closed ++ o.current;
      current = [];
    }
    else o

-- The checks made once in `check_every` writes, at a time `now`; `later` is the time that a roll
-- reads for itself.
unfoldable pub check_period : Timestamp → Timestamp → Output → Output
unfolding roll_file
check_period now later o =
    if (period_start seconds_per_roll now).microseconds == o.start_of_period.microseconds
    then (if before (add_time o.last_flush o.flush_interval) now
        then record o { last_flush = now; flushes = o.flushes + 1 }
        else o)
    else roll_file later o

-- `write(buf, len)`.
unfoldable pub write : Bytes → Timestamp → Timestamp → Output → Output
unfolding roll_file check_period
write s now later o =
    let o1 = record o { current = o.current ++ s } in
    if leb o.roll_size (length o1.current)
    then roll_file later o1
    else (let o2 = record o1 { count = o1.count + 1 } in
        if leb o.check_every o2.count then check_period now later (record o2 { count = 0 }) else o2)

-- Everything that was written, in order.
abbrev pub all_written : Output → Bytes
all_written o = o.closed ++ o.current

all_written-roll_file :
    (now : Timestamp) (o : Output) → all_written (roll_file now o) ≡ all_written o
unfolding roll_file
all_written-roll_file now o = elim (Bool-cases (before o.last_roll now)) [
  | inl roll ↦ rw roll (append-nil (o.closed ++ o.current))
  | inr stay ↦ rw stay refl
]

all_written-check_period :
    (now later : Timestamp) (o : Output) → all_written (check_period now later o) ≡ all_written o
unfolding check_period
all_written-check_period now later o =
    elim (Bool-cases
      ((period_start seconds_per_roll now).microseconds == o.start_of_period.microseconds)) [
        | inl same ↦ rw same (ground arith)
        | inr other ↦ rw other (all_written-roll_file later o)
      ]

-- Whatever the times and limits, a write puts its bytes behind all that were written before, over
-- the sequence of files.
pub all_written-write :
    (s : Bytes) (now later : Timestamp) (o : Output)
    → all_written (write s now later o) ≡ all_written o ++ s
unfolding write
all_written-write s now later o =
    let o1 : Output = record o { current = o.current ++ s } in
    let base : all_written o1 ≡ all_written o ++ s = sym (append_assoc o.closed o.current s) in
    elim (Bool-cases (leb o.roll_size (length (o.current ++ s)))) [
      | inl large ↦ rw large (all_written-roll_file later o1 ∙ base)
      | inr small ↦ elim (Bool-cases (leb o.check_every (o.count + 1))) [
        | inl check ↦
            rw (small, check) (all_written-check_period now later (record o1 { count = 0 }) ∙ base)
        | inr wait ↦ rw (small, wait) base
      ]
    ]

-- With positive limits, a count below its limit, and a clock that has moved since the last roll: after
-- a write the open file is smaller than the roll size, and the count is below its limit again.
pub write_bounds :
    (s : Bytes) (now later : Timestamp) (o : Output)
    → 0 < o.roll_size
    → 0 < o.check_every
    → o.count < o.check_every
    → o.last_roll.microseconds < later.microseconds
    → (length (write s now later o).current < o.roll_size)
      × ((write s now later o).count < o.check_every)
unfolding write check_period roll_file
write_bounds s now later o a b c d = ground arith
