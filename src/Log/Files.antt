-- ===== src/Log/Files.antt =====
-- `getLogFileName`, `rollFile` and `write` of log/AsyncLogFile.cpp with the files that they name. A file is
-- opened for appending: a name that was used before goes on where it ended.
pub mod Whole
mod Examples
use tiny_network_library.Base.{
  ℕ, ◌+◌, Bool, true, false, List, [], ◌∷◌, ◌++◌, Option, none, some, Bytes, length, leb, ◌==◌,
  bytes_eq, codes, if◌then◌else◌,
}
use tiny_network_library.Clock.{
  Timestamp, Seconds, before, add_time, period_start, to_string, invalid,
}
use tiny_network_library.Log.Roll.{seconds_per_roll}

-- The writing half of an AsyncLogFile: `name` is the open file, if there is one, and `files` has the text
-- of each file by its name. A file that is not there has the empty text.
pub record Writer : Type 0 where
  pub basename : Bytes
  pub roll_size : ℕ
  pub flush_interval : Seconds
  pub check_every : ℕ
  pub count : ℕ
  pub start_of_period : Timestamp
  pub last_roll : Timestamp
  pub last_flush : Timestamp
  pub files : Bytes → Bytes
  pub name : Option Bytes
  pub flushes : ℕ

-- One call of `write`: the bytes, the time of its own clock reading and of that in `rollFile`.
pub record Call : Type 0 where
  pub bytes : Bytes
  pub now : Timestamp
  pub later : Timestamp

-- `close` and then `open` with `std::ios::app`.
unfoldable pub reopen : Bytes → Writer → Writer
reopen name w = record w { name = some name }

-- `_file.write`: what is written goes behind the text of the open file, and nowhere if none is open.
unfoldable pub append_to : Option Bytes → Bytes → (Bytes → Bytes) → Bytes → Bytes
append_to none s files n = files n
append_to (some name) s files n = if bytes_eq name n then files n ++ s else files n

-- `_file.tellp() >= _rollSize` behind a write: the position is the end of the open file, and -1 without one.
unfoldable pub is_full : ℕ → Option Bytes → (Bytes → Bytes) → Bool
is_full roll_size none files = false
is_full roll_size (some name) files = leb roll_size (length (files name))

module _ (local_time : ℕ → Bytes) where
  unfoldable pub get_log_file_name : Bytes → Timestamp → Bytes
  get_log_file_name basename now =
      basename ++ (45 ∷ (to_string local_time false now ++ codes ".log"))

  unfoldable pub roll_file : Timestamp → Writer → Writer
  unfolding reopen
  roll_file now w =
      if before w.last_roll now
      then reopen (get_log_file_name w.basename now) (record w {
        last_roll = now;
        last_flush = now;
        start_of_period = period_start seconds_per_roll now;
      })
      else w

  unfoldable pub check_period : Timestamp → Timestamp → Writer → Writer
  unfolding roll_file
  check_period now later w =
      if (period_start seconds_per_roll now).microseconds == w.start_of_period.microseconds
      then (if before (add_time w.last_flush w.flush_interval) now
          then record w { last_flush = now; flushes = w.flushes + 1 }
          else w)
      else roll_file later w

  -- `write(buf, len)`.
  unfoldable pub write : Call → Writer → Writer
  unfolding roll_file check_period append_to is_full
  write c w =
      let w1 = record w { files = append_to w.name c.bytes w.files } in
      let w2 = record w1 { count = w1.count + 1 } in
      if is_full w.roll_size w1.name w1.files
      then roll_file c.later w1
      else if leb w.check_every w2.count
      then check_period c.now c.later (record w2 { count = 0 })
      else w2

  unfoldable pub write_all : List Call → Writer → Writer
  unfolding write
  write_all [] w = w
  write_all (c ∷ cs) w = write_all cs (write c w)

  -- The constructor, whose `rollFile` reads the time `now`; `files` is what was on the disk. The member
  -- `_count` is not set: `count` is what its memory holds.
  unfoldable pub new : Bytes → ℕ → Seconds → ℕ → ℕ → (Bytes → Bytes) → Timestamp → Writer
  unfolding roll_file
  new basename roll_size flush_interval check_every count files now = roll_file now (record {
    basename = basename;
    roll_size = roll_size;
    flush_interval = flush_interval;
    check_every = check_every;
    count = count;
    start_of_period = invalid;
    last_roll = invalid;
    last_flush = invalid;
    files = files;
    name = none;
    flushes = 0;
  })
