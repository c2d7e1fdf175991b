-- ===== src/Log/Files/Whole.antt =====
-- The files of log/AsyncLogFile.cpp together: no roll loses, repeats or reorders a byte, and none touches
-- what a file had before.
use tiny_network_library.Base.{
  ℕ, ◌≡◌, Bool, false, List, [], ◌∷◌, ◌++◌, Option, none, some, Bytes, bytes_eq, if◌then◌else◌,
  ◌&&◌,
}
use tiny_network_library.Clock.{before}
use tiny_network_library.Log.Files.{Writer, Call, get_log_file_name, write, append_to, is_full}

abbrev pub is_open : Option Bytes → Bytes → Bool
is_open none n = false
is_open (some name) n = bytes_eq name n

module _ (local_time : ℕ → Bytes) where
  -- The bytes of the calls that found the file `n` open, in order.
  abbrev pub written_to : Bytes → List Call → Writer → Bytes
  written_to n [] w = []
  written_to n (c ∷ cs) w =
      (if is_open w.name n then c.bytes else []) ++ written_to n cs (write local_time c w)

  -- A file is open, and named for the last roll.
  abbrev pub IsNamed : Writer → Type 0
  IsNamed w = w.name ≡ some (get_log_file_name local_time w.basename w.last_roll)

  -- What happens behind the write leaves all texts and the base name.
  record Keeps (w v : Writer) : Type 0 where
    files : v.files ≡ w.files
    basename : v.basename ≡ w.basename
    named : IsNamed w → IsNamed v

  -- No call leaves a full file open at a time at which it could be rolled.
  abbrev pub RollsInTime : List Call → Writer → Type 0
  RollsInTime [] w = Unit
  RollsInTime (c ∷ cs) w =
      let w1 = write local_time c w in
      ((is_full w.roll_size w.name (append_to w.name c.bytes w.files)
          && before w1.last_roll c.later)
        ≡ false)
      × RollsInTime cs w1
