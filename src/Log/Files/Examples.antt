-- ===== src/Log/Files/Examples.antt =====
-- The theorem on the files of log/AsyncLogFile.cpp: three writes, the first of which fills a file.
use tiny_network_library.Base.{ℕ, true, List, [], ◌∷◌, codes, Bytes}
use tiny_network_library.Clock.{Timestamp, Seconds, zeros}
use tiny_network_library.Log.Files.{Writer, Call, new}

abbrev at : ℕ → Timestamp
at t = record { microseconds = t }

abbrev calls : List Call
calls =
    record { bytes = 1 ∷ 2 ∷ 3 ∷ []; now = at 1000000; later = at 5000000 }
    ∷ record { bytes = 4 ∷ []; now = at 5500000; later = at 5600000 }
    ∷ record { bytes = 5 ∷ []; now = at 3000000; later = at 3000000 }
    ∷ []

abbrev wait : Seconds
wait = record { is_positive = true; micros = 3000000 }

-- Every file has one byte already.
abbrev before_all : Bytes → Bytes
before_all n = 9 ∷ []

abbrev start : Writer
start = new zeros (codes "log") 3 wait 1024 0 before_all (at 1)
