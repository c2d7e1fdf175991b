-- ===== src/Log/Logger/Examples.antt =====
-- The theorems on log/Logger.hpp at a logger of level INFO with one console.
use tiny_network_library.Base.{◌≡◌, refl, some, List, [], ◌∷◌, Bytes, codes}
use tiny_network_library.Log.Logger.{
  LogLevel, debug, info, warn, plain, get_level_name, Arg, Call, Logger, log_calls,
}
use tiny_network_library.Log.Logger.Lines.{lines, Given, log_calls-Given}
use tiny_network_library.Log.Logger.Streams.{console}

-- A format that prints the format itself.
abbrev sample_format : Bytes → List Arg → Bytes
sample_format f args = f

abbrev sample_call : LogLevel → Call
sample_call level = record {
  file = codes "a/b.cpp";
  line = 7;
  level = level;
  message = plain (codes "up");
  now = codes "noon";
}

abbrev sample_calls : List Call
sample_calls = sample_call debug ∷ sample_call warn ∷ sample_call info ∷ []

abbrev sample_logger : Logger Bytes
sample_logger = record { level = info; streams = codes "> " ∷ [] }

log_calls-Given_example :
    (ys : List Bytes) × (log_calls sample_format console sample_calls sample_logger
      ≡ some (record sample_logger { streams = ys }))
    × Given sample_format console
        (lines sample_format console info sample_calls)
        (codes "> " ∷ [])
        ys
unfolding get_level_name
log_calls-Given_example =
    log_calls-Given sample_format console sample_calls sample_logger (tt, tt)
      ((codes "DEBUG", refl, tt), ((codes "WARN ", refl, tt), ((codes "INFO ", refl, tt), tt)))
