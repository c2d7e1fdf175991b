-- ===== src/Log/Logger/Streams.antt =====
-- The streams of log/LogStream.cpp as streams of a logger.
use tiny_network_library.Base.{ℕ, ◌<◌, ◌≡◌, refl, Option, some, ◌++◌, length, Bytes, Lacks}
use tiny_network_library.Log.File.{LogFile, append, append-Logs, Inv, logged}
use tiny_network_library.Log.Logger.{LogStream}

-- `LogConsole`: what was printed.
unfoldable pub console_append : Bytes → Bytes → Option Bytes
console_append s out = some (out ++ s)

-- A console takes every text at any time.
abbrev pub Always : Bytes → Type 0
Always s = Unit

pub console_logged :
    (s out : Bytes) → (y : Bytes) × (console_append s out ≡ some y) × Always out × (y ≡ out ++ s)
unfolding console_append
console_logged s out = (out ++ s, refl, tt, refl)

abbrev pub console : LogStream Bytes
console = record {
  append = console_append;
  logged = λ out. out;
  Ready = Always;
  Takes = Always;
  append-logged = λ s out r t. console_logged s out;
}

pub log_file_logged :
    (n : ℕ) (s : Bytes) (f : LogFile)
    → Inv n f
    → Lacks 0 s × (length s < n)
    → (g : LogFile) × (append s f ≡ some g) × Inv n g × (logged g ≡ logged f ++ s)
log_file_logged n s f v (plain, short) =
    let (g, e, l) = append-Logs s v plain short in (g, e, l.inv, l.kept)

-- `LogFile` with a buffer of `n` bytes takes texts without a zero byte that are shorter than it.
abbrev pub log_file : ℕ → LogStream LogFile
log_file n = record {
  append = append;
  logged = logged;
  Ready = Inv n;
  Takes = λ s. Lacks 0 s × (length s < n);
  append-logged = λ s f v t. log_file_logged n s f v t;
}
