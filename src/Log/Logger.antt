-- ===== src/Log/Logger.antt =====
-- log/Logger.hpp: levels, the line of a call, and the streams that get it. The fmt library and the
-- clock's text are parameters.
pub mod Streams
pub mod Lines
mod Examples
use tiny_network_library.Base.{
  ℕ, zero, suc, ◌+◌, ◌≡◌, ◌||◌, Bool, true, false, Option, none, some, ◌>>=◌, List, [], ◌∷◌, ◌++◌,
  drop, Bytes, codes, ◌==◌, leb, if◌then◌else◌,
}

pub data LogLevel : Type 0 where
  trace debug info warn error fatal log_count : LogLevel

abbrev pub rank : LogLevel → ℕ
rank trace = 0
rank debug = 1
rank info = 2
rank warn = 3
rank error = 4
rank fatal = 5
rank log_count = 6

-- The array has six names; `none` is a read behind them.
unfoldable pub get_level_name : LogLevel → Option Bytes
get_level_name trace = some (codes "TRACE")
get_level_name debug = some (codes "DEBUG")
get_level_name info = some (codes "INFO ")
get_level_name warn = some (codes "WARN ")
get_level_name error = some (codes "ERROR")
get_level_name fatal = some (codes "FATAL")
get_level_name log_count = none

-- `find_last_of("/\\")`.
abbrev pub is_separator : ℕ → Bool
is_separator c = c == 47 || c == 92

abbrev pub find_last_separator : Bytes → Option ℕ
find_last_separator [] = none
find_last_separator (c ∷ s) = elim (find_last_separator s) [
  | some i ↦ some (suc i)
  | none ↦ if is_separator c then some 0 else none
]

unfoldable pub get_file_name : Bytes → Bytes
get_file_name path = elim (find_last_separator path) [ none ↦ path | some i ↦ drop (i + 1) path ]

-- An argument of a call, as its C++ type tells the code apart: a number, a text that is no pointer or
-- a `const char *`, a `char *` with its address and text, and any other pointer.
pub data Arg : Type 0 where
  number : ℕ → Arg
  text : Bytes → Arg
  mutable_text : ℕ → Bytes → Arg
  pointer : ℕ → Arg

unfoldable pub format_arg_pointer : Arg → Arg
format_arg_pointer (number n) = number n
format_arg_pointer (text s) = text s
format_arg_pointer (mutable_text address s) = pointer address
format_arg_pointer (pointer address) = pointer address

abbrev pub format_all : List Arg → List Arg
format_all [] = []
format_all (a ∷ args) = format_arg_pointer a ∷ format_all args

-- The three overloads of `log`: one text, one other value, and a format with arguments.
pub data Message : Type 0 where
  plain : Bytes → Message
  value : Arg → Message
  formatted : Bytes → List Arg → Message

-- A call, at the time whose text is `now`.
pub record Call : Type 0 where
  pub file : Bytes
  pub line : ℕ
  pub level : LogLevel
  pub message : Message
  pub now : Bytes

-- A stream, through the interface that the logger uses: what it was given so far, and which texts
-- it takes in a state that is ready.
pub record LogStream (S : Type 0) : Type 1 where
  pub append : Bytes → S → Option S
  pub logged : S → Bytes
  pub Ready : S → Type 0
  pub Takes : Bytes → Type 0
  pub append-logged :
      (s : Bytes) (x : S)
      → Ready x
      → Takes s
      → (y : S) × (append s x ≡ some y) × Ready y × (logged y ≡ logged x ++ s)

pub record Logger (S : Type 0) : Type 0 where
  pub level : LogLevel
  pub streams : List S

unfoldable pub should_log : LogLevel → LogLevel → Bool
should_log threshold level = leb (rank threshold) (rank level)

-- The loop over the streams.
unfoldable pub append_each :
    {S : Type 0} → (Bytes → S → Option S) → Bytes → List S → Option (List S)
append_each append s [] = some []
append_each append s (x ∷ xs) = do y ← append s x; ys ← append_each append s xs; some (y ∷ ys)

module _ (format : Bytes → List Arg → Bytes) where
  unfoldable pub message_text : Message → Bytes
  unfolding format_arg_pointer
  message_text (plain s) = s
  message_text (value a) = format (codes "{}") (format_all (a ∷ []))
  message_text (formatted f args) = format f (format_all args)

  unfoldable pub log_line : Bytes → Call → Bytes
  unfolding get_file_name message_text
  log_line name c =
      format (codes "[{}] [{} {}:{}] ")
        (text name ∷ text c.now ∷ text (get_file_name c.file) ∷ number c.line ∷ [])
      ++ (message_text c.message ++ (10 ∷ []))

  -- `log`: nothing below the level of the logger, else the line goes to every stream.
  unfoldable pub log : {S : Type 0} → LogStream S → Call → Logger S → Option (Logger S)
  unfolding should_log get_level_name log_line append_each
  log stream c g =
      if should_log g.level c.level
      then (do
        name ← get_level_name c.level
        ys ← append_each stream.append (log_line name c) g.streams
        some (record g { streams = ys }))
      else some g

  unfoldable pub log_calls : {S : Type 0} → LogStream S → List Call → Logger S → Option (Logger S)
  unfolding log
  log_calls stream [] g = some g
  log_calls stream (c ∷ cs) g = do g1 ← log stream c g; log_calls stream cs g1
