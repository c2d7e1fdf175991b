-- ===== src/Log/Logger/Lines.antt =====
-- Which lines the streams of log/Logger.hpp get.
use tiny_network_library.Base.{
  leb, ℕ, ◌+◌, ◌≡◌, refl, ap, sym, ◌∙◌, true, false, Option, none, some, List, [], ◌∷◌, ◌++◌,
  append_assoc, append-nil, length, drop_past, Bytes, All, if◌then◌else◌, Bool-cases, inl, inr,
}
use tiny_network_library.Log.Logger.{
  rank, LogLevel, get_level_name, is_separator, find_last_separator, get_file_name, Arg, Call,
  LogStream, Logger, should_log, append_each, log_line, log, log_calls,
}

-- No byte of the name separates folders.
abbrev pub IsName : Bytes → Type 0
IsName = All (λ c. is_separator c ≡ false)

find_last_none : (s : Bytes) → IsName s → find_last_separator s ≡ none
find_last_none [] h = refl
find_last_none (c ∷ s) (h, hs) = rw (find_last_none s hs, h) refl

find_last_after :
    (dir : Bytes) (c : ℕ) (name : Bytes)
    → is_separator c ≡ true
    → IsName name
    → find_last_separator (dir ++ (c ∷ name)) ≡ some (length dir)
find_last_after [] c name h k = rw (find_last_none name k, h) refl
find_last_after (d ∷ dir) c name h k = rw (find_last_after dir c name h k) refl

-- The file name of a path is what stands behind its last slash or backslash; a path without one is its
-- own file name.
pub get_file_name_lem :
    (dir name : Bytes) (c : ℕ)
    → is_separator c ≡ true
    → IsName name
    → (get_file_name (dir ++ (c ∷ name)) ≡ name) × (get_file_name name ≡ name)
unfolding get_file_name
get_file_name_lem dir name c h k = (
  rw (find_last_after dir c name h k, get_file_name) (drop_past (length dir + 1) dir c name refl),
  rw (find_last_none name k, get_file_name) refl,
)

module _ (format : Bytes → List Arg → Bytes) {S : Type 0} (stream : LogStream S) where
  -- The level of the call is a real one, and the streams take its line.
  abbrev pub Loggable : Call → Type 0
  Loggable c =
      (name : Bytes) × (get_level_name c.level ≡ some name) × stream.Takes (log_line format name c)

  abbrev named_line : Option Bytes → Call → Bytes
  named_line none c = []
  named_line (some name) c = log_line format name c

  -- What a logger of a level is to make of calls: the lines of those that reach the level.
  abbrev pub lines : LogLevel → List Call → Bytes
  lines level [] = []
  lines level (c ∷ cs) =
      (if leb (rank level) (rank c.level) then named_line (get_level_name c.level) c else [])
      ++ lines level cs

  abbrev pub AllReady : List S → Type 0
  AllReady = All stream.Ready

  -- Each of the streams was given the text `s`, and is ready again.
  pub data Given (s : Bytes) : List S → List S → Type 0 where
    no_stream : Given s [] []
    one_more :
        {x y : S} {xs ys : List S}
        → stream.logged y ≡ stream.logged x ++ s
        → stream.Ready y
        → Given s xs ys
        → Given s (x ∷ xs) (y ∷ ys)

  Given-AllReady : {s : Bytes} {xs ys : List S} → Given s xs ys → AllReady ys
  Given-AllReady no_stream = tt
  Given-AllReady (one_more e r g) = (r, Given-AllReady g)

  Given-append :
      {s t : Bytes} {xs ys zs : List S} → Given s xs ys → Given t ys zs → Given (s ++ t) xs zs
  Given-append no_stream no_stream = no_stream
  Given-append {s} {t} (one_more {x} e r g) (one_more e' r' g') =
      one_more (e' ∙ ap (λ u. u ++ t) e ∙ append_assoc (stream.logged x) s t) r' (Given-append g g')

  unchanged-Given : (xs : List S) → AllReady xs → Given [] xs xs
  unchanged-Given [] h = no_stream
  unchanged-Given (x ∷ xs) (h, hs) =
      one_more (sym (append-nil (stream.logged x))) h (unchanged-Given xs hs)

  append_each-Given :
      (s : Bytes) (xs : List S)
      → AllReady xs
      → stream.Takes s
      → (ys : List S) × (append_each stream.append s xs ≡ some ys) × Given s xs ys
  unfolding append_each
  append_each-Given s [] h k = ([], refl, no_stream)
  append_each-Given s (x ∷ xs) (h, hs) k =
      let (y, e, r, l) = stream.append-logged s x h k in
      let (ys, es, g) = append_each-Given s xs hs k in
      (y ∷ ys, rw (e, append_each, es) refl, one_more l r g)

  log-Given :
      (c : Call) (g : Logger S)
      → AllReady g.streams
      → Loggable c
      → (ys : List S) × (log format stream c g ≡ some (record g { streams = ys }))
        × Given
            (if should_log g.level c.level then named_line (get_level_name c.level) c else [])
            g.streams
            ys
  unfolding log should_log
  log-Given c g h (name, e, k) = elim (Bool-cases (leb (rank g.level) (rank c.level))) [
    | inr low ↦ (g.streams, rw low refl, rw low (unchanged-Given g.streams h))
    | inl high ↦
        let (ys, es, given) = append_each-Given (log_line format name c) g.streams h k in
        (ys, rw (high, e, es) refl, rw (high, e) given)
  ]

  -- Every stream of a logger is given, in order and once each, the lines of exactly the calls that reach
  -- the level of the logger. The streams are ready at first and take these lines, and no call has the
  -- level LOG_COUNT.
  pub log_calls-Given :
      (cs : List Call) (g : Logger S)
      → AllReady g.streams
      → All Loggable cs
      → (ys : List S) × (log_calls format stream cs g ≡ some (record g { streams = ys }))
        × Given (lines g.level cs) g.streams ys
  unfolding log_calls
  log_calls-Given [] g h k = (g.streams, refl, unchanged-Given g.streams h)
  log_calls-Given (c ∷ cs) g h (k, ks) =
      let (xs, e, given) = log-Given c g h k in
      let (ys, es, more) =
        log_calls-Given cs (record g { streams = xs }) (Given-AllReady given) ks in
      (ys, rw (e, log_calls) es, Given-append given more)
