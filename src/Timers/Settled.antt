-- ===== src/Timers/Settled.antt =====
-- What `handleRead` of timer/TimerQueue.cpp makes of the timers that have expired.
use tiny_network_library.Base.{
  ℕ, ◌≡◌, Bool, true, false, ◌&&◌, ◌||◌, ◌⊎◌, List, [], ◌∷◌, Option, none, some, All, ◌==◌,
  if◌then◌else◌,
}
use tiny_network_library.Clock.{Timestamp}
use tiny_network_library.Timers.{Timer, Entry, TimerQueue, renew, restart, rearm, next_expiration}

-- Whether the set has an entry of this timer at this time.
abbrev pub listed : ℕ → ℕ → List Entry → Bool
listed id micros [] = false
listed id micros (x ∷ es) =
    let rest = listed id micros es in ((x.timer == id) && (x.when.microseconds == micros)) || rest

-- What becomes of an expired timer: it starts again if it repeats, and is deleted otherwise.
abbrev pub successor : Timestamp → Option Timer → Option Timer
successor now none = none
successor now (some t) = if t.repeat then some (restart now t) else none

abbrev pub waits_in : ℕ → Option Timer → List Entry → Bool
waits_in id none es = true
waits_in id (some t) es = listed id t.expiration.microseconds es

-- The store holds the successor of the timer of an entry, and that has an entry of its own.
abbrev pub IsSettled : Timestamp → (ℕ → Option Timer) → TimerQueue → Entry → Type 0
IsSettled now old q x =
    (q.store x.timer ≡ successor now (old x.timer))
    × (waits_in x.timer (successor now (old x.timer)) q.entries ≡ true)

-- No timer has two entries.
abbrev pub IsDistinct : List Entry → Type 0
IsDistinct [] = Unit
IsDistinct (x ∷ es) = All (λ y. (y.timer == x.timer) ≡ false) es × IsDistinct es

module _ (now : Timestamp) where
  step : Entry → TimerQueue → TimerQueue
  step e q = rearm (renew now e.timer (q.store e.timer) q)

-- The kernel timer waits for the first timer of the set, unless it was not set because none expired.
abbrev pub IsArmed : List Entry → TimerQueue → Type 0
IsArmed [] q = Unit
IsArmed (e ∷ es) q = (next_expiration q ≡ none) ⊎ (q.armed ≡ next_expiration q)

-- The address of a timer that a callback adds is that of no timer in the set.
abbrev pub IsNew : List Entry → ℕ × Timer → Type 0
IsNew es t = All (λ x. (t.0 == x.timer) ≡ false) es
