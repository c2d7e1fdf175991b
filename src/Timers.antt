-- ===== src/Timers.antt =====
-- timer/: timers in order of expiry, and the kernel timer that is armed for the earliest. A timer's
-- address is a number; `store` holds the timers that have not been deleted.
pub mod Order
pub mod Expiry
pub mod Arming
pub mod Settled
mod Examples
use tiny_network_library.Base.{
  ℕ, ◌+◌, ◌-◌, ◌*◌, ◌/◌, ◌%◌, ◌^◌, ◌≡◌, ◌&&◌, ◌||◌, Bool, true, false, List, [], ◌∷◌, ◌++◌, Option,
  none, some, ltb, ◌==◌, if◌then◌else◌,
}
use tiny_network_library.Clock.{Timestamp, Seconds, add_time, invalid, before, per_second}

pub record Timer : Type 0 where
  pub callback : ℕ
  pub expiration : Timestamp
  pub interval : Seconds
  pub repeat : Bool

unfoldable pub new_timer : ℕ → Timestamp → Seconds → Timer
new_timer callback when interval = record {
  callback = callback;
  expiration = when;
  interval = interval;
  repeat = interval.is_positive;
}

unfoldable pub restart : Timestamp → Timer → Timer
restart now t =
    if t.repeat
    then record t { expiration = add_time now t.interval }
    else record t { expiration = invalid }

-- `pair<Timestamp, Timer *>`, ordered by time and then by address.
pub record Entry : Type 0 where
  pub when : Timestamp
  pub timer : ℕ

abbrev pub entry_lt : Entry → Entry → Bool
entry_lt a b =
    before a.when b.when || ((a.when.microseconds == b.when.microseconds) && ltb a.timer b.timer)

-- `set::insert`.
unfoldable pub insert_entry : Entry → List Entry → List Entry
insert_entry e [] = e ∷ []
insert_entry e (x ∷ es) =
    let rest = x ∷ insert_entry e es in
    if entry_lt e x then e ∷ x ∷ es else if entry_lt x e then rest else x ∷ es

-- The entries before `lower_bound(sentry)`, and the others.
unfoldable pub split_before : Entry → List Entry → List Entry × List Entry
split_before sentry [] = ([], [])
split_before sentry (x ∷ es) =
    let (front, back) = split_before sentry es in
    if entry_lt x sentry then (x ∷ front, back) else ([], x ∷ es)

-- The highest address, UINTPTR_MAX.
abbrev pub max_address : ℕ
max_address = 2 ^ 64 - 1

-- `armed` is what the kernel timer was last set to expire at.
pub record TimerQueue : Type 0 where
  pub entries : List Entry
  pub store : ℕ → Option Timer
  pub armed : Option Timestamp

unfoldable pub init : TimerQueue
init = record { entries = []; store = λ _. none; armed = none }

-- The `timespec` that `resetTimerfd` gives to the kernel: seconds and nanoseconds from now.
unfoldable pub timeout : Timestamp → Timestamp → ℕ × ℕ
timeout expiration now =
    let d = expiration.microseconds - now.microseconds in
    let micros : ℕ = if ltb d 100 then 100 else d in
    (micros / per_second, micros % per_second * 1000)

unfoldable pub reset_timerfd : Timestamp → TimerQueue → TimerQueue
reset_timerfd expiration q = record q { armed = some expiration }

abbrev pub is_earlier : Timestamp → List Entry → Bool
is_earlier when [] = true
is_earlier when (x ∷ es) = before when x.when

-- `insert(timer)`: whether the earliest expiry changed.
unfoldable pub insert : ℕ → Timestamp → TimerQueue → Bool × TimerQueue
insert id when q = (
  is_earlier when q.entries,
  record q { entries = insert_entry (record { when = when; timer = id }) q.entries },
)

abbrev pub put_timer : ℕ → Option Timer → (ℕ → Option Timer) → ℕ → Option Timer
put_timer id t s j = if id == j then t else s j

-- `addTimerInLoop(timer)`, for a timer that `addTimer` made at address `id`.
unfoldable pub add_timer_in_loop : ℕ → Timer → TimerQueue → TimerQueue
unfolding insert reset_timerfd
add_timer_in_loop id t q =
    let (changed, q1) =
      insert id t.expiration (record q { store = put_timer id (some t) q.store }) in
    if changed then reset_timerfd t.expiration q1 else q1

-- `addTimer` on the thread of the loop; from another thread the loop queues `addTimerInLoop`. The
-- new timer stands at the address `id`.
unfoldable pub add_timer : ℕ → ℕ → Timestamp → Seconds → TimerQueue → TimerQueue
unfolding add_timer_in_loop new_timer
add_timer id callback when interval q = add_timer_in_loop id (new_timer callback when interval) q

-- `runAt`, `runAfter` and `runEvery` of the loop, at a time `now`.
unfoldable pub run_at : ℕ → Timestamp → ℕ → TimerQueue → TimerQueue
unfolding add_timer
run_at id time callback q =
    add_timer id callback time (record { is_positive = false; micros = 0 }) q

unfoldable pub run_after : ℕ → Timestamp → Seconds → ℕ → TimerQueue → TimerQueue
unfolding add_timer
run_after id now delay callback q =
    add_timer id callback (add_time now delay) (record { is_positive = false; micros = 0 }) q

unfoldable pub run_every : ℕ → Timestamp → Seconds → ℕ → TimerQueue → TimerQueue
unfolding add_timer
run_every id now interval callback q = add_timer id callback (add_time now interval) interval q

-- `getExpired(now)`.
unfoldable pub get_expired : Timestamp → TimerQueue → List Entry × TimerQueue
get_expired now q =
    let (expired, rest) = split_before (record { when = now; timer = max_address }) q.entries in
    (expired, record q { entries = rest })

-- The expiration of the timer of the first entry.
unfoldable pub next_expiration : TimerQueue → Option Timestamp
next_expiration q = elim q.entries [
  | [] ↦ none
  | e ∷ es ↦ elim (q.store e.timer) [ none ↦ none | some t ↦ some t.expiration ]
]

-- The kernel timer is set for the first entry, if there is one.
unfoldable pub rearm : TimerQueue → TimerQueue
unfolding reset_timerfd
rearm q = elim (next_expiration q) [ none ↦ q | some when ↦ reset_timerfd when q ]

-- One expired entry in `reset`: a repeating timer is restarted and inserted, another is deleted.
unfoldable pub renew : Timestamp → ℕ → Option Timer → TimerQueue → TimerQueue
unfolding insert
renew now id none q = q
renew now id (some t) q =
    if t.repeat
    then (insert id (restart now t).expiration
        (record q { store = put_timer id (some (restart now t)) q.store })).1
    else record q { store = put_timer id none q.store }

-- `reset(expired, now)`: the kernel timer is set inside the loop.
unfoldable pub reset : List Entry → Timestamp → TimerQueue → TimerQueue
reset [] now q = q
reset (e ∷ es) now q = reset es now (rearm (renew now e.timer (q.store e.timer) q))

-- The callbacks of the expired timers, in order.
unfoldable pub callbacks : (ℕ → Option Timer) → List Entry → List ℕ
callbacks s [] = []
callbacks s (e ∷ es) = elim (s e.timer) [
  | none ↦ callbacks s es
  | some t ↦ t.callback ∷ callbacks s es
]

-- The timers that the callbacks add, each with its new address.
unfoldable pub add_timers : List (ℕ × Timer) → TimerQueue → TimerQueue
add_timers [] q = q
add_timers ((id, t) ∷ ts) q = add_timers ts (add_timer_in_loop id t q)

-- `handleRead()` at a time `now`: `added` are the timers that the callbacks add while they run.
unfoldable pub handle_read : Timestamp → List (ℕ × Timer) → TimerQueue → TimerQueue × List ℕ
handle_read now added q =
    let (expired, q1) = get_expired now q in
    (reset expired now (add_timers added q1), callbacks q1.store expired)

-- The loop of the destructor: the timers of the entries are deleted.
unfoldable pub delete_all : List Entry → TimerQueue → TimerQueue
delete_all [] q = q
delete_all (e ∷ es) q = delete_all es (record q { store = put_timer e.timer none q.store })
