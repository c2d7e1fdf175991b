-- ===== src/Timers/Arming.antt =====
-- `handleRead`, `reset` and `resetTimerfd` of timer/TimerQueue.cpp: rescheduling, and what the
-- kernel timer is set to.
use tiny_network_library.Base.{
  ℕ, ◌<◌, ◌≡◌, refl, ◌∙◌, sym, arith, true, List, [], ◌∷◌, Option, none, some, All, Bool-cases,
  Option-cases, inl, inr, ◌==◌, ◌⊎◌,
}
use tiny_network_library.Clock.{Timestamp, add_time}
use tiny_network_library.Timers.{
  Timer, Entry, insert_entry, TimerQueue, get_expired, max_address, insert, put_timer, renew,
  restart, reset, rearm, next_expiration, reset_timerfd, handle_read, callbacks, is_earlier,
  add_timers, add_timer_in_loop, split_before,
}
use tiny_network_library.Timers.Order.{IsSorted, insert_entry-IsSorted, All-insert_entry}
use tiny_network_library.Timers.Expiry.{get_expired_lem}

-- Setting the kernel timer changes nothing else.
pub rearm_lem : (q : TimerQueue) → ((rearm q).entries ≡ q.entries) × ((rearm q).store ≡ q.store)
unfolding rearm
rearm_lem q = elim (Option-cases (next_expiration q)) [
  | inl e ↦ rw (e, rearm) (refl, refl)
  | inr (w, e) ↦ rw (e, rearm) (refl, refl)
]

rearm_cases :
    (q : TimerQueue) → (rearm q ≡ q) ⊎ ((w : Timestamp) × (rearm q ≡ record q { armed = some w }))
unfolding rearm
rearm_cases q = elim (Option-cases (next_expiration q)) [
  | inl e ↦ inl (rw (e, rearm))
  | inr (w, e) ↦ inr (w, rw (e, rearm))
]

next_expiration-rearm : (q : TimerQueue) → next_expiration (rearm q) ≡ next_expiration q
next_expiration-rearm q = elim (rearm_cases q) [
  | inl e ↦ rw e
  | inr (w, e) ↦ rw e (unfold next_expiration in refl)
]

rearm_armed :
    (q : TimerQueue) (w : Timestamp) → next_expiration (rearm q) ≡ some w → (rearm q).armed ≡ some w
rearm_armed q w h =
    let e : next_expiration q ≡ some w = sym (next_expiration-rearm q) ∙ h in
    unfold rearm in rw (e, rearm)

pub reset_armed :
    (e : Entry) (es : List Entry) (now : Timestamp) (q : TimerQueue) (w : Timestamp)
    → next_expiration (reset (e ∷ es) now q) ≡ some w
    → (reset (e ∷ es) now q).armed ≡ some w
unfolding reset
reset_armed e [] now q w h = rearm_armed _ w h
reset_armed e (x ∷ es) now q w h =
    reset_armed x es now (rearm (renew now e.timer (q.store e.timer) q)) w h

-- All repeating timers wait for a positive time.
abbrev pub Waits : (ℕ → Option Timer) → Type 0
Waits s = (id : ℕ) (t : Timer) → s id ≡ some t → t.repeat ≡ true → 0 < t.interval.micros

-- In order, nothing due at `now`, and no repeating timer without a wait.
record Good (now : Timestamp) (q : TimerQueue) : Type 0 where
  sorted : IsSorted q.entries
  later : All (λ x. now.microseconds < x.when.microseconds) q.entries
  waits : Waits q.store

stored-Waits :
    (id : ℕ) (o : Option Timer) (s : ℕ → Option Timer)
    → Waits s
    → ((t : Timer) → o ≡ some t → t.repeat ≡ true → 0 < t.interval.micros)
    → Waits (put_timer id o s)
stored-Waits id o s h k j u e r = elim (Bool-cases (id == j)) [
  | inl same ↦ k u (ground arith) r
  | inr other ↦ h j u (ground arith) r
]

inserted-Good :
    (now : Timestamp) (id : ℕ) (t : Timer) {q : TimerQueue}
    → Good now q
    → now.microseconds < t.expiration.microseconds
    → (t.repeat ≡ true → 0 < t.interval.micros)
    → Good now (record q {
      entries = insert_entry (record { when = t.expiration; timer = id }) q.entries;
      store = put_timer id (some t) q.store;
    })
inserted-Good now id t {q} g after wait = record {
  sorted = insert_entry-IsSorted _ q.entries g.sorted;
  later = All-insert_entry _ _ q.entries after g.later;
  waits = stored-Waits id (some t) q.store g.waits (λ u e r. ground arith);
}

renew-Good :
    (now : Timestamp) (id : ℕ) (o : Option Timer) {q : TimerQueue}
    → q.store id ≡ o
    → Good now q
    → Good now (renew now id o q)
unfolding renew insert restart add_time
renew-Good now id none e g = g
renew-Good now id (some t) {q} e g = elim (Bool-cases t.repeat) [
  | inl again ↦ rw again (
      inserted-Good now id (record t { expiration = add_time now t.interval; repeat = true }) g
        (omega (arith, g.waits id t e again)) (λ r. g.waits id t e again))
  | inr once ↦ rw once (record {
    sorted = g.sorted;
    later = g.later;
    waits = stored-Waits id none q.store g.waits (λ u x r. cc);
  })
]

rearm-Good : (now : Timestamp) {q : TimerQueue} → Good now q → Good now (rearm q)
rearm-Good now {q} g =
    let (es, st) = rearm_lem q in
    record { sorted = rw es g.sorted; later = rw es g.later; waits = rw st g.waits }

reset-Good :
    (es : List Entry) (now : Timestamp) {q : TimerQueue} → Good now q → Good now (reset es now q)
unfolding reset
reset-Good [] now g = g
reset-Good (e ∷ es) now {q} g =
    reset-Good es now (rearm-Good now (renew-Good now e.timer (q.store e.timer) refl g))

add_timer-Good :
    (now : Timestamp) (id : ℕ) (t : Timer) {q : TimerQueue}
    → Good now q
    → now.microseconds < t.expiration.microseconds
    → (t.repeat ≡ true → 0 < t.interval.micros)
    → Good now (add_timer_in_loop id t q)
unfolding add_timer_in_loop insert reset_timerfd
add_timer-Good now id t {q} g after wait =
    let g' = inserted-Good now id t g after wait in
    elim (Bool-cases (is_earlier t.expiration q.entries)) [
      | inl first ↦ rw first (record { sorted = g'.sorted; later = g'.later; waits = g'.waits })
      | inr other ↦ rw other g'
    ]

-- What a timer must satisfy to be added at a time: it is not due yet, and waits if it repeats.
abbrev pub IsTimely : Timestamp → ℕ × Timer → Type 0
IsTimely now (id, t) =
    (now.microseconds < t.expiration.microseconds) × (t.repeat ≡ true → 0 < t.interval.micros)

add_timers-Good :
    (now : Timestamp) (ts : List (ℕ × Timer)) {q : TimerQueue}
    → Good now q
    → All (IsTimely now) ts
    → Good now (add_timers ts q)
unfolding add_timers
add_timers-Good now [] g h = g
add_timers-Good now ((id, t) ∷ ts) g (h, hs) =
    add_timers-Good now ts (add_timer-Good now id t g h.0 h.1) hs

pub store-get_expired : (now : Timestamp) (q : TimerQueue) → (get_expired now q).1.store ≡ q.store
unfolding get_expired
store-get_expired now q = refl

-- After `handleRead` at a time `now` the entries are in order and none of them is due at `now`. This asks
-- that the callbacks add only timers that are not yet due, and that every repeating timer waits at least a
-- microsecond.
pub handle_read_none_due :
    (now : Timestamp) (added : List (ℕ × Timer)) (q : TimerQueue)
    → IsSorted q.entries
    → All (λ x. x.timer < max_address) q.entries
    → Waits q.store
    → All (IsTimely now) added
    → IsSorted (handle_read now added q).0.entries
      × All (λ x. now.microseconds < x.when.microseconds) (handle_read now added q).0.entries
unfolding handle_read
handle_read_none_due now added q s low w timely =
    let (_, _, later, sorted) = get_expired_lem now q s low in
    let g : Good now (get_expired now q).1 = record {
      sorted = sorted;
      later = later;
      waits = rw (store-get_expired now q) w;
    } in
    let g' = reset-Good (get_expired now q).0 now (add_timers-Good now added g timely) in
    (g'.sorted, g'.later)

-- If any timer has expired, `handleRead` leaves the kernel timer set to the expiration of the first
-- timer that is left.
pub handle_read_armed :
    (now : Timestamp) (added : List (ℕ × Timer)) (q : TimerQueue) (e : Entry) (es : List Entry)
    (w : Timestamp)
    → (get_expired now q).0 ≡ e ∷ es
    → next_expiration (handle_read now added q).0 ≡ some w
    → (handle_read now added q).0.armed ≡ some w
unfolding handle_read
handle_read_armed now added q e es w h next =
    rw h (reset_armed e es now (add_timers added (get_expired now q).1) w (rw h at next))

split_before-later :
    (now : Timestamp) (es : List Entry)
    → All (λ x. now.microseconds < x.when.microseconds) es
    → split_before (record { when = now; timer = max_address }) es ≡ ([], es)
unfolding split_before
split_before-later now [] h = refl
split_before-later now (x ∷ es) (h, hs) = ground arith

-- If no timer is due at `now`, a `handleRead` calls nothing and leaves the whole queue as it was: it does
-- not set the kernel timer, whatever timers wait.
pub handle_read_unarmed :
    (now : Timestamp) (q : TimerQueue)
    → All (λ x. now.microseconds < x.when.microseconds) q.entries
    → ((handle_read now [] q).0 ≡ q) × ((handle_read now [] q).1 ≡ [])
unfolding handle_read get_expired reset add_timers callbacks
handle_read_unarmed now q h = rw (split_before-later now q.entries h) (refl, refl)
