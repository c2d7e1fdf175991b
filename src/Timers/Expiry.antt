-- ===== src/Timers/Expiry.antt =====
-- `getExpired` of timer/TimerQueue.cpp: exactly the timers whose time has come are taken out.
use tiny_network_library.Base.{
  ◌≤◌, ◌<◌, ◌≡◌, refl, ap, arith, true, false, List, [], ◌∷◌, ◌++◌, All, Bool-cases, inl, inr,
}
use tiny_network_library.Clock.{Timestamp}
use tiny_network_library.Timers.{
  Entry, entry_lt, split_before, TimerQueue, get_expired, max_address,
}
use tiny_network_library.Timers.Order.{IsSorted}

module _ (sentry : Entry) where
  split-append : (es : List Entry) → (split_before sentry es).0 ++ (split_before sentry es).1 ≡ es
  unfolding split_before
  split-append [] = refl
  split-append (x ∷ es) = elim (Bool-cases (entry_lt x sentry)) [
    | inl less ↦ rw less (ap (◌∷◌ x) (split-append es))
    | inr more ↦ rw more
  ]

  split-front : (es : List Entry) → All (λ x. entry_lt x sentry ≡ true) (split_before sentry es).0
  unfolding split_before
  split-front [] = tt
  split-front (x ∷ es) = elim (Bool-cases (entry_lt x sentry)) [
    | inl less ↦ rw less (less, split-front es)
    | inr more ↦ rw more tt
  ]

  -- Behind an entry that is not before the sentry none is.
  none_behind :
      (x : Entry) (es : List Entry)
      → entry_lt x sentry ≡ false
      → All (λ y. entry_lt x y ≡ true) es
      → All (λ y. entry_lt y sentry ≡ false) es
  none_behind x [] h k = tt
  none_behind x (y ∷ es) h (k, ks) = (ground arith, none_behind x es h ks)

  split-back :
      (es : List Entry)
      → IsSorted es
      → All (λ x. entry_lt x sentry ≡ false) (split_before sentry es).1
  unfolding split_before
  split-back [] s = tt
  split-back (x ∷ es) (after, s) = elim (Bool-cases (entry_lt x sentry)) [
    | inl less ↦ rw less (split-back es s)
    | inr more ↦ rw more (more, none_behind x es more after)
  ]

  split-IsSorted : (es : List Entry) → IsSorted es → IsSorted (split_before sentry es).1
  unfolding split_before
  split-IsSorted [] s = tt
  split-IsSorted (x ∷ es) (after, s) = elim (Bool-cases (entry_lt x sentry)) [
    | inl less ↦ rw less (split-IsSorted es s)
    | inr more ↦ rw more (after, s)
  ]

All-map : (P Q : Entry → Type 0) (es : List Entry) → ((x : Entry) → P x → Q x) → All P es → All Q es
All-map P Q [] f h = tt
All-map P Q (x ∷ es) f (h, hs) = (f x h, All-map P Q es f hs)

-- Of a queue in order, `getExpired` takes out from the front exactly the entries whose time is not
-- after `now`, for timers below the highest address; what it leaves is in order.
pub get_expired_lem :
    (now : Timestamp) (q : TimerQueue)
    → IsSorted q.entries
    → All (λ x. x.timer < max_address) q.entries
    → ((get_expired now q).0 ++ (get_expired now q).1.entries ≡ q.entries)
      × All (λ x. x.when.microseconds ≤ now.microseconds) (get_expired now q).0
      × All (λ x. now.microseconds < x.when.microseconds) (get_expired now q).1.entries
      × IsSorted (get_expired now q).1.entries
unfolding get_expired
get_expired_lem now q s low =
    let sentry : Entry = record { when = now; timer = max_address } in
    (
      split-append sentry q.entries,
      All-map _ _ (split_before sentry q.entries).0 (λ x h. ground arith)
          (split-front sentry q.entries),
      later (split_before sentry q.entries).1 (split-back sentry q.entries s) (
          All-back (split_before sentry q.entries).0 (split_before sentry q.entries).1
            (rw (split-append sentry q.entries) low)),
      split-IsSorted sentry q.entries s,
    )
  where
    All-back :
        (xs ys : List Entry)
        → All (λ x. x.timer < max_address) (xs ++ ys)
        → All (λ x. x.timer < max_address) ys
    All-back [] ys h = h
    All-back (x ∷ xs) ys h = All-back xs ys h.1

    later :
        (es : List Entry)
        → All (λ x. entry_lt x (record { when = now; timer = max_address }) ≡ false) es
        → All (λ x. x.timer < max_address) es
        → All (λ x. now.microseconds < x.when.microseconds) es
    later [] h k = tt
    later (x ∷ es) (h, hs) (k, ks) = (ground arith, later es hs ks)
