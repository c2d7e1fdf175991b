-- ===== src/Channel/Events.antt =====
-- The event masks of net/Channel.cpp: a mask only ever holds the read and the write bits, and each
-- change of interest changes its own bits and no others.
use tiny_network_library.Base.{ℕ, ◌≡◌, refl, Bool, true, false}
use tiny_network_library.Channel.{
  Channel, enable_reading, disable_reading, enable_writing, disable_writing, disable_all,
  is_writing, is_reading,
}

-- The four masks that occur.
pub data IsMask : ℕ → Type 0 where
  nothing : {e : ℕ} → e ≡ 0 → IsMask e
  reads : {e : ℕ} → e ≡ 3 → IsMask e
  writes : {e : ℕ} → e ≡ 4 → IsMask e
  both : {e : ℕ} → e ≡ 7 → IsMask e

-- What a mask asks for.
abbrev pub Wants : Bool → Bool → Channel → Type 0
Wants r w c = (is_reading c ≡ r) × (is_writing c ≡ w) × IsMask c.events

pub enable_writing_lem :
    (c : Channel) → IsMask c.events → Wants (is_reading c) true (enable_writing c)
unfolding enable_writing is_reading is_writing
enable_writing_lem c (nothing e) = rw e (refl, refl, writes refl)
enable_writing_lem c (reads e) = rw e (refl, refl, both refl)
enable_writing_lem c (writes e) = rw e (refl, refl, writes refl)
enable_writing_lem c (both e) = rw e (refl, refl, both refl)

pub disable_writing_lem :
    (c : Channel) → IsMask c.events → Wants (is_reading c) false (disable_writing c)
unfolding disable_writing is_reading is_writing
disable_writing_lem c (nothing e) = rw e (refl, refl, nothing refl)
disable_writing_lem c (reads e) = rw e (refl, refl, reads refl)
disable_writing_lem c (writes e) = rw e (refl, refl, nothing refl)
disable_writing_lem c (both e) = rw e (refl, refl, reads refl)

pub enable_reading_lem :
    (c : Channel) → IsMask c.events → Wants true (is_writing c) (enable_reading c)
unfolding enable_reading is_reading is_writing
enable_reading_lem c (nothing e) = rw e (refl, refl, reads refl)
enable_reading_lem c (reads e) = rw e (refl, refl, reads refl)
enable_reading_lem c (writes e) = rw e (refl, refl, both refl)
enable_reading_lem c (both e) = rw e (refl, refl, both refl)

pub disable_reading_lem :
    (c : Channel) → IsMask c.events → Wants false (is_writing c) (disable_reading c)
unfolding disable_reading is_reading is_writing
disable_reading_lem c (nothing e) = rw e (refl, refl, nothing refl)
disable_reading_lem c (reads e) = rw e (refl, refl, nothing refl)
disable_reading_lem c (writes e) = rw e (refl, refl, writes refl)
disable_reading_lem c (both e) = rw e (refl, refl, writes refl)

pub disable_all_lem : (c : Channel) → IsMask c.events → Wants false false (disable_all c)
unfolding disable_all is_reading is_writing
disable_all_lem c (nothing e) = rw e (refl, refl, nothing refl)
disable_all_lem c (reads e) = rw e (refl, refl, nothing refl)
disable_all_lem c (writes e) = rw e (refl, refl, nothing refl)
disable_all_lem c (both e) = rw e (refl, refl, nothing refl)

-- On every mask that occurs, each change of interest sets or clears the interest that it names, keeps
-- the other one, and leads to a mask that occurs; `disableAll` clears both.
pub interest_changes :
    (c : Channel)
    → IsMask c.events
    → Wants true (is_writing c) (enable_reading c)
      × Wants false (is_writing c) (disable_reading c)
      × Wants (is_reading c) true (enable_writing c)
      × Wants (is_reading c) false (disable_writing c)
      × Wants false false (disable_all c)
interest_changes c m = (
  enable_reading_lem c m,
  disable_reading_lem c m,
  enable_writing_lem c m,
  disable_writing_lem c m,
  disable_all_lem c m,
)
