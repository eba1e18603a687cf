-- ===== src/Tests/Caches.antt =====
-- The dedup cache at a table of four slots.
use bit_chat.Prelude.{
  Bool, ℕ, zero, suc, ◌%◌, ◌<◌, ◌≤◌, ◌≡◌, ◌≢◌, refl, true, false, List, [], ◌∷◌, arith, replicate,
  set, inr,
}
use bit_chat.Dedup.{Entry, blank, hash, contains, insert, insert_from, evict, probe}
use bit_chat.Dedup.Probe.{Holds, IsFresh, stamp}
use bit_chat.Dedup.Insert.{contains-insert, contains-insert_other, insert_full}
use bit_chat.Dedup.Evict.{evict_forgets}
use bit_chat.Dedup.Race.{either, calling, both_returned, schedule}
use bit_chat.Dedup.Race.Lost.{schedule-insert}
use bit_chat.Tests.Data.{memcmp, alice, bob, carol}

-- Two UUIDs that hash to one slot of four.
abbrev first : List ℕ
first = replicate 16 7

abbrev second : List ℕ
second = replicate 16 11

slots : (hash first 4 ≡ 1) × (hash second 4 ≡ 1)
unfolding hash
slots = (refl, refl)

-- Both inserted: the first a while ago, the second just now.
abbrev pair_at : ℕ → List Entry
pair_at t = blank ∷ stamp first t ∷ stamp second 1000 ∷ blank ∷ []

abbrev both : List Entry
both = pair_at 100

both_runs :
    insert (insert (replicate 4 blank) 4 600 first 100) 4 600 second 200
    ≡ blank ∷ stamp first 100 ∷ stamp second 200 ∷ blank ∷ []
unfolding insert insert_from hash
both_runs = refl

pair_at-Holds : (t : ℕ) → Holds (pair_at t) 4 second 1
unfolding hash
pair_at-Holds t = record { in_range = omega arith; held = held; found = refl }
  where
    held : (k : ℕ) → k ≤ 1 → (probe (pair_at t) 4 (hash second 4) k).occupied ≡ true
    held zero h = refl
    held (suc zero) h = refl
    held (suc (suc k)) h = absurd (omega arith)

contains-insert_example : contains (insert both 4 600 first 1000) 4 first ≡ true
contains-insert_example = contains-insert both 4 refl (omega arith) 600 first 1000

contains-insert_other_example : contains (insert both 4 600 first 1000) 4 second ≡ true
contains-insert_other_example =
    contains-insert_other both 4 refl (omega arith) 600 1000 1 0 first second (pair_at-Holds 100)
      (unfold hash in refl) (omega arith) (unfold hash in inr refl)

-- At 1000 the first entry is past the age of 600, and the second is not.
evict_forgets_example :
    (contains both 4 second ≡ true)
    × (contains (evict both 600 1000) 4 second ≡ false)
    × (probe (evict both 600 1000) 4 (hash second 4) 1 ≡ probe both 4 (hash second 4) 1)
evict_forgets_example =
    evict_forgets both 4 600 1000 second 1 0 (pair_at-Holds 100) (unfold hash in (refl, refl))
      (omega arith) (unfold hash in refl) apart
  where
    apart : (m : ℕ) → m < 1 → (probe both 4 (hash second 4) m).uuid ≢ second
    apart zero h = unfold hash in ground arith
    apart (suc m) h = absurd (omega arith)

-- A full table of fresh entries: the newest one is overwritten, since it stands in the home slot.
abbrev crowded : List Entry
crowded = stamp carol 700 ∷ stamp second 1000 ∷ stamp bob 800 ∷ stamp alice 900 ∷ []

insert_full_example :
    insert crowded 4 600 first 1000 ≡ set crowded (hash first 4 % 4) (stamp first 1000)
insert_full_example = insert_full crowded 4 600 first 1000 (omega arith) fresh
  where
    fresh : (k : ℕ) → k < 4 → IsFresh 600 1000 (probe crowded 4 (hash first 4) k)
    fresh zero h = unfold hash in (refl, refl)
    fresh (suc zero) h = unfold hash in (refl, refl)
    fresh (suc (suc zero)) h = unfold hash in (refl, refl)
    fresh (suc (suc (suc zero))) h = unfold hash in (refl, refl)
    fresh (suc (suc (suc (suc k)))) h = absurd (omega arith)

-- The two UUIDs again, into an empty table.
abbrev empty : List Entry
empty = replicate 4 blank

schedule-insert_example :
    ((turns : List Bool) × (schedule 4 600 (either first second) 1000 turns (calling empty)
        ≡ both_returned (insert (insert empty 4 600 first 1000) 4 600 second 1000)))
    × ((turns : List Bool) × (schedule 4 600 (either first second) 1000 turns (calling empty)
          ≡ both_returned (insert empty 4 600 second 1000)))
schedule-insert_example = schedule-insert empty 4 600 first second 1000 (unfold hash in refl)
