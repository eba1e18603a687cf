-- ===== src/Dedup/Evict.antt =====
-- `dedup_evict`: what it removes, and what that does to the probe sequences that run through the
-- slots it frees.
use bit_chat.Prelude.{
  ℕ, zero, suc, ◌+◌, ◌%◌, ◌<◌, ◌≤◌, ◌≡◌, inl, inr, refl, ◌≢◌, true, false, List, length, length-map,
  arith, get_or-map, Bool-cases, le-cases,
}
use bit_chat.Sodium.{Memcmp}
use bit_chat.Dedup.{
  Entry, blank, hash, is_expired, probe, contains_from, contains, evict_entry, evict,
}
use bit_chat.Dedup.Probe.{IsFresh, Holds, contains_of_Holds}

pub length-evict :
    (table : List Entry) (max_age now : ℕ) → length (evict table max_age now) ≡ length table
unfolding evict
length-evict table max_age now = length-map table (evict_entry max_age now)

module _ (table : List Entry) (cap max_age now : ℕ) where
  -- The probe meets each entry as the loop body left it.
  probe-evict :
      (idx k : ℕ)
      → probe (evict table max_age now) cap idx k ≡ evict_entry max_age now (probe table cap idx k)
  unfolding evict
  probe-evict idx k = get_or-map (evict_entry max_age now) table ((idx + k) % cap) blank

  probe-evict_fresh :
      (idx k : ℕ)
      → IsFresh max_age now (probe table cap idx k)
      → probe (evict table max_age now) cap idx k ≡ probe table cap idx k
  probe-evict_fresh idx k f = rw (probe-evict, f.1) (ground arith)

  probe-evict_expired :
      (idx k : ℕ)
      → is_expired max_age now (probe table cap idx k) ≡ true
      → (probe (evict table max_age now) cap idx k).occupied ≡ false
  probe-evict_expired idx k old = rw (probe-evict, old) (ground arith)

  uuid-evict :
      (idx k : ℕ) → (probe (evict table max_age now) cap idx k).uuid ≡ (probe table cap idx k).uuid
  uuid-evict idx k = rw probe-evict (ground arith)

  module _ ⦃mem : Memcmp⦄ (uuid : List ℕ) (j : ℕ) where
    -- A UUID whose probe meets fresh entries only is still found after an eviction.
    contains-evict :
        Holds table cap uuid j
        → ((k : ℕ) → k ≤ j → IsFresh max_age now (probe table cap (hash uuid cap) k))
        → contains (evict table max_age now) cap uuid ≡ true
    contains-evict h fresh = contains_of_Holds (evict table max_age now) cap uuid j record {
      in_range = h.in_range;
      held = λ k l. rw (probe-evict_fresh (hash uuid cap) k (fresh k l)) (h.held k l);
      found = rw (probe-evict_fresh (hash uuid cap) j (fresh j (omega arith))) h.found;
    }

-- A probe that meets a free slot before the UUID answers no.
contains_from-false :
    ⦃mem : Memcmp⦄ (table : List Entry) (cap : ℕ) (uuid : List ℕ) (idx n i k : ℕ)
    → i ≤ k
    → (probe table cap idx k).occupied ≡ false
    → ((m : ℕ) → m < k → (probe table cap idx m).uuid ≢ uuid)
    → contains_from table cap uuid idx n i ≡ false
unfolding contains_from
contains_from-false table cap uuid idx zero i k h free apart = refl
contains_from-false ⦃mem⦄ table cap uuid idx (suc n) i k h free apart = elim (le-cases i k h) [
  | inr eq ↦ rw (eq, free)
  | inl lt ↦ elim (Bool-cases (probe table cap idx i).occupied) [
    | inr gap ↦ rw gap
    | inl held ↦ elim (Bool-cases (mem.same (probe table cap idx i).uuid uuid)) [
      | inl hit ↦ absurd (apart i lt ((mem.same_iff (probe table cap idx i).uuid uuid).0 hit))
      | inr miss ↦
          rw (held, miss)
            (contains_from-false table cap uuid idx n (i + 1) k (omega arith) free apart)
    ]
  ]
]

-- A UUID in the cache, with a fresh entry, is no longer found after an eviction that frees a slot
-- before it in its probe sequence: the entry still stands in its slot, unchanged.
pub evict_forgets :
    ⦃mem : Memcmp⦄ (table : List Entry) (cap max_age now : ℕ) (uuid : List ℕ) (j k : ℕ)
    → Holds table cap uuid j
    → IsFresh max_age now (probe table cap (hash uuid cap) j)
    → k < j
    → is_expired max_age now (probe table cap (hash uuid cap) k) ≡ true
    → ((m : ℕ) → m < j → (probe table cap (hash uuid cap) m).uuid ≢ uuid)
    → (contains table cap uuid ≡ true)
      × (contains (evict table max_age now) cap uuid ≡ false)
      × (probe (evict table max_age now) cap (hash uuid cap) j ≡ probe table cap (hash uuid cap) j)
unfolding contains
evict_forgets table cap max_age now uuid j k h fresh l old apart =
    let idx = hash uuid cap in
    (
      contains_of_Holds table cap uuid j h,
      contains_from-false (evict table max_age now) cap uuid idx cap 0 k (omega arith)
          (probe-evict_expired table cap max_age now idx k old)
          (λ m lt. rw (uuid-evict table cap max_age now idx m) (apart m (omega arith))),
      probe-evict_fresh table cap max_age now idx j fresh,
    )
