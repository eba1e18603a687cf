-- ===== src/Dedup/Insert.antt =====
-- `dedup_insert` against `dedup_contains`: what an insertion adds, and what it keeps.
use bit_chat.Prelude.{
  ℕ, ◌+◌, ◌%◌, ◌<◌, ◌≡◌, ◌⊎◌, inl, inr, refl, ap, ◌∙◌, true, false, List, if◌then◌else◌, get_or,
  set, length, length-set, arith, get_or-set, Bool-cases, ◌==◌, le-cases, ==_iff,
}
use bit_chat.Sodium.{Memcmp}
use bit_chat.Dedup.{Entry, blank, hash, is_expired, probe, contains, insert}
use bit_chat.Dedup.Probe.{IsFresh, IsOpen, stamp, insert-Victim, Holds, contains_of_Holds}

-- An insertion keeps the size of the table.
pub length-insert :
    (table : List Entry) (cap max_age : ℕ) (uuid : List ℕ) (now : ℕ)
    → 0 < cap
    → length (insert table cap max_age uuid now) ≡ length table
length-insert table cap max_age uuid now pos =
    let v = insert-Victim table cap max_age uuid now (hash uuid cap) refl pos in
    rw v.written (length-set table ((hash uuid cap + v.round) % cap) (stamp uuid now))

module _ (table : List Entry) (cap : ℕ) (sized : length table ≡ cap) (pos : 0 < cap) where
  -- The probe after one slot was written.
  probe-set :
      (slot idx k : ℕ) (v : Entry)
      → slot < cap
      → probe (set table slot v) cap idx k
        ≡ (if slot == ((idx + k) % cap) then v else probe table cap idx k)
  probe-set slot idx k v h = get_or-set table slot ((idx + k) % cap) v blank (omega arith)

  -- A held slot stays held when a held entry is written anywhere.
  held-set :
      (slot idx k : ℕ) (uuid : List ℕ) (now : ℕ)
      → slot < cap
      → (probe table cap idx k).occupied ≡ true
      → (probe (set table slot (stamp uuid now)) cap idx k).occupied ≡ true
  held-set slot idx k uuid now h held = rw (probe-set slot idx k (stamp uuid now) h) (ground arith)

  probe-set_self : (idx k : ℕ) (v : Entry) → probe (set table ((idx + k) % cap) v) cap idx k ≡ v
  probe-set_self idx k v = rw (probe-set ((idx + k) % cap) idx k v (grind arith)) (ground arith)

  -- A fresh entry is not the one that an insertion overwrites, if the probe meets an open slot.
  not_victim :
      (max_age now r idx round : ℕ) (e : Entry)
      → probe table cap idx round ≡ e
      → IsFresh max_age now e
      → r < cap
      → IsOpen max_age now (probe table cap idx r)
      → IsOpen max_age now (probe table cap idx round)
        ⊎ ((round ≡ 0) × ((k : ℕ) → k < cap → IsFresh max_age now (probe table cap idx k)))
      → ⊥
  not_victim max_age now r idx round e eq fresh l opened (inl (inl free)) = cc (rw eq at free)
  not_victim max_age now r idx round e eq fresh l opened (inl (inr old)) = cc
  not_victim max_age now r idx round e eq fresh l (inl free) (inr (z, all)) = cc (all r l).0
  not_victim max_age now r idx round e eq fresh l (inr old) (inr (z, all)) = cc (all r l).1

  module _ ⦃mem : Memcmp⦄ where
    -- A UUID is found right after its insertion, whatever the table held.
    pub contains-insert :
        (max_age : ℕ) (uuid : List ℕ) (now : ℕ)
        → contains (insert table cap max_age uuid now) cap uuid ≡ true
    contains-insert max_age uuid now =
        let idx = hash uuid cap in
        let v = insert-Victim table cap max_age uuid now idx refl pos in
        let slot = (idx + v.round) % cap in
        let self = probe-set_self idx v.round (stamp uuid now) in
        rw v.written (
          contains_of_Holds (set table slot (stamp uuid now)) cap uuid v.round record {
            in_range = v.in_range;
            held = λ k h. elim (le-cases k v.round h) [
              | inl lt ↦ held-set slot idx k uuid now (grind arith) (v.before k lt).0
              | inr eq ↦ rw (eq, self) refl
            ];
            found = rw self refl;
          })

    -- An insertion makes no other UUID forgotten whose entry is fresh, as long as the probe of the
    -- inserted one meets a slot that is free or expired.
    pub contains-insert_other :
        (max_age now j r : ℕ) (uuid other : List ℕ)
        → Holds table cap other j
        → is_expired max_age now (probe table cap (hash other cap) j) ≡ false
        → r < cap
        → IsOpen max_age now (probe table cap (hash uuid cap) r)
        → contains (insert table cap max_age uuid now) cap other ≡ true
    contains-insert_other max_age now j r uuid other h fresh rl opened =
        let idx = hash uuid cap in
        let home = hash other cap in
        let v = insert-Victim table cap max_age uuid now idx refl pos in
        let slot = (idx + v.round) % cap in
        let fits : slot < cap = grind arith in
        elim (Bool-cases (slot == ((home + j) % cap))) [
          | inl hit ↦ absurd (
              not_victim max_age now r idx v.round (probe table cap home j)
                (ap (λ t. get_or table t blank) ((==_iff slot ((home + j) % cap)).0 hit))
                (h.held j (omega arith), fresh) rl opened v.opened)
          | inr miss ↦ rw v.written (
              contains_of_Holds (set table slot (stamp uuid now)) cap other j record {
                in_range = h.in_range;
                held = λ k l. held-set slot home k uuid now fits (h.held k l);
                found = rw (probe-set slot home j (stamp uuid now) fits, miss) h.found;
              })
        ]

victim_first :
    {P : Type 0} (e : Entry) (max_age now n : ℕ)
    → IsOpen max_age now e ⊎ ((n ≡ 0) × P)
    → IsFresh max_age now e
    → n ≡ 0
victim_first e max_age now n (inl (inl free)) f = cc
victim_first e max_age now n (inl (inr old)) f = cc
victim_first e max_age now n (inr (z, all)) f = z

-- Into a table with no free and no expired slot an insertion overwrites the slot that the UUID hashes
-- to, however recently its entry was seen.
pub insert_full :
    (table : List Entry) (cap max_age : ℕ) (uuid : List ℕ) (now : ℕ)
    → 0 < cap
    → ((k : ℕ) → k < cap → IsFresh max_age now (probe table cap (hash uuid cap) k))
    → insert table cap max_age uuid now ≡ set table (hash uuid cap % cap) (stamp uuid now)
insert_full table cap max_age uuid now pos fresh =
    let v = insert-Victim table cap max_age uuid now (hash uuid cap) refl pos in
    let first : v.round ≡ 0 =
      victim_first (probe table cap (hash uuid cap) v.round) max_age now v.round v.opened
        (fresh v.round v.in_range) in
    v.written ∙ ap (λ t. set table (t % cap) (stamp uuid now)) (omega arith)
