-- ===== src/Dedup/Probe.antt =====
-- Where the probe sequences of `dedup_contains` and `dedup_insert` stop.
use bit_chat.Prelude.{
  ℕ, zero, suc, ◌+◌, ◌%◌, ◌<◌, ◌≤◌, ◌≡◌, ◌⊎◌, inl, inr, refl, ap, true, false, List, get_or, set,
  arith, Bool-cases, lt_suc-cases, le-cases,
}
use bit_chat.Sodium.{Memcmp}
use bit_chat.Dedup.{
  Entry, blank, hash, is_expired, probe, contains_from, contains, insert_from, insert,
}

-- An entry that holds its slot: neither free nor expired.
abbrev pub IsFresh : ℕ → ℕ → Entry → Type 0
IsFresh max_age now e = (e.occupied ≡ true) × (is_expired max_age now e ≡ false)

-- An entry whose slot an insertion may take.
abbrev pub IsOpen : ℕ → ℕ → Entry → Type 0
IsOpen max_age now e = (e.occupied ≡ false) ⊎ (is_expired max_age now e ≡ true)

-- The entry that `dedup_insert` leaves.
abbrev pub stamp : List ℕ → ℕ → Entry
stamp uuid now = record { uuid = uuid; seen_at = now; occupied = true }

-- What an insertion writes, and where: the slot of round `round`, the first open one, or the first of
-- all where none is open.
pub record Victim (table : List Entry) (cap max_age : ℕ) (uuid : List ℕ) (now idx : ℕ)
    (result : List Entry) : Type 0 where
  pub round : ℕ
  pub in_range : round < cap
  pub written : result ≡ set table ((idx + round) % cap) (stamp uuid now)
  pub before : (k : ℕ) → k < round → IsFresh max_age now (probe table cap idx k)
  pub opened :
      IsOpen max_age now (probe table cap idx round)
      ⊎ ((round ≡ 0) × ((k : ℕ) → k < cap → IsFresh max_age now (probe table cap idx k)))

module _ (table : List Entry) (cap max_age : ℕ) (uuid : List ℕ) (now idx : ℕ) where
  insert_from-Victim :
      (n i : ℕ)
      → 0 < cap
      → i + n ≡ cap
      → ((k : ℕ) → k < i → IsFresh max_age now (probe table cap idx k))
      → Victim table cap max_age uuid now idx (insert_from table cap max_age uuid now idx n i)
  unfolding insert_from
  insert_from-Victim zero i pos e fresh =
      let first : idx % cap ≡ (idx + 0) % cap = ap (λ t. t % cap) (omega arith) in
      let held : (get_or table (idx % cap) blank).occupied ≡ true =
        rw first (fresh 0 (omega arith)).0 in
      record {
        round = 0;
        in_range = pos;
        written = ground arith;
        before = λ k h. absurd (omega arith);
        opened = inr (refl, λ k h. fresh k (omega arith));
      }
  insert_from-Victim (suc n) i pos e fresh =
      let here = probe table cap idx i in
      elim (Bool-cases here.occupied) [
        | inr free ↦ rw free record {
          round = i;
          in_range = omega arith;
          written = refl;
          before = fresh;
          opened = inl (inl free);
        }
        | inl held ↦ elim (Bool-cases (is_expired max_age now here)) [
          | inl old ↦
              rw (held, old)
                record {
                  round = i;
                  in_range = omega arith;
                  written = refl;
                  before = fresh;
                  opened = inl (inr old);
                }
          | inr young ↦
              rw (held, young)
                (insert_from-Victim n (i + 1) pos (omega arith) λ k h. elim (lt_suc-cases k i h) [
                  | inl lt ↦ fresh k lt
                  | inr eq ↦ rw eq (held, young)
                ])
        ]
      ]

  -- An insertion writes one entry, at the place that the probe sequence gives.
  pub insert-Victim :
      idx ≡ hash uuid cap
      → 0 < cap
      → Victim table cap max_age uuid now idx (insert table cap max_age uuid now)
  unfolding insert
  insert-Victim e pos =
      rw (← e) (insert_from-Victim cap 0 pos (omega arith) (λ k h. absurd (omega arith)))

-- The entry that answers a lookup of `uuid`: it stands in round `j`, behind held slots only.
pub record Holds (table : List Entry) (cap : ℕ) (uuid : List ℕ) (j : ℕ) : Type 0 where
  pub in_range : j < cap
  pub held : (k : ℕ) → k ≤ j → (probe table cap (hash uuid cap) k).occupied ≡ true
  pub found : (probe table cap (hash uuid cap) j).uuid ≡ uuid

module _ ⦃mem : Memcmp⦄ (table : List Entry) (cap : ℕ) (uuid : List ℕ) (idx : ℕ) where
  not_here :
      (i j : ℕ)
      → i ≤ j
      → mem.same (probe table cap idx i).uuid uuid ≡ false
      → (probe table cap idx j).uuid ≡ uuid
      → i + 1 ≤ j
  not_here i j h miss same = elim (le-cases i j h) [
    | inl lt ↦ omega arith
    | inr eq ↦ cc (miss, (mem.same_iff (probe table cap idx i).uuid uuid).1 (rw eq same))
  ]

  -- A probe that meets only held slots up to one with the UUID finds it, there or earlier.
  pub contains_from-true :
      (n i j : ℕ)
      → i ≤ j
      → j < i + n
      → ((k : ℕ) → k ≤ j → (probe table cap idx k).occupied ≡ true)
      → (probe table cap idx j).uuid ≡ uuid
      → contains_from table cap uuid idx n i ≡ true
  unfolding contains_from
  contains_from-true zero i j h l held same = absurd (omega arith)
  contains_from-true (suc n) i j h l held same =
      elim (Bool-cases (mem.same (probe table cap idx i).uuid uuid)) [
        | inl hit ↦ rw (held i h, hit)
        | inr miss ↦
            rw (held i h, miss)
              (contains_from-true n (i + 1) j (not_here i j h miss same) (omega arith) held same)
      ]

  -- A probe that answers yes has met the UUID behind held slots.
  contains_from-Holds :
      (n i : ℕ)
      → idx ≡ hash uuid cap
      → i + n ≡ cap
      → ((k : ℕ) → k < i → (probe table cap idx k).occupied ≡ true)
      → contains_from table cap uuid idx n i ≡ true
      → (j : ℕ) × Holds table cap uuid j
  unfolding contains_from
  contains_from-Holds zero i e sum held yes' = cc
  contains_from-Holds (suc n) i e sum held yes' =
      elim (Bool-cases (probe table cap idx i).occupied) [
        | inr free ↦ cc (rw free at yes')
        | inl here ↦
            let upto : (k : ℕ) → k < i + 1 → (probe table cap idx k).occupied ≡ true =
              λ k h. elim (lt_suc-cases k i h) [ inl lt ↦ held k lt | inr eq ↦ rw eq here ] in
            elim (Bool-cases (mem.same (probe table cap idx i).uuid uuid)) [
              | inl hit ↦ (
                i,
                record {
                  in_range = omega arith;
                  held = λ k h. rw (← e) (upto k (omega arith));
                  found = rw (← e) ((mem.same_iff (probe table cap idx i).uuid uuid).0 hit);
                },
              )
              | inr miss ↦
                  contains_from-Holds n (i + 1) e (omega arith) upto (rw (here, miss) at yes')
            ]
      ]

module _ ⦃mem : Memcmp⦄ (table : List Entry) (cap : ℕ) (uuid : List ℕ) where
  -- The cache answers yes exactly when an entry answers.
  pub contains_of_Holds : (j : ℕ) → Holds table cap uuid j → contains table cap uuid ≡ true
  unfolding contains
  contains_of_Holds j h =
      contains_from-true table cap uuid (hash uuid cap) cap 0 j (omega arith)
        (omega (arith, h.in_range)) h.held h.found

  pub contains-Holds : contains table cap uuid ≡ true → (j : ℕ) × Holds table cap uuid j
  unfolding contains
  contains-Holds =
      contains_from-Holds table cap uuid (hash uuid cap) cap 0 refl (omega arith)
        (λ k h. absurd (omega arith))
