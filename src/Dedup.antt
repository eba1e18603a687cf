-- ===== src/Dedup.antt =====
-- src/usecase/mesh_router.c, the dedup cache: an open-addressed hash set with linear probing. A slot
-- number stays below twice the capacity, so that `size_t` sums do not wrap.
pub mod Probe
pub mod Insert
pub mod Evict
pub mod Race
use Prim.Native.Nat.{bit_xor}
use bit_chat.Prelude.{
  ℕ, zero, suc, ◌+◌, ◌-◌, ◌*◌, ◌%◌, ◌^◌, Bool, true, false, not, ◌&&◌, List, [], ◌∷◌, map, ltb,
  if◌then◌else◌, get_or, set,
}
use bit_chat.Sodium.{Memcmp}

-- `bc_dedup_entry_t`
pub record Entry : Type 0 where
  pub uuid : List ℕ
  pub seen_at : ℕ
  pub occupied : Bool

-- A slot as `calloc` leaves it.
abbrev pub blank : Entry
blank = record { uuid = []; seen_at = 0; occupied = false }

-- The loop of `dedup_hash`, on 32 bits.
fnv : ℕ → List ℕ → ℕ
fnv h [] = h
fnv h (b ∷ uuid) = fnv (bit_xor h b * 16777619 % 2 ^ 32) uuid

-- `dedup_hash`
unfoldable pub hash : List ℕ → ℕ → ℕ
unfolding fnv
hash uuid cap = fnv 2166136261 uuid % cap

-- `now - e->seen_at > dedup_max_age`, on 64 bits.
abbrev pub is_expired : ℕ → ℕ → Entry → Bool
is_expired max_age now e = ltb max_age ((now + 2 ^ 64 - e.seen_at) % 2 ^ 64)

-- The entry that the probe meets in round `i`.
abbrev pub probe : List Entry → ℕ → ℕ → ℕ → Entry
probe table cap idx i = get_or table ((idx + i) % cap) blank

module _ ⦃mem : Memcmp⦄ where
  -- The loop of `dedup_contains`, with the rounds that are left and the round.
  unfoldable pub contains_from : List Entry → ℕ → List ℕ → ℕ → ℕ → ℕ → Bool
  contains_from table cap uuid idx zero i = false
  contains_from table cap uuid idx (suc n) i =
      let e = probe table cap idx i in
      let rest = contains_from table cap uuid idx n (i + 1) in
      if not e.occupied then false else if mem.same e.uuid uuid then true else rest

  -- `dedup_contains`
  unfoldable pub contains : List Entry → ℕ → List ℕ → Bool
  contains table cap uuid = contains_from table cap uuid (hash uuid cap) cap 0

-- The loop of `dedup_insert`; after the last round it overwrites the first slot.
unfoldable pub insert_from : List Entry → ℕ → ℕ → List ℕ → ℕ → ℕ → ℕ → ℕ → List Entry
insert_from table cap max_age uuid now idx zero i =
    let slot = idx % cap in
    set table slot (record (get_or table slot blank) { uuid = uuid; seen_at = now })
insert_from table cap max_age uuid now idx (suc n) i =
    let slot = (idx + i) % cap in
    let e = get_or table slot blank in
    let rest = insert_from table cap max_age uuid now idx n (i + 1) in
    if not e.occupied
    then set table slot (record { uuid = uuid; seen_at = now; occupied = true })
    else if is_expired max_age now e
    then set table slot (record e { uuid = uuid; seen_at = now })
    else rest

-- `dedup_insert`
unfoldable pub insert : List Entry → ℕ → ℕ → List ℕ → ℕ → List Entry
insert table cap max_age uuid now = insert_from table cap max_age uuid now (hash uuid cap) cap 0

-- The body of the loop of `dedup_evict`.
abbrev pub evict_entry : ℕ → ℕ → Entry → Entry
evict_entry max_age now e =
    if e.occupied && is_expired max_age now e then record e { occupied = false } else e

-- `dedup_evict`; the table has `dedup_cap` slots.
unfoldable pub evict : List Entry → ℕ → ℕ → List Entry
evict table max_age now = map (evict_entry max_age now) table
