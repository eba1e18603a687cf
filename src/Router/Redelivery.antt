-- ===== src/Router/Redelivery.antt =====
-- What the age limit of the dedup cache, ten minutes, does to messages that the mesh stores for three
-- days: they are delivered again.
use bit_chat.Prelude.{
  ℕ, zero, suc, ◌+◌, ◌-◌, ◌%◌, ◌^◌, ◌<◌, ◌≤◌, ◌≡◌, refl, inl, inr, true, false, not, List, [], ◌∷◌,
  arith, lt→ltb, ◌==◌, if-keeps, get_or, set, All, Bool-cases,
}
use bit_chat.Status.{ok, Env}
use bit_chat.Sodium.{Memcmp}
use bit_chat.Message.{Message}
use bit_chat.Dedup.{
  Entry, blank, is_expired, evict_entry, evict, insert, insert_from, contains, contains_from, hash,
  probe,
}
use bit_chat.Router.{Router, World, mark_seen, deliver, receive_message}
use bit_chat.Router.Receive.{has_seen, hop}
use bit_chat.Router.Tick.{evict_seen}

-- Seen at or before a time.
abbrev pub IsSeenBy : ℕ → Entry → Type 0
IsSeenBy now e = e.seen_at ≤ now

abbrev IsFree : Entry → Type 0
IsFree e = e.occupied ≡ false

All-get_or :
    (P : Entry → Type 0) (table : List Entry) (i : ℕ)
    → P blank
    → All P table
    → P (get_or table i blank)
All-get_or P [] i b h = b
All-get_or P (e ∷ es) zero b h = h.0
All-get_or P (e ∷ es) (suc i) b h = All-get_or P es i b h.1

All-set :
    (P : Entry → Type 0) (table : List Entry) (i : ℕ) (v : Entry)
    → P v
    → All P table
    → All P (set table i v)
All-set P [] i v p h = tt
All-set P (e ∷ es) zero v p h = (p, h.1)
All-set P (e ∷ es) (suc i) v p h = (h.0, All-set P es i v p h.1)

-- An insertion stamps one entry with its time.
insert_from-IsSeenBy :
    (table : List Entry) (cap max_age : ℕ) (uuid : List ℕ) (now idx n i : ℕ)
    → All (IsSeenBy now) table
    → All (IsSeenBy now) (insert_from table cap max_age uuid now idx n i)
unfolding insert_from
insert_from-IsSeenBy table cap max_age uuid now idx zero i h =
    All-set (IsSeenBy now) table (idx % cap) _ (omega arith) h
insert_from-IsSeenBy table cap max_age uuid now idx (suc n) i h =
    let slot = (idx + i) % cap in
    let e = get_or table slot blank in
    if-keeps (All (IsSeenBy now)) (not e.occupied)
      (All-set (IsSeenBy now) table slot _ (omega arith) h)
      (if-keeps (All (IsSeenBy now)) (is_expired max_age now e)
        (All-set (IsSeenBy now) table slot _ (omega arith) h)
        (insert_from-IsSeenBy table cap max_age uuid now idx n (i + 1) h))

-- An eviction after the age limit frees every slot.
evict-IsFree :
    (table : List Entry) (max_age now now' : ℕ)
    → All (IsSeenBy now) table
    → now + max_age < now'
    → now' < 2 ^ 64
    → All IsFree (evict table max_age now')
unfolding evict
evict-IsFree [] max_age now now' h late small = tt
evict-IsFree (e ∷ es) max_age now now' h late small =
    let seen : e.seen_at ≤ now = h.0 in
    let old : is_expired max_age now' e ≡ true =
      lt→ltb max_age ((now' + 2 ^ 64 - e.seen_at) % 2 ^ 64) (omega (arith, seen)) in
    (free e old, evict-IsFree es max_age now now' h.1 late small)
  where
    free :
        (e : Entry)
        → is_expired max_age now' e ≡ true
        → (evict_entry max_age now' e).occupied ≡ false
    free e old = elim (Bool-cases e.occupied) [
      | inl held ↦ ground (arith, held, old)
      | inr gap ↦ ground (arith, gap, old)
    ]

contains-free :
    ⦃mem : Memcmp⦄ (table : List Entry) (cap : ℕ) (uuid : List ℕ)
    → All IsFree table
    → contains table cap uuid ≡ false
unfolding contains contains_from
contains-free table cap uuid h = from (hash uuid cap) cap 0
  where
    from : (idx n i : ℕ) → contains_from table cap uuid idx n i ≡ false
    from idx zero i = refl
    from idx (suc n) i =
        let gap : (probe table cap idx i).occupied ≡ false =
          All-get_or IsFree table ((idx + i) % cap) refl h in
        rw gap refl

module _ ⦃mem : Memcmp⦄ {S T U : Type 0} where
  -- A message for the local key that is new and alive is delivered.
  pub receive_message-delivers :
      (env : Env) (r : Router S T U) (w : World S T U) (m : Message)
      → has_seen r m.uuid ≡ false
      → m.receiver_pubkey ≡ r.local_pubkey
      → 0 < m.ttl
      → receive_message env r w m ≡ (ok, mark_seen env r m.uuid, deliver r.on_message (hop m) w)
  unfolding receive_message
  receive_message-delivers env r w m new own alive =
      let some_left : (m.ttl == 0) ≡ false = ground arith in
      rw (new, some_left, (mem.same_iff m.receiver_pubkey r.local_pubkey).1 own) refl

  -- A message for the local key that was delivered at one time is delivered again, in full, when it comes
  -- later than the cache's age limit, and an eviction between freed its entry, however the world has
  -- changed: with the default configuration after ten minutes.
  pub receive_message-redelivers :
      (env env' : Env) (r : Router S T U) (w w' : World S T U) (m : Message)
      → All (IsSeenBy env.now) r.dedup_table
      → has_seen r m.uuid ≡ false
      → m.receiver_pubkey ≡ r.local_pubkey
      → 0 < m.ttl
      → env.now + r.config.dedup_max_age < env'.now
      → env'.now < 2 ^ 64
      → let (rc, r₁, w₁) = receive_message env r w m in
        let (rc', r₂, w₂) = receive_message env' (evict_seen env' r₁) w' m in
        (rc ≡ ok)
        × (w₁ ≡ deliver r.on_message (hop m) w)
        × (rc' ≡ ok)
        × (w₂ ≡ deliver r.on_message (hop m) w')
  unfolding insert
  receive_message-redelivers env env' r w w' m seen new own alive late small =
      let r₁ = mark_seen env r m.uuid in
      let forgotten : contains (evict r₁.dedup_table r.config.dedup_max_age env'.now) r.dedup_cap
            m.uuid
          ≡ false =
        contains-free (evict r₁.dedup_table r.config.dedup_max_age env'.now) r.dedup_cap m.uuid (
          evict-IsFree r₁.dedup_table r.config.dedup_max_age env.now env'.now
            (insert_from-IsSeenBy r.dedup_table r.dedup_cap r.config.dedup_max_age m.uuid env.now
              (hash m.uuid r.dedup_cap) r.dedup_cap 0 seen)
            late small) in
      let first = receive_message-delivers env r w m new own alive in
      let again = receive_message-delivers env' (evict_seen env' r₁) w' m forgotten own alive in
      rw (first, again) (refl, refl, refl, refl)
