-- ===== src/Dedup/Race.antt =====
-- src/usecase/mesh_router.c, `dedup_insert` on two threads: the tick thread and the main thread of
-- src/cli/main.c share a router, which has no lock. A round of the probe and the write of an entry are
-- one step each.
pub mod Lost
use bit_chat.Prelude.{
  ℕ, zero, suc, ◌+◌, ◌%◌, ◌≡◌, refl, sym, ap, subst, ◌∙◌, Bool, true, false, not, List, [], ◌∷◌,
  ◌++◌, arith, ltb, ltb-ge, ◌⊎◌, if◌then◌else◌, if-keeps, get_or, set, Bool-cases, inl, inr,
}
use bit_chat.Dedup.{Entry, blank, hash, is_expired, insert, insert_from}

-- Where a thread stands in `dedup_insert`: before a round of the loop, before the write to a free slot,
-- before the write to one that is taken, behind its return.
pub data Thread : Type 0 where
  probing : (round : ℕ) → Thread
  claiming : (slot : ℕ) → Thread
  overwriting : (slot : ℕ) → Thread
  finished : Thread

-- One step of `dedup_insert`.
pub advance :
    (cap max_age : ℕ) (uuid : List ℕ) (now : ℕ) → List Entry → Thread → List Entry × Thread
advance cap max_age uuid now table (probing i) =
    let slot = (hash uuid cap + i) % cap in
    let e = get_or table slot blank in
    if not (ltb i cap)
    then (table, overwriting (hash uuid cap % cap))
    else if not e.occupied
    then (table, claiming slot)
    else if is_expired max_age now e
    then (table, overwriting slot)
    else (table, probing (i + 1))
advance cap max_age uuid now table (claiming slot) =
    (set table slot (record { uuid = uuid; seen_at = now; occupied = true }), finished)
advance cap max_age uuid now table (overwriting slot) =
    (set table slot (record (get_or table slot blank) { uuid = uuid; seen_at = now }), finished)
advance cap max_age uuid now table finished = (table, finished)

-- The table that two threads share.
pub record Threads : Type 0 where
  pub table : List Entry
  pub first : Thread
  pub second : Thread

-- The thread `first`, for `true`, or `second` at another place, with another table.
abbrev pub moved : Bool → Threads → List Entry × Thread → Threads
moved true s (table, t) = record s { table = table; first = t }
moved false s (table, t) = record s { table = table; second = t }

abbrev pub thread : Bool → Threads → Thread
thread true s = s.first
thread false s = s.second

module _ (cap max_age : ℕ) (uuid_of : Bool → List ℕ) (now : ℕ) where
  -- One step of one thread.
  abbrev pub turn : Bool → Threads → Threads
  turn w s = moved w s (advance cap max_age (uuid_of w) now s.table (thread w s))

  -- The steps of both in the order of a schedule.
  abbrev pub schedule : List Bool → Threads → Threads
  schedule [] s = s
  schedule (w ∷ turns) s = schedule turns (turn w s)

-- Two threads at the start of their calls.
abbrev pub calling : List Entry → Threads
calling table = record { table = table; first = probing 0; second = probing 0 }

abbrev pub both_returned : List Entry → Threads
both_returned table = record { table = table; first = finished; second = finished }

-- The UUID that each thread inserts.
abbrev pub either : List ℕ → List ℕ → Bool → List ℕ
either a b true = a
either a b false = b
