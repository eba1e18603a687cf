-- ===== src/Dedup/Race/Lost.antt =====
-- Two threads in `dedup_insert` of src/usecase/mesh_router.c: a thread alone inserts, and of two threads
-- that choose the same slot before either writes, one does.
use bit_chat.Prelude.{
  ℕ, zero, suc, ◌+◌, ◌%◌, ◌≡◌, refl, sym, ap, subst, ◌∙◌, Bool, true, false, not, List, [], ◌∷◌,
  ◌++◌, arith, ltb, ltb-ge, ◌⊎◌, if◌then◌else◌, if-keeps, get_or, set, Bool-cases, inl, inr,
}
use bit_chat.Dedup.{Entry, blank, hash, is_expired, insert, insert_from}
use bit_chat.Dedup.Race.{
  Thread, probing, claiming, overwriting, finished, advance, Threads, moved, turn, schedule,
  calling, both_returned, either,
}

-- Where the rounds that are left end.
chosen : List Entry → ℕ → ℕ → List ℕ → ℕ → ℕ → ℕ → Thread
chosen table cap max_age uuid now zero i = overwriting (hash uuid cap % cap)
chosen table cap max_age uuid now (suc n) i =
    let slot = (hash uuid cap + i) % cap in
    let e = get_or table slot blank in
    let rest = chosen table cap max_age uuid now n (i + 1) in
    if not e.occupied
    then claiming slot
    else if is_expired max_age now e
    then overwriting slot
    else rest

-- The write of a thread behind its probe is the insertion.
advance-chosen :
    (table : List Entry) (cap max_age : ℕ) (uuid : List ℕ) (now n i : ℕ)
    → advance cap max_age uuid now table (chosen table cap max_age uuid now n i)
      ≡ (insert_from table cap max_age uuid now (hash uuid cap) n i, finished)
unfolding advance insert_from chosen
advance-chosen table cap max_age uuid now zero i = refl
advance-chosen table cap max_age uuid now (suc n) i =
    let e = get_or table ((hash uuid cap + i) % cap) blank in
    elim (Bool-cases e.occupied) [
      | inr free ↦ rw free refl
      | inl held ↦ elim (Bool-cases (is_expired max_age now e)) [
        | inl old ↦ rw (held, old, held) refl
        | inr young ↦ rw (held, young) (advance-chosen table cap max_age uuid now n (i + 1))
      ]
    ]

-- A round is the last one, or the next one follows.
advance-probing :
    (table : List Entry) (cap max_age : ℕ) (uuid : List ℕ) (now n i : ℕ)
    → i + suc n ≡ cap
    → (advance cap max_age uuid now table (probing i)
        ≡ (table, chosen table cap max_age uuid now (suc n) i))
      ⊎ ((advance cap max_age uuid now table (probing i) ≡ (table, probing (i + 1)))
          × (chosen table cap max_age uuid now (suc n) i
              ≡ chosen table cap max_age uuid now n (i + 1)))
unfolding advance chosen
advance-probing table cap max_age uuid now n i e =
    let e' = get_or table ((hash uuid cap + i) % cap) blank in
    let inside : ltb i cap ≡ true = ground (arith, e) in
    elim (Bool-cases e'.occupied) [
      | inr free ↦ inl (rw (inside, free) refl)
      | inl held ↦ elim (Bool-cases (is_expired max_age now e')) [
        | inl old ↦ inl (rw (inside, held, old) refl)
        | inr young ↦ inr (rw (inside, held, young) refl, rw (held, young) refl)
      ]
    ]

advance-end :
    (table : List Entry) (cap max_age : ℕ) (uuid : List ℕ) (now i : ℕ)
    → i + 0 ≡ cap
    → advance cap max_age uuid now table (probing i)
      ≡ (table, chosen table cap max_age uuid now 0 i)
unfolding advance chosen
advance-end table cap max_age uuid now i e = rw (ltb-ge i cap (omega arith)) refl

module _ (cap max_age : ℕ) (uuid_of : Bool → List ℕ) (now : ℕ) where
  schedule-append :
      (turns more : List Bool) (s : Threads)
      → schedule cap max_age uuid_of now (turns ++ more) s
        ≡ schedule cap max_age uuid_of now more (schedule cap max_age uuid_of now turns s)
  schedule-append [] more s = refl
  schedule-append (w ∷ turns) more s = schedule-append turns more (turn cap max_age uuid_of now w s)

  turn-moved :
      (w : Bool) (s : Threads) (t : Thread)
      → turn cap max_age uuid_of now w (moved w s (s.table, t))
        ≡ moved w s (advance cap max_age (uuid_of w) now s.table t)
  turn-moved true s t = refl
  turn-moved false s t = refl

  -- A thread comes to its write, while the other one rests.
  probing-chosen :
      (w : Bool) (s : Threads) (n i : ℕ)
      → i + n ≡ cap
      → (turns : List Bool) × (schedule cap max_age uuid_of now turns
            (moved w s (s.table, probing i))
          ≡ moved w s (s.table, chosen s.table cap max_age (uuid_of w) now n i))
  probing-chosen w s zero i e = (
    w ∷ [],
    turn-moved w s (probing i)
        ∙ ap (moved w s) (advance-end s.table cap max_age (uuid_of w) now i e),
  )
  probing-chosen w s (suc n) i e =
      let (turns, run) = probing-chosen w s n (i + 1) (omega arith) in
      elim (advance-probing s.table cap max_age (uuid_of w) now n i e) [
        | inl last ↦ (w ∷ [], turn-moved w s (probing i) ∙ ap (moved w s) last)
        | inr (next, same) ↦ (
          w ∷ turns,
          ap (schedule cap max_age uuid_of now turns)
                (turn-moved w s (probing i) ∙ ap (moved w s) next)
              ∙ run
              ∙ ap (λ t. moved w s (s.table, t)) (sym same),
        )
      ]

set-set : (xs : List Entry) (i : ℕ) (v w : Entry) → set (set xs i v) i w ≡ set xs i w
set-set [] i v w = refl
set-set (x ∷ xs) zero v w = refl
set-set (x ∷ xs) (suc i) v w = ap (λ ys. x ∷ ys) (set-set xs i v w)

occupied-set :
    (xs : List Entry) (i : ℕ) (uuid : List ℕ) (now : ℕ)
    → (get_or
        (set xs i (record (get_or xs i blank) { uuid = uuid; seen_at = now }))
        i
        blank).occupied
      ≡ (get_or xs i blank).occupied
occupied-set [] i uuid now = refl
occupied-set (x ∷ xs) zero uuid now = refl
occupied-set (x ∷ xs) (suc i) uuid now = occupied-set xs i uuid now

-- Behind its probe a thread writes where it has chosen to, over what was written there since.
IsWrite : Thread → Type 0
IsWrite (probing i) = ⊥
IsWrite (claiming slot) = Unit
IsWrite (overwriting slot) = Unit
IsWrite finished = ⊥

advance-advance :
    (table : List Entry) (cap max_age : ℕ) (a b : List ℕ) (now : ℕ) (t : Thread)
    → IsWrite t
    → advance cap max_age b now (advance cap max_age a now table t).0 t
      ≡ advance cap max_age b now table t
unfolding advance IsWrite
advance-advance table cap max_age a b now (claiming slot) h =
    ap (λ xs. (xs, finished)) (set-set table slot _ _)
advance-advance table cap max_age a b now (overwriting slot) h =
    ap (λ xs. (xs, finished))
      (set-set table slot _ _
        ∙ ap (λ o. set table slot (record { uuid = b; seen_at = now; occupied = o }))
            (occupied-set table slot a now))
advance-advance table cap max_age a b now (probing i) h = elim h [ ]
advance-advance table cap max_age a b now finished h = elim h [ ]

chosen-IsWrite :
    (table : List Entry) (cap max_age : ℕ) (uuid : List ℕ) (now n i : ℕ)
    → IsWrite (chosen table cap max_age uuid now n i)
unfolding chosen IsWrite
chosen-IsWrite table cap max_age uuid now zero i = tt
chosen-IsWrite table cap max_age uuid now (suc n) i =
    let e = get_or table ((hash uuid cap + i) % cap) blank in
    if-keeps IsWrite (not e.occupied) tt (
      if-keeps IsWrite (is_expired max_age now e) tt
        (chosen-IsWrite table cap max_age uuid now n (i + 1)))

chosen-hash :
    (table : List Entry) (cap max_age : ℕ) (a b : List ℕ) (now n i : ℕ)
    → hash a cap ≡ hash b cap
    → chosen table cap max_age a now n i ≡ chosen table cap max_age b now n i
unfolding chosen
chosen-hash table cap max_age a b now zero i e = rw e refl
chosen-hash table cap max_age a b now (suc n) i e =
    rw (e, chosen-hash table cap max_age a b now n (i + 1) e) refl

module _ (table : List Entry) (cap max_age : ℕ) (a b : List ℕ) (now : ℕ) where
  -- There is an order of steps that leads from one state of the two threads to another.
  abbrev Leads : Threads → Threads → Type 0
  Leads s s' = (turns : List Bool) × (schedule cap max_age (either a b) now turns s ≡ s')

  chain : {s s' s'' : Threads} → Leads s s' → Leads s' s'' → Leads s s''
  chain {s} (turns, run) (more, next) = (
    turns ++ more,
    schedule-append cap max_age (either a b) now turns more s
        ∙ ap (schedule cap max_age (either a b) now more) run
        ∙ next,
  )

  insert-chosen :
      (xs : List Entry) (uuid : List ℕ)
      → advance cap max_age uuid now xs (chosen xs cap max_age uuid now cap 0)
        ≡ (insert xs cap max_age uuid now, finished)
  unfolding insert
  insert-chosen xs uuid = advance-chosen xs cap max_age uuid now cap 0

  -- A thread that runs alone inserts.
  alone :
      (w : Bool) (s : Threads)
      → Leads
          (moved w s (s.table, probing 0))
          (moved w s (insert s.table cap max_age (either a b w) now, finished))
  alone w s = chain (probing-chosen cap max_age (either a b) now w s cap 0 (omega arith)) (
    w ∷ [],
    turn-moved cap max_age (either a b) now w s
          (chosen s.table cap max_age (either a b w) now cap 0)
        ∙ ap (moved w s) (insert-chosen s.table (either a b w)),
  )

  serial :
      Leads
        (calling table)
        (both_returned (insert (insert table cap max_age a now) cap max_age b now))
  serial =
      let s : Threads = record (calling (insert table cap max_age a now)) { first = finished } in
      chain {s' = s} (alone true (calling table)) (alone false s)

  overlapping :
      hash a cap ≡ hash b cap
      → Leads (calling table) (both_returned (insert table cap max_age b now))
  overlapping e =
      let t = chosen table cap max_age a now cap 0 in
      let waiting : Threads = record (calling table) { first = t } in
      let same = chosen-hash table cap max_age a b now cap 0 e in
      let last : advance cap max_age b now (advance cap max_age a now table t).0 t
          ≡ (insert table cap max_age b now, finished) =
        advance-advance table cap max_age a b now t (chosen-IsWrite table cap max_age a now cap 0)
        ∙ ap (advance cap max_age b now table) same
        ∙ insert-chosen table b in
      let done : (advance cap max_age a now table t).1 ≡ finished =
        ap (λ o. o.1) (insert-chosen table a) in
      chain {s' = waiting}
        (probing-chosen cap max_age (either a b) now true (calling table) cap 0 (omega arith))
        (chain {s' = record waiting { second = t }}
          (subst (λ u. Leads waiting (record waiting { second = u })) (sym same)
            (probing-chosen cap max_age (either a b) now false waiting cap 0 (omega arith)))
          (
            true ∷ (false ∷ []),
            ap
                  (λ o. record {
                    table = o.0;
                    first = (advance cap max_age a now table t).1;
                    second = o.1;
                  })
                  last
                ∙ ap (λ u. record (both_returned (insert table cap max_age b now)) { first = u })
                    done,
          ))

  -- Two threads that insert UUIDs of the same hash into one table at the same time can both return
  -- behind the two insertions, one after the other, and in another order of their steps with a table into
  -- which only the second UUID was inserted.
  pub schedule-insert :
      hash a cap ≡ hash b cap
      → ((turns : List Bool) × (schedule cap max_age (either a b) now turns (calling table)
            ≡ both_returned (insert (insert table cap max_age a now) cap max_age b now)))
        × ((turns : List Bool) × (schedule cap max_age (either a b) now turns (calling table)
              ≡ both_returned (insert table cap max_age b now)))
  schedule-insert e = (serial, overlapping e)
