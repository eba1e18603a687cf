-- ===== src/Sqlite/Pending.antt =====
-- What `sqlite_get_pending` lists, and what deletions and evictions change of it.
use bit_chat.Prelude.{ℕ, ◌≤◌, ◌≡◌, ◌≢◌, ◌↔◌, refl, subst, List, map, Option, none, some, arith}
use mathlib.Core.List.{Memᴰ}
use mathlib.Core.List.Memᴰ
use bit_chat.Status.{ok, Env, IsAmple}
use bit_chat.Message.{Message}
use bit_chat.Sqlite.{
  Row, Engine, row_message, pending_rows, get_pending_messages, delete_message, evict_expired,
}
use bit_chat.Sqlite.Table.{IsEngine, IsFor, done-inv, read_rows_lem}

-- A row is pending for a receiver, or for all, at a time.
pub record IsPending (table : List Row) (now : ℕ) (receiver : Option (List ℕ)) (r : Row)
    : Type 0 where
  pub stored : Memᴰ r table
  pub for_receiver : IsFor receiver r
  pub young : now ≤ r.expires_at

module _ {D : Type 0} {engine : Engine D} {table : D → List Row}
    (laws : IsEngine engine table) where
  -- The rows of the statement that is chosen.
  pending_rows-IsPending :
      (env : Env) (db : D) (receiver : Option (List ℕ)) (r : Row)
      → Memᴰ r (pending_rows engine env db receiver).0 ↔ IsPending (table db) env.now receiver r
  pending_rows-IsPending env db none r =
      let (to, from) = laws.selected_all db r env.now in
      (
        λ mem.
            let (stored, young) = to mem in
            record { stored = stored; for_receiver = tt; young = young },
        λ p. from (p.stored, p.young),
      )
  pending_rows-IsPending env db (some key) r =
      let (to, from) = laws.selected db r key env.now in
      (
        λ mem.
            let (stored, same, young) = to mem in
            record { stored = stored; for_receiver = same; young = young },
        λ p. from (p.stored, p.for_receiver, p.young),
      )

  -- With memory, `sqlite_get_pending` has success, and lists the messages of the rows that are stored,
  -- have not expired and, where it is given a key, are for that receiver, and no others.
  pub get_pending_messages-IsPending :
      (env : Env) (db : D) (receiver : Option (List ℕ))
      → IsAmple env
      → let (rc, ms, _) = get_pending_messages engine env db receiver in
        (rc ≡ ok)
        × ((m : Message)
            → Memᴰ m ms
              ↔ ((r : Row) × IsPending (table db) env.now receiver r × (row_message r ≡ m)))
  unfolding get_pending_messages
  get_pending_messages-IsPending env db receiver ample =
      let rs = (pending_rows engine env db receiver).0 in
      rw (read_rows_lem env 0 0 rs ample) (
        refl,
        λ m. (
          λ mem.
              let (r, row, same) = Memᴰ.of_map row_message rs mem in
              (r, (pending_rows-IsPending env db receiver r).0 row, same),
          λ (r, p, same).
              subst (λ m'. Memᴰ m' (map row_message rs)) same
                (Memᴰ.map row_message ((pending_rows-IsPending env db receiver r).1 p)),
        ),
      )

  -- Behind a deletion that had success, `sqlite_get_pending` lists, with memory, the messages of the
  -- rows that were pending before, without those of the row with the UUID that was deleted.
  pub get_pending_messages-delete_message :
      (env env' : Env) (db db' : D) (uuid : List ℕ) (receiver : Option (List ℕ))
      → IsAmple env'
      → delete_message engine env db uuid ≡ (ok, db')
      → let (rc, ms, _) = get_pending_messages engine env' db' receiver in
        (rc ≡ ok)
        × ((m : Message)
            → Memᴰ m ms ↔ (
                (r : Row) × IsPending (table db) env'.now receiver r
                × (r.uuid ≢ uuid)
                × (row_message r ≡ m)))
  unfolding delete_message
  get_pending_messages-delete_message env env' db db' uuid receiver ample h =
      let gone = λ (r : Row). laws.deleted db db' r uuid (done-inv _ db' h) in
      let (rc, listed) = get_pending_messages-IsPending env' db' receiver ample in
      (
        rc,
        λ m. (
          λ mem.
              let (r, p, same) = (listed m).0 mem in
              let (stored, other) = (gone r).0 p.stored in
              (
                r,
                record { stored = stored; for_receiver = p.for_receiver; young = p.young },
                other,
                same,
              ),
          λ (r, p, other, same). (listed m).1 (
            r,
            record {
              stored = (gone r).1 (p.stored, other);
              for_receiver = p.for_receiver;
              young = p.young;
            },
            same,
          ),
        ),
      )

  -- Behind an eviction that had success, `sqlite_get_pending` lists, then and later, the messages that
  -- it would have listed without it, whatever age the eviction was given.
  pub get_pending_messages-evict_expired :
      (env env' : Env) (db db' : D) (max_age_sec : ℕ) (receiver : Option (List ℕ)) (m : Message)
      → IsAmple env'
      → env.now ≤ env'.now
      → evict_expired engine env db max_age_sec ≡ (ok, db')
      → Memᴰ m (get_pending_messages engine env' db' receiver).1
        ↔ Memᴰ m (get_pending_messages engine env' db receiver).1
  unfolding evict_expired
  get_pending_messages-evict_expired env env' db db' max_age_sec receiver m ample later h =
      let kept = λ (r : Row). laws.evicted db db' r env.now (done-inv _ db' h) in
      let before = (get_pending_messages-IsPending env' db receiver ample).1 m in
      let after = (get_pending_messages-IsPending env' db' receiver ample).1 m in
      (
        λ mem.
            let (r, p, same) = after.0 mem in
            before.1 (
              r,
              record {
                stored = ((kept r).0 p.stored).0;
                for_receiver = p.for_receiver;
                young = p.young;
              },
              same,
            ),
        λ mem.
            let (r, p, same) = before.0 mem in
            let young = p.young in
            after.1 (
              r,
              record {
                stored = (kept r).1 (p.stored, omega (arith, young, later));
                for_receiver = p.for_receiver;
                young = young;
              },
              same,
            ),
      )
