-- ===== src/Sqlite/Table.antt =====
-- What the documentation of SQLite says of the statements of src/infra/storage_sqlite.c, and what the
-- loop of `sqlite_get_pending` makes of the rows.
use bit_chat.Prelude.{
  map, Option, none, ◌↔◌, ℕ, suc, ◌%◌, ◌^◌, arith, ◌*◌, ◌≤◌, ◌≡◌, ◌≢◌, ◌⊎◌, inl, inr, refl, Bool,
  true, List, [], ◌∷◌, some, length, ltb, leb, ◌==◌, if◌then◌else◌, Bool-cases, false,
}
use mathlib.Core.List.{Memᴰ}
use bit_chat.Status.{Status, ok, Env, IsAmple, message_struct, bytes}
use bit_chat.Message.{Message}
use bit_chat.Sqlite.{
  grown, done, row_message, get_all_pending, delete, evict, Engine, blob, integer, insert,
  get_pending, Row, bindings, bound_row, store_message, read_row, read_rows,
}

-- The rows that a receiver selects, or all.
abbrev pub IsFor : Option (List ℕ) → Row → Type 0
IsFor none r = Unit
IsFor (some receiver) r = r.receiver_pubkey ≡ receiver

-- The default of SQLITE_MAX_LENGTH.
abbrev pub max_blob : ℕ
max_blob = 1000000000

-- The statements, for the rows `table` of a database: INSERT OR IGNORE adds a row where no row has its
-- primary key, and no other; each SELECT gives the rows that its condition describes; each
-- DELETE removes those; a blob within the limit is bound as it is.
pub record IsEngine {D : Type 0} (engine : Engine D) (table : D → List Row) : Type 0 where
  pub bound : (bs : List ℕ) → length bs ≤ max_blob → engine.bind_blob bs (length bs) ≡ bs
  pub inserted :
      (db db' : D) (row : Row)
      → ((r : Row) → Memᴰ r (table db) → r.uuid ≢ row.uuid)
      → engine.step db insert (bindings row) ≡ (true, db')
      → Memᴰ row (table db')
  pub inserted_only :
      (db db' : D) (row r : Row)
      → engine.step db insert (bindings row) ≡ (true, db')
      → Memᴰ r (table db')
      → Memᴰ r (table db) ⊎ (r ≡ row)
  pub selected :
      (db : D) (row : Row) (receiver : List ℕ) (now : ℕ)
      → Memᴰ row (engine.rows db get_pending (blob receiver ∷ (integer now ∷ []))).0
        ↔ (Memᴰ row (table db) × (row.receiver_pubkey ≡ receiver) × (now ≤ row.expires_at))
  pub selected_all :
      (db : D) (row : Row) (now : ℕ)
      → Memᴰ row (engine.rows db get_all_pending (integer now ∷ [])).0
        ↔ (Memᴰ row (table db) × (now ≤ row.expires_at))
  pub deleted :
      (db db' : D) (row : Row) (uuid : List ℕ)
      → engine.step db delete (blob uuid ∷ []) ≡ (true, db')
      → Memᴰ row (table db') ↔ (Memᴰ row (table db) × (row.uuid ≢ uuid))
  pub evicted :
      (db db' : D) (row : Row) (now : ℕ)
      → engine.step db evict (integer now ∷ []) ≡ (true, db')
      → Memᴰ row (table db') ↔ (Memᴰ row (table db) × (now ≤ row.expires_at))

-- A message whose payload is within the limit is stored with all its fields.
pub store_message_lem :
    {D : Type 0} {engine : Engine D} {table : D → List Row} (laws : IsEngine engine table)
    (env : Env) (db : D) (m : Message)
    → length m.payload ≤ max_blob
    → store_message engine env db m
      ≡ (let (rc, db') = engine.step db insert (bindings (bound_row env.now m)) in (done rc, db'))
unfolding store_message
store_message_lem laws env db m small =
    let e : length m.payload % 2 ^ 32 ≡ length m.payload = omega (arith, small) in
    rw (e, laws.bound m.payload small) refl

-- A step that the adapter reports as done was.
pub done-inv :
    {D : Type 0} (o : Bool × D) (d : D)
    → ◌≡◌ {A = Status × D} (done o.0, o.1) (ok, d)
    → o ≡ (true, d)
done-inv (true, e) d h = cc
done-inv (false, e) d h = cc

-- With memory, every row gives a message.
pub read_row_lem : (env : Env) (r : Row) → IsAmple env → read_row env r ≡ some (row_message r)
unfolding read_row
read_row_lem env r ample = elim (Bool-cases (ltb 0 (length r.payload))) [
  | inl long ↦
      rw (ample.granted message_struct, long, ample.granted (bytes (length r.payload))) refl
  | inr empty ↦ rw (ample.granted message_struct, empty) refl
]

room :
    (env : Env) (cap n : ℕ)
    → IsAmple env
    → (if leb cap n then env.alloc (bytes (8 * grown cap n)) else true) ≡ true
room env cap n ample = elim (Bool-cases (leb cap n)) [
  | inl full ↦ rw full (ample.granted (bytes (8 * (if cap == 0 then 8 else cap * 2))))
  | inr free ↦ rw free refl
]

-- With memory, the loop gives the messages of its rows, in their order.
pub read_rows_lem :
    (env : Env) (cap n : ℕ) (rs : List Row)
    → IsAmple env
    → read_rows env cap n rs ≡ some (map row_message rs)
unfolding read_rows
read_rows_lem env cap n [] ample = refl
read_rows_lem env cap n (q ∷ qs) ample =
    rw
      (
        room env cap n ample,
        read_row_lem env q ample,
        read_rows_lem env (grown cap n) (suc n) qs ample,
      )
      refl
