-- ===== src/Sqlite.antt =====
-- src/infra/storage_sqlite.c: the storage adapter over SQLite. The engine is a parameter: what it makes
-- of a statement with its bound values.
pub mod Table
pub mod Retention
pub mod Pending
use bit_chat.Prelude.{
  ℕ, suc, ◌+◌, ◌-◌, ◌*◌, ◌%◌, ◌^◌, Bool, true, false, ◌&&◌, List, [], ◌∷◌, Option, none, some, ltb,
  leb, ◌==◌, if◌then◌else◌, length, take, replicate,
}
use bit_chat.Status.{
  Status, ok, err_nomem, err_storage, Env, Request, message_struct, storage_struct, context_struct,
  bytes,
}
use bit_chat.Message.{Message, uuid_size, pubkey_size}
use bit_chat.Port.{Storage}

-- `STORAGE_DEFAULT_RETENTION_SEC`
abbrev pub retention : ℕ
retention = 72 * 3600

-- The texts of the file: `journal_wal` is the PRAGMA, the others the constants `SQL_…`.
pub data Statement : Type 0 where
  journal_wal create_table create_index insert get_pending get_all_pending delete evict : Statement

-- A bound parameter; `blob []` is also what binding a NULL payload gives, and an unbound parameter.
pub data Value : Type 0 where
  blob : List ℕ → Value
  integer : ℕ → Value

-- A row of `pending_messages`.
pub record Row : Type 0 where
  pub uuid : List ℕ
  pub sender_pubkey : List ℕ
  pub receiver_pubkey : List ℕ
  pub payload : List ℕ
  pub ttl : ℕ
  pub expires_at : ℕ

-- The engine, on the state `D` of an open database. `step` resets a prepared statement, binds the
-- values and steps once: whether that gave SQLITE_DONE. `rows` steps as long as it gives SQLITE_ROW.
-- `bind_blob` is what a parameter holds after `sqlite3_bind_blob` on a payload and the 32 bits of its
-- `int` length; the adapter ignores whether that had success.
pub record Engine (D : Type 0) : Type 0 where
  pub open_v2 : List ℕ → Option D
  pub exec : D → Statement → Bool × D
  pub prepare_v2 : D → Statement → Bool
  pub bind_blob : List ℕ → ℕ → List ℕ
  pub step : D → Statement → List Value → Bool × D
  pub rows : D → Statement → List Value → List Row × D
  pub finalize : D → Statement → D
  pub close : D → D

-- `(rc == SQLITE_DONE) ? BC_OK : BC_ERR_STORAGE`
abbrev pub done : Bool → Status
done rc = if rc then ok else err_storage

-- The columns of a message stored at a time.
abbrev pub bound_row : ℕ → Message → Row
bound_row now m = record {
  uuid = m.uuid;
  sender_pubkey = m.sender_pubkey;
  receiver_pubkey = m.receiver_pubkey;
  payload = m.payload;
  ttl = m.ttl;
  expires_at = now + retention;
}

-- The parameters of `SQL_INSERT`, from 1 to 6.
abbrev pub bindings : Row → List Value
bindings r =
    blob r.uuid
    ∷ (blob r.sender_pubkey
        ∷ (blob r.receiver_pubkey
            ∷ (blob r.payload ∷ (integer r.ttl ∷ (integer r.expires_at ∷ [])))))

-- `if (blob) memcpy(field, blob, n)`, into a zeroed field.
abbrev pub read_blob : ℕ → List ℕ → List ℕ
read_blob n [] = replicate n 0
read_blob n (b ∷ bs) = take n (b ∷ bs)

-- What is built from the columns of one row.
abbrev pub row_message : Row → Message
row_message r = record {
  uuid = read_blob uuid_size r.uuid;
  ttl = r.ttl % 256;
  sender_pubkey = read_blob pubkey_size r.sender_pubkey;
  receiver_pubkey = read_blob pubkey_size r.receiver_pubkey;
  timestamp = (r.expires_at + 2 ^ 64 - retention) % 2 ^ 64;
  payload = r.payload;
}

-- The message of one row, with its two allocations.
unfoldable pub read_row : Env → Row → Option Message
read_row env r =
    let copied = if ltb 0 (length r.payload) then env.alloc (bytes (length r.payload)) else true in
    if env.alloc message_struct && copied then some (row_message r) else none

-- `(cap == 0) ? 8 : cap * 2`, where the array is full.
abbrev pub grown : ℕ → ℕ → ℕ
grown cap n = if leb cap n then (if cap == 0 then 8 else cap * 2) else cap

abbrev pub cons_row : Option Message → Option (List Message) → Option (List Message)
cons_row (some m) (some ms) = some (m ∷ ms)
cons_row m ms = none

-- The loop of `sqlite_get_pending`, with the array's capacity and count; `none` is `goto oom`.
unfoldable pub read_rows : Env → ℕ → ℕ → List Row → Option (List Message)
read_rows env cap n [] = some []
read_rows env cap n (r ∷ rs) =
    let rest = read_rows env (grown cap n) (suc n) rs in
    let room = if leb cap n then env.alloc (bytes (8 * grown cap n)) else true in
    if room then cons_row (read_row env r) rest else none

-- `*msgs_out` and `*count`, with the status.
abbrev pub pending_out : Option (List Message) → Status × List Message
pending_out none = (err_nomem, [])
pending_out (some ms) = (ok, ms)

module _ {D : Type 0} (engine : Engine D) where
  -- `sqlite_store_message`
  unfoldable pub store_message : Env → D → Message → Status × D
  store_message env db m =
      let payload = engine.bind_blob m.payload (length m.payload % 2 ^ 32) in
      let row = bound_row env.now (record m { payload = payload }) in
      let (rc, db') = engine.step db insert (bindings row) in (done rc, db')

  -- The statement that is stepped, with its parameters.
  abbrev pub pending_rows : Env → D → Option (List ℕ) → List Row × D
  pending_rows env db none = engine.rows db get_all_pending (integer env.now ∷ [])
  pending_rows env db (some peer_pubkey) =
      engine.rows db get_pending (blob peer_pubkey ∷ (integer env.now ∷ []))

  -- `sqlite_get_pending`
  unfoldable pub get_pending_messages : Env → D → Option (List ℕ) → Status × List Message × D
  get_pending_messages env db peer_pubkey =
      let (rs, db') = pending_rows env db peer_pubkey in
      let (rc, ms) = pending_out (read_rows env 0 0 rs) in (rc, ms, db')

  -- `sqlite_delete_message`
  unfoldable pub delete_message : Env → D → List ℕ → Status × D
  delete_message env db uuid =
      let (rc, db') = engine.step db delete (blob uuid ∷ []) in (done rc, db')

  -- `sqlite_evict_expired`
  unfoldable pub evict_expired : Env → D → ℕ → Status × D
  evict_expired env db max_age_sec =
      let (rc, db') = engine.step db evict (integer env.now ∷ []) in (done rc, db')

  -- The statements that `sqlite_destroy` finalizes, in turn.
  abbrev pub finalize_all : List Statement → D → D
  finalize_all [] db = db
  finalize_all (sql ∷ sqls) db = finalize_all sqls (engine.finalize db sql)

  -- `sqlite_destroy`
  unfoldable pub destroy : D → D
  destroy db =
      engine.close
        (finalize_all (insert ∷ (get_pending ∷ (get_all_pending ∷ (delete ∷ (evict ∷ []))))) db)

  -- The vtable.
  abbrev pub vtable : Storage D
  vtable = record {
    store_message = some store_message;
    get_pending = some get_pending_messages;
    delete_message = some delete_message;
    evict_expired = some evict_expired;
    destroy = destroy;
  }

  -- The five statements are prepared.
  abbrev pub prepared : D → Bool
  prepared db =
      engine.prepare_v2 db insert
      && (engine.prepare_v2 db get_pending
          && (engine.prepare_v2 db get_all_pending
              && (engine.prepare_v2 db delete && engine.prepare_v2 db evict)))

  -- `bc_storage_sqlite_create`, from the opened database on.
  unfoldable pub set_up : Env → Option D → Option (Storage D × D)
  set_up env none = none
  set_up env (some db) =
      let (wal, db₁) = engine.exec db journal_wal in
      let (table, db₂) = engine.exec db₁ create_table in
      let (index, db₃) = engine.exec db₂ create_index in
      if table && (index && (prepared db₃ && env.alloc storage_struct))
      then some (vtable, db₃)
      else none

  -- `bc_storage_sqlite_create`: the adapter, and its context.
  unfoldable pub create : Env → Option (List ℕ) → Option (Storage D × D)
  create env none = none
  create env (some db_path) =
      if env.alloc context_struct then set_up env (engine.open_v2 db_path) else none
