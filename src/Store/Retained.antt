-- ===== src/Store/Retained.antt =====
-- The message store of src/usecase/message_store.c over the SQLite adapter.
use bit_chat.Prelude.{ℕ, ◌+◌, ◌^◌, ◌≤◌, ◌<◌, ◌≡◌, ◌≢◌, refl, List, length, some}
use mathlib.Core.List.{Memᴰ}
use bit_chat.Status.{ok, Env, IsAmple}
use bit_chat.Message.{Message, IsMessage}
use bit_chat.Sqlite.{Engine, Row, retention, vtable, get_pending_messages}
use bit_chat.Sqlite.Table.{IsEngine, max_blob}
use bit_chat.Sqlite.Retention.{restamped, get_pending-store_message}
use bit_chat.Sqlite.Pending.{get_pending_messages-IsPending, get_pending_messages-evict_expired}
use bit_chat.Store.{Store, save, cleanup, get_for_peer}

module _ {D : Type 0} (engine : Engine D) where
  -- A store over the adapter, with a maximal age.
  abbrev pub store_of : ℕ → Store D
  store_of max_age_sec = record { storage = vtable engine; max_age_sec = max_age_sec }

  -- A message that `bc_store_save` stored with success where no row has its UUID, of fields in the
  -- ranges of their C types, with a payload of at most 10^9 bytes, which is what SQLite takes, is
  -- given by `bc_store_get_for_peer` for its receiver for 72 hours, with memory, behind a
  -- `bc_store_cleanup` that had success before, whatever the maximal age of the store is, stamped
  -- with the time at which it was stored.
  pub get_for_peer-save :
      (table : D → List Row) (env env' env'' : Env) (max_age_sec : ℕ) (db db' db'' : D)
      (m : Message) (out : List Message)
      → IsEngine engine table
      → IsMessage m
      → length m.payload ≤ max_blob
      → IsAmple env''
      → env.now < 2 ^ 63
      → env'.now ≤ env''.now
      → env''.now ≤ env.now + retention
      → ((r : Row) → Memᴰ r (table db) → r.uuid ≢ m.uuid)
      → save env (some (store_of max_age_sec)) db (some m) ≡ (ok, db')
      → cleanup env' (some (store_of max_age_sec)) db' ≡ (ok, db'')
      → let (rc, msgs, _) =
          get_for_peer env''
            (some (store_of max_age_sec))
            db''
            (some m.receiver_pubkey)
            (some out) in
        (rc ≡ ok) × (ms : List Message) × (msgs ≡ some ms) × Memᴰ (restamped env.now m) ms
  unfolding save cleanup get_for_peer
  get_for_peer-save table env env' env'' max_age_sec db db' db'' m out laws v small ample early
        later young new saved cleaned =
      let key = some m.receiver_pubkey in
      let (rc, there) =
        get_pending-store_message engine table env env'' db db' m laws v small ample early young new
          saved in
      let kept =
        get_pending_messages-evict_expired laws env' env'' db' db'' max_age_sec key
          (restamped env.now m) ample later cleaned in
      (
        (get_pending_messages-IsPending laws env'' db'' key ample).0,
        (get_pending_messages engine env'' db'' key).1,
        refl,
        kept.1 there,
      )
