-- ===== src/Store.antt =====
-- src/usecase/message_store.c: retention rules over a storage adapter, whose context is taken and
-- returned. `bc_store_destroy` only frees memory.
pub mod Retained
use bit_chat.Prelude.{ℕ, ◌*◌, List, Option, none, some, ltb, if◌then◌else◌}
use bit_chat.Status.{Status, err_invalid, err_not_implemented, Env, store_struct}
use bit_chat.Message.{Message}
use bit_chat.Port.{Storage}

-- `BC_STORE_MAX_AGE_SEC`
abbrev pub max_age_default : ℕ
max_age_default = 72 * 3600

-- `bc_msg_store_t`
pub record Store (S : Type 0) : Type 0 where
  pub storage : Storage S
  pub max_age_sec : ℕ

module _ {S : Type 0} where
  -- `bc_store_create`
  unfoldable pub create : Env → Option (Storage S) → ℕ → Option (Store S)
  create env none max_age_sec = none
  create env (some storage) max_age_sec =
      if env.alloc store_struct
      then some record {
        storage = storage;
        max_age_sec = if ltb 0 max_age_sec then max_age_sec else max_age_default;
      }
      else none

  abbrev save_with : Env → Option (Env → S → Message → Status × S) → S → Message → Status × S
  save_with env none s m = (err_not_implemented, s)
  save_with env (some store_message) s m = store_message env s m

  -- `bc_store_save`
  unfoldable pub save : Env → Option (Store S) → S → Option Message → Status × S
  save env (some store) s (some m) = save_with env store.storage.store_message s m
  save env store s m = (err_invalid, s)

  abbrev get_with :
      Env
      → Option (Env → S → Option (List ℕ) → Status × List Message × S)
      → S
      → List ℕ
      → List Message
      → Status × Option (List Message) × S
  get_with env none s peer_pubkey out = (err_not_implemented, some out, s)
  get_with env (some get_pending) s peer_pubkey out =
      let (rc, msgs, s') = get_pending env s (some peer_pubkey) in (rc, some msgs, s')

  -- `bc_store_get_for_peer`; the last argument is what `msgs_out` and `count` point to.
  unfoldable pub get_for_peer :
      Env
      → Option (Store S)
      → S
      → Option (List ℕ)
      → Option (List Message)
      → Status × Option (List Message) × S
  get_for_peer env (some store) s (some peer_pubkey) (some out) =
      get_with env store.storage.get_pending s peer_pubkey out
  get_for_peer env store s peer_pubkey out = (err_invalid, out, s)

  abbrev delete_with : Env → Option (Env → S → List ℕ → Status × S) → S → List ℕ → Status × S
  delete_with env none s uuid = (err_not_implemented, s)
  delete_with env (some delete_message) s uuid = delete_message env s uuid

  -- `bc_store_delete`
  unfoldable pub delete : Env → Option (Store S) → S → Option (List ℕ) → Status × S
  delete env (some store) s (some uuid) = delete_with env store.storage.delete_message s uuid
  delete env store s uuid = (err_invalid, s)

  abbrev cleanup_with : Env → Option (Env → S → ℕ → Status × S) → S → ℕ → Status × S
  cleanup_with env none s max_age_sec = (err_not_implemented, s)
  cleanup_with env (some evict_expired) s max_age_sec = evict_expired env s max_age_sec

  -- `bc_store_cleanup`
  unfoldable pub cleanup : Env → Option (Store S) → S → Status × S
  cleanup env none s = (err_invalid, s)
  cleanup env (some store) s = cleanup_with env store.storage.evict_expired s store.max_age_sec
