-- ===== src/Port.antt =====
-- include/bitchat/port/: the two interfaces. A vtable is a record of functions on the adapter's
-- context; a slot may be NULL, but for `destroy`, which is called without a test. What it frees is not
-- seen in the context.
use bit_chat.Prelude.{ℕ, List, Option, none, some}
use bit_chat.Status.{Status, Env}
use bit_chat.Message.{Message}
use bit_chat.Peer.{Peer}

-- `bc_storage_t`, over the context `S`. `get_pending` returns the array that it fills.
pub record Storage (S : Type 0) : Type 0 where
  pub store_message : Option (Env → S → Message → Status × S)
  pub get_pending : Option (Env → S → Option (List ℕ) → Status × List Message × S)
  pub delete_message : Option (Env → S → List ℕ → Status × S)
  pub evict_expired : Option (Env → S → ℕ → Status × S)
  pub destroy : S → S

-- `bc_transport_t`, over the context `T`. `recv` returns the bytes that it wrote to the buffer and the
-- sender's key, `discover_peers` the entries that it filled in.
pub record Transport (T : Type 0) : Type 0 where
  pub init : Option (T → Status × T)
  pub send : Option (T → List ℕ → List ℕ → Status × T)
  pub recv : Option (T → ℕ → Status × List ℕ × List ℕ × T)
  pub discover_peers : Option (T → ℕ → Status × List Peer × T)
  pub destroy : T → T

-- `if (storage) storage->destroy(storage)`
unfoldable pub destroy_storage : {S : Type 0} → Option (Storage S) → S → S
destroy_storage none s = s
destroy_storage (some storage) s = storage.destroy s

-- `if (transport) transport->destroy(transport)`
unfoldable pub destroy_transport : {T : Type 0} → Option (Transport T) → T → T
destroy_transport none net = net
destroy_transport (some transport) net = transport.destroy net
