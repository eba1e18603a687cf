-- ===== src/Ffi.antt =====
-- src/bridge/bitchat_ffi.c: the API of the library over one global state. Every function runs under the
-- lock as a whole; what `on_message_received` reads and writes of the state is a record of its own, the
-- router's `userdata`.
pub mod Inbox
pub mod Api
pub mod Calls
pub mod Locked
pub mod Isolated
pub mod Envelope
pub mod Loaded
pub mod Sealed
pub mod Slots
pub mod Ring
use bit_chat.Prelude.{
  ℕ, ◌+◌, ◌-◌, ◌%◌, Bool, true, false, not, List, [], ◌∷◌, Option, none, some, ltb, ◌==◌,
  if◌then◌else◌, length, take, drop, replicate, set,
}
use bit_chat.Status.{Status, is_ok, Env, Request, bytes}
use bit_chat.Sodium.{Sodium}
use bit_chat.Message.{Message}
use bit_chat.Message as Message
use bit_chat.Identity.{Identity}
use bit_chat.Crypto.{nonce_size, tag_size, content, derive_shared, decrypt}
use bit_chat.Port.{Storage, Transport}
use bit_chat.Router.{Router, World}
use bit_chat.Discovery.{Discovery}

-- The length of `g_state.inbox`.
abbrev pub inbox_size : ℕ
inbox_size = 256

-- `g_state.identity`, `inbox` with its two indices, and `user_callback`; `user` is what the callback
-- itself writes, and `env` the environment of the call under way.
pub record Shared (V : Type 0) : Type 0 where
  pub env : Env
  pub identity : Identity
  pub inbox : List (Option Message)
  pub inbox_head : ℕ
  pub inbox_tail : ℕ
  pub user_callback : Option (List ℕ → List ℕ → V → V)
  pub user : V

-- `g_state`, with the contexts of the two adapters in `world`. The BLE transport's is NULL.
pub record State (D V : Type 0) : Type 0 where
  pub initialized : Bool
  pub mutex_initialized : Bool
  pub transport : Option (Transport (Unit {0}))
  pub storage : Option (Storage D)
  pub router : Option (Router D (Unit {0}) (Shared V))
  pub discovery : Option (Discovery (Unit {0}) (Shared V))
  pub world : World D (Unit {0}) (Shared V)

-- The index behind `i` in the ring.
abbrev pub next_index : ℕ → ℕ
next_index i = (i + 1) % inbox_size

-- `payload_len - BC_NONCE_SIZE - BC_TAG_SIZE`, behind the guard on the length.
abbrev pub plain_length : Message → ℕ
plain_length m = length m.payload - nonce_size - tag_size

-- `msg->payload_len < BC_NONCE_SIZE + BC_TAG_SIZE`
abbrev pub is_short : Message → Bool
is_short m = ltb (length m.payload) (nonce_size + tag_size)

-- `bc_crypto_derive_shared` for the peer that sent a message.
abbrev pub shared_key : Sodium → Identity → List ℕ → Status × Option (List ℕ)
shared_key sodium id peer =
    derive_shared sodium (some id.secret_key) (some peer) (some (replicate 32 0))

-- `bc_crypto_decrypt` of a payload, a nonce of 24 bytes and then the ciphertext.
abbrev pub decrypt_payload : Sodium → Option (List ℕ) → Message → List ℕ → Status × Option (List ℕ)
decrypt_payload sodium key m buf =
    decrypt sodium (some (drop nonce_size m.payload)) key (some (take nonce_size m.payload))
      (some buf)

module _ {V : Type 0} where
  -- The copy takes the identity fields of the message that it copies, and the slot at the head.
  abbrev pub put_copy : Shared V → Message → Option Message → Shared V
  put_copy s m none = s
  put_copy s m (some copy) = record s {
    inbox =
        set s.inbox s.inbox_head
          (some (record copy { uuid = m.uuid; ttl = m.ttl; timestamp = m.timestamp }));
    inbox_head = next_index s.inbox_head;
  }

  -- Part 1 of `on_message_received`.
  unfoldable pub keep_copy : Shared V → Message → Shared V
  keep_copy s m =
      let copy =
        Message.create s.env (some m.sender_pubkey) (some m.receiver_pubkey) (some m.payload) in
      if next_index s.inbox_head == s.inbox_tail then s else put_copy s m copy

  -- Part 2 of `on_message_received`.
  unfoldable pub push : Sodium → Shared V → Message → Option (List ℕ → List ℕ → V → V) → Shared V
  push sodium s m none = s
  push sodium s m (some user_callback) =
      let (rc, key) = shared_key sodium s.identity m.sender_pubkey in
      let (rc', plaintext) = decrypt_payload sodium key m (replicate (plain_length m) 0) in
      if is_short m
      then s
      else if not (is_ok rc)
      then s
      else if not (s.env.alloc (bytes (plain_length m)))
      then s
      else if is_ok rc'
      then record s { user = user_callback m.sender_pubkey (content plaintext) s.user }
      else s

  -- `on_message_received`
  unfoldable pub on_message_received : Sodium → Message → Shared V → Shared V
  on_message_received sodium m s = let s' = keep_copy s m in push sodium s' m s'.user_callback
