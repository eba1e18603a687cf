-- ===== src/Message.antt =====
-- src/domain/message.c and include/bitchat/domain/message.h: the message, and how it is made.
-- A payload pointer with its length is a list, `[]` for NULL: the code never keeps a pointer to no
-- bytes.
pub mod Wire
pub mod Serialize
pub mod Deserialize
pub mod Format
pub mod RoundTrip
pub mod Bounds
pub mod Canonical
pub mod Typed
pub mod Truncated
use bit_chat.Prelude.{
  ℕ, zero, suc, ◌+◌, ◌*◌, ◌^◌, ◌<◌, ◌≡◌, Bool, true, false, ◌&&◌, List, [], Option, none, some, ltb,
  if◌then◌else◌, length, take, replicate, AreBytes, IsByte,
}
use bit_chat.Status.{Env, message_struct, bytes}

abbrev pub pubkey_size : ℕ
pubkey_size = 32

abbrev pub uuid_size : ℕ
uuid_size = 16

abbrev pub default_ttl : ℕ
default_ttl = 10

-- `BC_MESSAGE_HEADER_SIZE`
abbrev pub header_size : ℕ
header_size = uuid_size + 1 + pubkey_size * 2 + 8 + 4

-- `bc_message_t`. The fixed arrays are lists; `IsMessage` gives their sizes.
pub record Message : Type 0 where
  pub uuid : List ℕ
  pub ttl : ℕ
  pub sender_pubkey : List ℕ
  pub receiver_pubkey : List ℕ
  pub timestamp : ℕ
  pub payload : List ℕ

-- What the C types of the fields guarantee, and that header and payload fit a 32-bit length.
pub record IsMessage (m : Message) : Type 0 where
  pub uuid_sized : length m.uuid ≡ uuid_size
  pub ttl_byte : IsByte m.ttl
  pub sender_sized : length m.sender_pubkey ≡ pubkey_size
  pub receiver_sized : length m.receiver_pubkey ≡ pubkey_size
  pub timestamp_word : m.timestamp < 2 ^ 64
  pub payload_sized : header_size + length m.payload < 2 ^ 32

-- The header of a new message, before the payload is copied.
fresh : Env → List ℕ → List ℕ → Message
fresh env sender receiver = record {
  uuid = env.random uuid_size;
  ttl = default_ttl;
  sender_pubkey = take pubkey_size sender;
  receiver_pubkey = take pubkey_size receiver;
  timestamp = env.now;
  payload = [];
}

-- `if (payload && payload_len > 0) { … }`, for `bc_message_create`.
copy_payload : Env → Option (List ℕ) → Message → Option Message
copy_payload env none m = some m
copy_payload env (some payload) m =
    if ltb 0 (length payload)
    then (if env.alloc (bytes (length payload))
        then some (record m { payload = payload })
        else none)
    else some m

-- `bc_message_create`. A pointer that may be NULL is an option.
unfoldable pub create : Env → Option (List ℕ) → Option (List ℕ) → Option (List ℕ) → Option Message
unfolding fresh copy_payload
create env none receiver payload = none
create env (some sender) none payload = none
create env (some sender) (some receiver) payload =
    if env.alloc message_struct then copy_payload env payload (fresh env sender receiver) else none

-- `bc_message_destroy`: the message as it is in memory when it is freed, with the payload's bytes.
unfoldable pub destroy : Option Message → Option Message
destroy none = none
destroy (some m) = some record {
  uuid = replicate uuid_size 0;
  ttl = 0;
  sender_pubkey = replicate pubkey_size 0;
  receiver_pubkey = replicate pubkey_size 0;
  timestamp = 0;
  payload = replicate (length m.payload) 0;
}
