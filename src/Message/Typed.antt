-- ===== src/Message/Typed.antt =====
-- `bc_message_create` of src/domain/message.c: what it makes, and that this is what is read at the other
-- end.
use bit_chat.Prelude.{
  ℕ, ◌+◌, ◌^◌, ◌≤◌, ◌<◌, ◌≡◌, List, [], ◌∷◌, refl, ◌∙◌, take, ltb-zero-suc, arith, some, length,
  length-take,
}
use bit_chat.Status.{Env, IsAmple, ok, message_struct, bytes}
use bit_chat.Message.Serialize.{serialize_into}
use bit_chat.Message.Deserialize.{parsed, deserialize}
use bit_chat.Message.RoundTrip.{deserialize-serialize}
use bit_chat.Message.{Message, IsMessage, create, pubkey_size, uuid_size, default_ttl, header_size}

-- `time(NULL)` gives 64 bits, and `randombytes_buf` as many bytes as it is asked for.
pub record IsTyped (env : Env) : Type 0 where
  pub clock : env.now < 2 ^ 64
  pub random_sized : (n : ℕ) → length (env.random n) ≡ n

-- What `bc_message_create` makes of two pointers to at least 32 bytes and a payload whose packet is
-- below 4 GiB has its fields in the ranges of their C types, where the clock has 64 bits and random bytes
-- come in the number asked for.
pub create-IsMessage :
    (env : Env) (sender receiver payload : List ℕ) (m : Message)
    → IsTyped env
    → pubkey_size ≤ length sender
    → pubkey_size ≤ length receiver
    → header_size + length payload < 2 ^ 32
    → create env (some sender) (some receiver) (some payload) ≡ some m
    → IsMessage m
unfolding create
create-IsMessage env sender receiver payload m t hs hr small e = ground (
  arith,
  t.clock,
  t.random_sized 16,
  length-take pubkey_size sender,
  length-take pubkey_size receiver,
)

-- The message that `bc_message_create` makes, with memory.
abbrev pub made : Env → List ℕ → List ℕ → List ℕ → Message
made env sender receiver payload = record {
  uuid = env.random uuid_size;
  ttl = default_ttl;
  sender_pubkey = take pubkey_size sender;
  receiver_pubkey = take pubkey_size receiver;
  timestamp = env.now;
  payload = payload;
}

create-made :
    (env : Env) (sender receiver payload : List ℕ)
    → IsAmple env
    → create env (some sender) (some receiver) (some payload)
      ≡ some (made env sender receiver payload)
unfolding create
create-made env sender receiver [] a = rw (a.granted message_struct) refl
create-made env sender receiver (x ∷ xs) a =
    rw (a.granted message_struct, ltb-zero-suc, a.granted (bytes (length (x ∷ xs)))) refl

-- A message that `bc_message_create` makes of two pointers to at least 32 bytes and a payload, and
-- that `bc_message_serialize` writes to a buffer that has room, is read by `bc_message_deserialize` with
-- the two keys, the payload, the clock's time, the default TTL and the random bytes as UUID: with
-- memory, a packet below 4 GiB, a clock of 64 bits, and random bytes in the number asked for.
pub deserialize-create :
    (env env' : Env) (sender receiver payload buf : List ℕ)
    → IsTyped env
    → IsAmple env
    → IsAmple env'
    → pubkey_size ≤ length sender
    → pubkey_size ≤ length receiver
    → header_size + length payload < 2 ^ 32
    → header_size + length payload ≤ length buf
    → (m : Message) × (create env (some sender) (some receiver) (some payload) ≡ some m)
      × (let (rc, buf', out_len) = serialize_into m buf in
          (rc ≡ ok)
          × (out_len ≡ header_size + length payload)
          × (deserialize env' (some buf')
              ≡ parsed record {
                uuid = env.random uuid_size;
                ttl = default_ttl;
                sender_pubkey = take pubkey_size sender;
                receiver_pubkey = take pubkey_size receiver;
                timestamp = env.now;
                payload = payload;
              }))
deserialize-create env env' sender receiver payload buf t a a' hs hr small room =
    let m = made env sender receiver payload in
    let done = create-made env sender receiver payload a in
    let v = create-IsMessage env sender receiver payload m t hs hr small done in
    let (good, size, back) = deserialize-serialize env' m buf v a' (omega (arith, small, room)) in
    (m, done, (good, size ∙ omega (arith, small), back))

-- The other fields of a message that was made.
pub create-fields :
    (env : Env) (sender receiver payload : List ℕ) (m : Message)
    → create env (some sender) (some receiver) (some payload) ≡ some m
    → (m.uuid ≡ env.random uuid_size) × (m.ttl ≡ default_ttl)
unfolding create
create-fields env sender receiver payload m e = ground arith
