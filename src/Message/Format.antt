-- ===== src/Message/Format.antt =====
-- The wire format of include/bitchat/domain/message.h as a description of its own, and that
-- `bc_message_serialize` writes it: uuid, ttl, sender, receiver, timestamp, payload length, payload.
use bit_chat.Prelude.{
  ℕ, zero, suc, refl, ◌/◌, ◌+◌, ◌%◌, ◌^◌, ◌<◌, ◌≡◌, List, [], ◌∷◌, ◌++◌, append-nil, append_assoc,
  arith, ltb, if◌then◌else◌, ltb-ge, ltb-zero-suc, drop-length, length, length-append, drop,
  drop-drop,
}
use bit_chat.Status.{ok, err_buffer_too_small}
use bit_chat.Message.{Message, IsMessage, header_size}
use bit_chat.Message.Wire.{write_u32_be, write_u64_be, length-write_u32_be, length-write_u64_be}
use bit_chat.Message.Serialize.{Cursor, put, write_message, needed_size, serialize_into}

-- The `n` lowest bytes of a number, the highest of them first.
unfoldable pub big_endian : ℕ → ℕ → List ℕ
big_endian zero v = []
big_endian (suc n) v = (v / 256 ^ n % 256) ∷ big_endian n v

pub big_endian-write_u32_be : (v : ℕ) → big_endian 4 v ≡ write_u32_be v
unfolding big_endian write_u32_be
big_endian-write_u32_be v = let e : v / 1 % 256 ≡ v % 256 = omega arith in rw e refl

pub big_endian-write_u64_be : (v : ℕ) → big_endian 8 v ≡ write_u64_be v
unfolding big_endian write_u64_be
big_endian-write_u64_be v = let e : v / 1 % 256 ≡ v % 256 = omega arith in rw e refl

-- The bytes of a message on the wire.
unfoldable pub encode : Message → List ℕ
encode m =
    m.uuid
    ++ ((m.ttl ∷ [])
        ++ (m.sender_pubkey
            ++ (m.receiver_pubkey
                ++ (big_endian 8 m.timestamp ++ (big_endian 4 (length m.payload) ++ m.payload)))))

pub length-encode : {m : Message} → IsMessage m → length (encode m) ≡ header_size + length m.payload
unfolding encode
length-encode {m} v =
    rw (big_endian-write_u64_be, big_endian-write_u32_be)
      (simp (length-append, length-write_u32_be, length-write_u64_be) (omega arith))

-- The cursor over `buf` at the end of the bytes `done`.
at : List ℕ → List ℕ → Cursor
at done buf = record { before = done; after = drop (length done) buf }

put-at : (src done buf : List ℕ) → put src (at done buf) ≡ at (done ++ src) buf
unfolding put at
put-at src done buf = rw (
    drop-drop (length done) (length src) (length (done ++ src)) buf
      (omega (arith, length-append done src)))

-- A store of no bytes moves nothing.
put-at_payload :
    (payload done buf : List ℕ)
    → (if ltb 0 (length payload) then put payload (at done buf) else at done buf)
      ≡ at (done ++ payload) buf
put-at_payload [] done buf = rw append-nil
put-at_payload (x ∷ xs) done buf = rw ltb-zero-suc (put-at (x ∷ xs) done buf)

-- The stores of `bc_message_serialize`, in order, are the format.
write_message_lem :
    (m : Message) (buf : List ℕ)
    → length m.payload < 2 ^ 32
    → write_message m (at [] buf) ≡ at (encode m) buf
unfolding write_message encode
write_message_lem m buf h =
    let e : length m.payload % 2 ^ 32 ≡ length m.payload = omega arith in
    rw
      (
        big_endian-write_u64_be, big_endian-write_u32_be, e, put-at, put-at, put-at, put-at, put-at,
        put-at, put-at_payload,
      )
      (simp append_assoc)

-- In a buffer that is large enough the code writes the message's bytes in the wire format at the
-- front, leaves the rest, and returns their number; in a smaller one it writes nothing, and returns
-- the size that it needs.
pub serialize_into_lem :
    (m : Message) (buf : List ℕ)
    → IsMessage m
    → serialize_into m buf ≡ (
        if ltb (length buf) (header_size + length m.payload)
        then (err_buffer_too_small, buf, header_size + length m.payload)
        else (
          ok,
          encode m ++ drop (header_size + length m.payload) buf,
          header_size + length m.payload,
        ))
unfolding serialize_into at
serialize_into_lem m buf v =
    let e : needed_size m ≡ header_size + length m.payload = omega arith in
    rw (e, write_message_lem m buf (omega arith), length-encode v)

-- Serializing into a buffer of exactly the size that the code allocates gives the wire format.
pub serialize_into_exact :
    (m : Message) (buf : List ℕ)
    → IsMessage m
    → length buf ≡ needed_size m
    → serialize_into m buf ≡ (ok, encode m, header_size + length m.payload)
serialize_into_exact m buf v h =
    let e : length buf ≡ header_size + length m.payload = omega arith in
    rw (
      serialize_into_lem m buf v,
      ltb-ge (length buf) (header_size + length m.payload) (omega arith),
      drop-length buf _ e,
      append-nil,
    )
