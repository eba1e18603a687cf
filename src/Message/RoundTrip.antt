-- ===== src/Message/RoundTrip.antt =====
-- `bc_message_deserialize` reads back what `bc_message_serialize` wrote.
use bit_chat.Prelude.{
  ℕ, ◌+◌, ◌≤◌, ◌≡◌, refl, List, [], ◌∷◌, ◌++◌, append_assoc, arith, ltb-ge, ltb-zero-suc, length,
  length-append, some, take-append_of_length, drop-append_of_length,
}
use bit_chat.Status.{Env, IsAmple, ok}
use bit_chat.Message.{Message, IsMessage, header_size, uuid_size, pubkey_size}
use bit_chat.Message.Wire.{
  write_u32_be, write_u64_be, length-write_u32_be, length-write_u64_be, read_u32_be-write_u32_be,
  read_u64_be-write_u64_be,
}
use bit_chat.Message.Serialize.{needed_size, serialize_into}
use bit_chat.Message.Deserialize.{
  parsed, read_bytes, packet_size, fill_payload, read_payload, read_body, read_packet, deserialize,
}
use bit_chat.Message.Format.{
  encode, length-encode, serialize_into_lem, big_endian-write_u32_be, big_endian-write_u64_be,
}
use bit_chat.Message.Bounds.{read_packet-full}

-- The payload is read back from the bytes behind the header.
read_payload-append :
    (env : Env) (m : Message) (payload rest : List ℕ)
    → IsAmple env
    → read_payload env (record m { payload = [] }) (length payload) (payload ++ rest)
      ≡ parsed (record m { payload = payload })
unfolding read_payload fill_payload read_bytes
read_payload-append env m [] rest a = refl
read_payload-append env m (x ∷ xs) rest a = rw (
  ltb-zero-suc,
  a.granted,
  ltb-ge (length ((x ∷ xs) ++ rest)) (length (x ∷ xs)) (omega (arith, length-append (x ∷ xs) rest)),
  take-append_of_length (length (x ∷ xs)) (x ∷ xs) rest refl,
)

-- The wire format with bytes behind it, from the first field on.
pub encode-append :
    (m : Message) (rest : List ℕ)
    → encode m ++ rest
      ≡ m.uuid
        ++ (m.ttl
            ∷ (m.sender_pubkey
                ++ (m.receiver_pubkey
                    ++ (write_u64_be m.timestamp
                        ++ (write_u32_be (length m.payload) ++ (m.payload ++ rest))))))
unfolding encode
encode-append m rest = rw (big_endian-write_u64_be, big_endian-write_u32_be) (simp append_assoc)

-- The fields, read at their offsets.
read_packet-encode :
    (env : Env) (m : Message) (rest : List ℕ)
    → IsMessage m
    → IsAmple env
    → read_packet env (encode m ++ rest) ≡ parsed m
unfolding read_body
read_packet-encode env m rest v a =
    let e₆ : List ℕ = m.payload ++ rest in
    let e₅ : List ℕ = write_u32_be (length m.payload) ++ e₆ in
    let e₄ : List ℕ = write_u64_be m.timestamp ++ e₅ in
    let e₃ : List ℕ = m.receiver_pubkey ++ e₄ in
    let e₂ : List ℕ = m.sender_pubkey ++ e₃ in
    let e₁ : List ℕ = m.ttl ∷ e₂ in
    let long : packet_size (length m.payload) ≤ length (m.uuid ++ e₁) =
      rw (← encode-append m rest) (omega (arith, length-append (encode m) rest, length-encode v)) in
    rw
      (
        read_packet-full env (encode m ++ rest)
            (omega (arith, length-append (encode m) rest, length-encode v)),
        encode-append m rest,
        take-append_of_length uuid_size m.uuid e₁ v.uuid_sized,
        drop-append_of_length uuid_size m.uuid e₁ v.uuid_sized,
        take-append_of_length pubkey_size m.sender_pubkey e₃ v.sender_sized,
        drop-append_of_length pubkey_size m.sender_pubkey e₃ v.sender_sized,
        take-append_of_length pubkey_size m.receiver_pubkey e₄ v.receiver_sized,
        drop-append_of_length pubkey_size m.receiver_pubkey e₄ v.receiver_sized,
        drop-append_of_length 8 (write_u64_be m.timestamp) e₅ (length-write_u64_be m.timestamp),
        drop-append_of_length 4 (write_u32_be (length m.payload)) e₆
            (length-write_u32_be (length m.payload)),
        read_u64_be-write_u64_be m.timestamp e₅ v.timestamp_word,
        read_u32_be-write_u32_be (length m.payload) e₆ (omega arith),
        a.granted,
        ltb-ge (length (m.uuid ++ e₁)) (packet_size (length m.payload)) long,
      )
      (read_payload-append env m m.payload rest a)

-- A packet that holds a message in the wire format, with any bytes behind it, is read as that
-- message, if memory is not exhausted.
pub deserialize-encode :
    (env : Env) (m : Message) (rest : List ℕ)
    → IsMessage m
    → IsAmple env
    → deserialize env (some (encode m ++ rest)) ≡ parsed m
unfolding deserialize
deserialize-encode env m rest v a =
    rw
      (ltb-ge (length (encode m ++ rest)) header_size
        (omega (arith, length-append (encode m) rest, length-encode v)))
      (read_packet-encode env m rest v a)

-- A message that `bc_message_serialize` wrote to a buffer that is large enough is read back from that
-- buffer, field by field, whatever the buffer held before, if memory is not exhausted.
pub deserialize-serialize :
    (env : Env) (m : Message) (buf : List ℕ)
    → IsMessage m
    → IsAmple env
    → needed_size m ≤ length buf
    → let (rc, buf', out_len) = serialize_into m buf in
      (rc ≡ ok) × (out_len ≡ needed_size m) × (deserialize env (some buf') ≡ parsed m)
deserialize-serialize env m buf v a h =
    rw
      (
        serialize_into_lem m buf v,
        ltb-ge (length buf) (header_size + length m.payload) (omega arith),
      )
      (refl, omega arith, deserialize-encode env m _ v a)
