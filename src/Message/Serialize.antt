-- ===== src/Message/Serialize.antt =====
-- src/domain/message.c, `bc_message_serialize`. The buffer and the moving pointer `p` are a cursor:
-- the bytes before `p`, and those from `p` on.
use bit_chat.Prelude.{
  ℕ, ◌+◌, ◌%◌, ◌^◌, List, [], ◌∷◌, ◌++◌, Option, some, ltb, if◌then◌else◌, length, drop,
}
use bit_chat.Status.{Status, ok, err_invalid, err_buffer_too_small}
use bit_chat.Message.{Message, header_size}
use bit_chat.Message.Wire.{write_u32_be, write_u64_be}

pub record Cursor : Type 0 where
  pub before : List ℕ
  pub after : List ℕ

-- `memcpy(p, src, n); p += n`, with `n` the length of `src`.
unfoldable pub put : List ℕ → Cursor → Cursor
put src c = record { before = c.before ++ src; after = drop (length src) c.after }

-- The stores of the success path, in order.
unfoldable pub write_message : Message → Cursor → Cursor
write_message m c =
    let c₁ = put m.uuid c in
    let c₂ = put (m.ttl ∷ []) c₁ in
    let c₃ = put m.sender_pubkey c₂ in
    let c₄ = put m.receiver_pubkey c₃ in
    let c₅ = put (write_u64_be m.timestamp) c₄ in
    let c₆ = put (write_u32_be (length m.payload % 2 ^ 32)) c₅ in
    if ltb 0 (length m.payload) then put m.payload c₆ else c₆

-- `BC_MESSAGE_HEADER_SIZE + msg->payload_len`, a `size_t`.
abbrev pub needed_size : Message → ℕ
needed_size m = (header_size + length m.payload) % 2 ^ 64

-- The status, the buffer and `*out_len` afterwards.
unfoldable pub serialize_into : Message → List ℕ → Status × List ℕ × ℕ
unfolding write_message put
serialize_into m buf =
    if ltb (length buf) (needed_size m)
    then (err_buffer_too_small, buf, needed_size m)
    else let c = write_message m (record { before = []; after = buf }) in
      (ok, c.before ++ c.after, length c.before)

-- `bc_message_serialize`, with its three pointers; a NULL `out_len` or `buf` stays NULL.
unfoldable pub serialize :
    Option Message → Option (List ℕ) → Option ℕ → Status × Option (List ℕ) × Option ℕ
serialize (some m) (some buf) (some out_len) =
    let (rc, buf', out_len') = serialize_into m buf in (rc, some buf', some out_len')
serialize _ buf out_len = (err_invalid, buf, out_len)
