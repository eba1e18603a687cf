-- ===== src/Message/Deserialize.antt =====
-- src/domain/message.c, `bc_message_deserialize`. A pointer into the packet is the list of the bytes
-- from there on; a read that leaves the packet is a fault.
use bit_chat.Prelude.{
  ℕ, ◌+◌, ◌%◌, ◌^◌, List, [], Option, none, some, ltb, if◌then◌else◌, length, get_or, take, drop,
}
use bit_chat.Status.{Env, message_struct, bytes}
use bit_chat.Message.{Message, header_size, uuid_size, pubkey_size}
use bit_chat.Message.Wire.{read_u32_be, read_u64_be}

-- `null` is a NULL result; `fault` is a read past the end of the packet.
pub data Parsed : Type 0 where
  null fault : Parsed
  parsed : Message → Parsed

-- `memcpy` of `n` bytes from `p`.
unfoldable pub read_bytes : ℕ → List ℕ → Option (List ℕ)
read_bytes n p = if ltb (length p) n then none else some (take n p)

-- `BC_MESSAGE_HEADER_SIZE + payload_len`: the operands are an `int` and a `uint32_t`, so that the sum
-- is a `uint32_t`.
abbrev pub packet_size : ℕ → ℕ
packet_size payload_len = (header_size + payload_len) % 2 ^ 32

-- `memcpy(msg->payload, p, payload_len)`
unfoldable pub fill_payload : Message → Option (List ℕ) → Parsed
fill_payload m none = fault
fill_payload m (some payload) = parsed (record m { payload = payload })

-- `if (payload_len > 0) { … }`
unfoldable pub read_payload : Env → Message → ℕ → List ℕ → Parsed
read_payload env m payload_len p =
    if ltb 0 payload_len
    then (if env.alloc (bytes payload_len) then fill_payload m (read_bytes payload_len p) else null)
    else parsed m

-- The second guard and the allocations, with the header's fields and the pointer behind it.
unfoldable pub read_body : Env → Message → ℕ → List ℕ → ℕ → Parsed
read_body env m payload_len p data_len =
    if ltb data_len (packet_size payload_len)
    then null
    else if env.alloc message_struct
    then read_payload env m payload_len p
    else null

-- A read of `n` bytes at `p`, and what follows it.
abbrev pub reading : ℕ → List ℕ → Parsed → Parsed
reading n p rest = if ltb (length p) n then fault else rest

-- The body after the first guard. The keys and the UUID are copied only behind the second guard, but a
-- packet that ends before one of them has ended before the length, which is read here.
unfoldable pub read_packet : Env → List ℕ → Parsed
read_packet env p₀ =
    let p₁ = drop uuid_size p₀ in
    let p₂ = drop 1 p₁ in
    let p₃ = drop pubkey_size p₂ in
    let p₄ = drop pubkey_size p₃ in
    let p₅ = drop 8 p₄ in
    let payload_len = read_u32_be p₅ in
    let p₆ = drop 4 p₅ in
    let m : Message = record {
      uuid = take uuid_size p₀;
      ttl = get_or p₁ 0 0;
      sender_pubkey = take pubkey_size p₂;
      receiver_pubkey = take pubkey_size p₃;
      timestamp = read_u64_be p₄;
      payload = [];
    } in
    reading uuid_size p₀ (
      reading 1 p₁ (
        reading pubkey_size p₂ (
          reading pubkey_size p₃
            (reading 8 p₄ (reading 4 p₅ (read_body env m payload_len p₆ (length p₀)))))))

-- `bc_message_deserialize`
unfoldable pub deserialize : Env → Option (List ℕ) → Parsed
deserialize env none = null
deserialize env (some packet) =
    if ltb (length packet) header_size then null else read_packet env packet
