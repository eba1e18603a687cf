-- ===== src/Tests/Messages.antt =====
-- src/domain/message.c at concrete messages and packets.
use bit_chat.Prelude.{ℕ, ◌≡◌, ◌≢◌, refl, List, [], ◌∷◌, ◌++◌, arith, take, replicate, some, drop}
use bit_chat.Status.{ok}
use bit_chat.Message.{IsMessage}
use bit_chat.Message.Serialize.{serialize_into, put}
use bit_chat.Message.Deserialize.{
  parsed, fault, deserialize, read_bytes, read_payload, read_body, read_packet, fill_payload,
}
use bit_chat.Message.Wire.{write_u32_be, write_u64_be, read_u32_be, read_u64_be}
use bit_chat.Message.Format.{encode, serialize_into_lem}
use bit_chat.Message.RoundTrip.{deserialize-serialize}
use bit_chat.Message.Bounds.{deserialize-ne-fault, deserialize-overread}
use bit_chat.Message.Canonical.{encode-deserialize}
use bit_chat.Tests.Data.{sample_env, sample_env-IsAmple, hello, hello-IsMessage}

abbrev hello_packet : List ℕ
hello_packet = (serialize_into hello (replicate 100 0)).1

hello_packet_runs : deserialize sample_env (some hello_packet) ≡ parsed hello
unfolding serialize_into put write_u32_be write_u64_be deserialize read_packet read_body
    read_payload fill_payload read_bytes read_u32_be read_u64_be
hello_packet_runs = refl

serialize_into_lem_example :
    serialize_into hello (replicate 100 0) ≡ (ok, encode hello ++ drop 95 (replicate 100 0), 95)
serialize_into_lem_example = serialize_into_lem hello (replicate 100 0) hello-IsMessage

deserialize-serialize_example :
    let (rc, buf, out_len) = serialize_into hello (replicate 100 0) in
    (rc ≡ ok) × (out_len ≡ 95) × (deserialize sample_env (some buf) ≡ parsed hello)
deserialize-serialize_example =
    deserialize-serialize sample_env hello (replicate 100 0) hello-IsMessage sample_env-IsAmple
      (omega arith)

-- A header whose length field holds 2 ^ 32 - 93, and no payload.
abbrev evil_packet : List ℕ
evil_packet = replicate 89 0 ++ (255 ∷ 255 ∷ 255 ∷ 163 ∷ [])

deserialize-ne-fault_example : deserialize sample_env (some (replicate 93 0)) ≢ fault
deserialize-ne-fault_example =
    deserialize-ne-fault sample_env (replicate 93 0) (unfold read_u32_be in omega arith)

deserialize-overread_example : deserialize sample_env (some evil_packet) ≡ fault
deserialize-overread_example =
    deserialize-overread sample_env evil_packet sample_env-IsAmple (omega arith)
      (unfold read_u32_be in omega arith) (unfold read_u32_be in omega arith)
      (unfold read_u32_be in omega arith) (omega arith)

encode-deserialize_example : IsMessage hello × (take 95 hello_packet ≡ encode hello)
encode-deserialize_example =
    encode-deserialize sample_env hello_packet
      (unfold serialize_into put write_u32_be write_u64_be in omega arith)
      (unfold serialize_into put write_u32_be write_u64_be in omega arith) hello_packet_runs
