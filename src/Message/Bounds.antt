-- ===== src/Message/Bounds.antt =====
-- When `bc_message_deserialize` reads inside its packet, what it accepts, and when it does not: the
-- sum in its second guard is a 32-bit one.
use bit_chat.Prelude.{
  ℕ, zero, suc, ◌+◌, ◌-◌, ◌^◌, ◌≤◌, ◌<◌, ◌≡◌, refl, List, [], arith, ltb, ltb-ge, ◌∙◌, length, drop,
  take, get_or, some, Bool-cases, tests, inl, inr, length-drop, ◌≢◌,
}
use bit_chat.Status.{Env, message_struct, bytes, IsAmple}
use bit_chat.Message.{Message, header_size, uuid_size, pubkey_size}
use bit_chat.Message.Wire.{read_u32_be, read_u64_be}
use bit_chat.Message.Deserialize.{
  fault, parsed, read_bytes, fill_payload, read_payload, read_body, read_packet, deserialize,
  Parsed, reading,
}

-- The pointer to the length field, and the length that it holds.
abbrev pub length_field : List ℕ → List ℕ
length_field packet = drop 8 (drop pubkey_size (drop pubkey_size (drop 1 (drop uuid_size packet))))

abbrev pub claimed_length : List ℕ → ℕ
claimed_length packet = read_u32_be (length_field packet)

-- The header's fields, as the code reads them.
abbrev pub bare : List ℕ → Message
bare packet = record {
  uuid = take uuid_size packet;
  ttl = get_or (drop uuid_size packet) 0 0;
  sender_pubkey = take pubkey_size (drop 1 (drop uuid_size packet));
  receiver_pubkey = take pubkey_size (drop pubkey_size (drop 1 (drop uuid_size packet)));
  timestamp = read_u64_be (drop pubkey_size (drop pubkey_size (drop 1 (drop uuid_size packet))));
  payload = [];
}

pub length-length_field :
    (packet : List ℕ) → length (drop 4 (length_field packet)) ≡ length packet - header_size
length-length_field packet = simp length-drop (omega arith)

reading-inside : (n : ℕ) (p : List ℕ) (rest : Parsed) → n ≤ length p → reading n p rest ≡ rest
reading-inside n p rest h = rw (ltb-ge (length p) n h) refl

-- Where the packet has a full header, no read of it is a fault.
pub read_packet-full :
    (env : Env) (packet : List ℕ)
    → header_size ≤ length packet
    → read_packet env packet
      ≡ read_body env
          (bare packet)
          (claimed_length packet)
          (drop 4 (length_field packet))
          (length packet)
unfolding read_packet
read_packet-full env packet h =
    let p₁ : List ℕ = drop uuid_size packet in
    let p₂ : List ℕ = drop 1 p₁ in
    let p₃ : List ℕ = drop pubkey_size p₂ in
    let p₄ : List ℕ = drop pubkey_size p₃ in
    let p₅ : List ℕ = drop 8 p₄ in
    reading-inside uuid_size packet _ (omega (arith, h))
    ∙ reading-inside 1 p₁ _ (simp length-drop (omega (arith, h)))
    ∙ reading-inside pubkey_size p₂ _ (simp length-drop (omega (arith, h)))
    ∙ reading-inside pubkey_size p₃ _ (simp length-drop (omega (arith, h)))
    ∙ reading-inside 8 p₄ _ (simp length-drop (omega (arith, h)))
    ∙ reading-inside 4 p₅ _ (simp length-drop (omega (arith, h)))

read_payload-ne-fault :
    (env : Env) (m : Message) (n : ℕ) (p : List ℕ) → n ≤ length p → read_payload env m n p ≢ fault
unfolding read_payload fill_payload read_bytes
read_payload-ne-fault env m n p h = ground arith

read_payload-parsed :
    (env : Env) (m m' : Message) (n : ℕ) (p : List ℕ)
    → m.payload ≡ []
    → read_payload env m n p ≡ parsed m'
    → (n ≤ length p) × (m' ≡ record m { payload = take n p })
unfolding read_payload fill_payload read_bytes
read_payload-parsed env m m' zero p e h = ground arith
read_payload-parsed env m m' (suc n) p e h = ground arith

module _ (env : Env) (m : Message) (n : ℕ) (p : List ℕ) (len : ℕ) where
  read_body-ne-fault :
      header_size + length p ≡ len → header_size + n < 2 ^ 32 → read_body env m n p len ≢ fault
  unfolding read_body
  read_body-ne-fault e h = ground (arith, read_payload-ne-fault env m n p)

  read_body-parsed :
      (m' : Message)
      → m.payload ≡ []
      → read_body env m n p len ≡ parsed m'
      → (n ≤ length p) × (m' ≡ record m { payload = take n p })
  unfolding read_body
  read_body-parsed m' e h = ground (arith, read_payload-parsed env m m' n p)

-- Where the 32-bit sum of header and claimed length does not wrap, the code reads no byte behind the
-- packet, neither for the header nor for the payload, whatever the packet and the allocator.
pub deserialize-ne-fault :
    (env : Env) (packet : List ℕ)
    → header_size + claimed_length packet < 2 ^ 32
    → deserialize env (some packet) ≢ fault
unfolding deserialize
deserialize-ne-fault env packet h = elim (Bool-cases (ltb (length packet) header_size)) [
  | inl short ↦ rw short (λ e. cc)
  | inr full ↦
      rw (full, read_packet-full env packet (omega (tests, full)))
        (read_body-ne-fault env (bare packet) (claimed_length packet) (drop 4 (length_field packet))
          (length packet) (omega (tests, length-length_field packet, full)) h)
]

-- Where it does wrap, a packet of a full header that passes the wrapped guard and is shorter than
-- 4 GiB makes the code read behind its end, if memory is not exhausted.
pub deserialize-overread :
    (env : Env) (packet : List ℕ)
    → IsAmple env
    → header_size ≤ length packet
    → claimed_length packet < 2 ^ 32
    → 2 ^ 32 ≤ header_size + claimed_length packet
    → header_size + claimed_length packet ≤ length packet + 2 ^ 32
    → length packet < 2 ^ 32
    → deserialize env (some packet) ≡ fault
unfolding deserialize read_body read_payload fill_payload read_bytes
deserialize-overread env packet a h₁ h₂ h₃ h₄ h₅ = ground (
  read_packet-full env packet h₁,
  arith,
  length-length_field packet,
  a.granted message_struct,
  a.granted (bytes (claimed_length packet)),
)

-- What the code has read, where it returns a message.
pub record IsRead (packet : List ℕ) (m : Message) : Type 0 where
  pub full : header_size ≤ length packet
  pub fits : claimed_length packet ≤ length (drop 4 (length_field packet))
  pub fields : m ≡ record (bare packet) {
    payload = take (claimed_length packet) (drop 4 (length_field packet));
  }

pub deserialize-IsRead :
    (env : Env) (packet : List ℕ) {m : Message}
    → deserialize env (some packet) ≡ parsed m
    → IsRead packet m
unfolding deserialize
deserialize-IsRead env packet {m} h = elim (Bool-cases (ltb (length packet) header_size)) [
  | inl short ↦ cc (rw short at h)
  | inr full ↦
      let (fits, fields) =
        read_body-parsed env (bare packet) (claimed_length packet) (drop 4 (length_field packet))
          (length packet) m refl
          (rw (full, read_packet-full env packet (omega (tests, full))) at h) in
      record { full = ground arith; fits = fits; fields = fields }
]
