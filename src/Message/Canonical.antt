-- ===== src/Message/Canonical.antt =====
-- What `bc_message_deserialize` accepts is in the wire format: serializing the result gives the front
-- of the packet back.
use bit_chat.Prelude.{
  ℕ, ◌+◌, ◌^◌, ◌≤◌, ◌<◌, ◌≡◌, refl, ap, sym, ◌∙◌, List, [], ◌∷◌, ◌++◌, arith, length, drop, take,
  get_or, some, AreBytes, All-drop, length-drop, length-take, take-append-drop,
  take-append_of_length, IsByte,
}
use bit_chat.Status.{Env}
use bit_chat.Message.{Message, IsMessage, header_size, uuid_size, pubkey_size}
use bit_chat.Message.Wire.{write_u32_be, write_u32_be-read_u32_be, write_u64_be-read_u64_be}
use bit_chat.Message.Deserialize.{parsed, deserialize}
use bit_chat.Message.Format.{encode, length-encode}
use bit_chat.Message.RoundTrip.{encode-append}
use bit_chat.Message.Bounds.{
  claimed_length, length_field, IsRead, length-length_field, deserialize-IsRead,
}

-- A byte read through the pointer is the first of those from there on.
get_or-drop :
    (p : List ℕ) → 1 ≤ length p → AreBytes p → (get_or p 0 0 ∷ drop 1 p ≡ p) × (get_or p 0 0 < 256)
get_or-drop [] l h = absurd (omega arith)
get_or-drop (x ∷ xs) l h = (refl, h.0)

module _ {packet : List ℕ} {m : Message} (r : IsRead packet m) (h : AreBytes packet) where
  payload_length : length m.payload ≡ claimed_length packet
  payload_length =
      rw r.fields
        (omega (arith, length-take (claimed_length packet) (drop 4 (length_field packet)), r.fits))

  -- The bytes that the code steps over, joined again.
  IsRead-encode : encode m ++ drop (length m.payload) (drop 4 (length_field packet)) ≡ packet
  IsRead-encode =
      let p₁ : List ℕ = drop uuid_size packet in
      let p₂ : List ℕ = drop 1 p₁ in
      let p₃ : List ℕ = drop pubkey_size p₂ in
      let p₄ : List ℕ = drop pubkey_size p₃ in
      let p₅ : List ℕ = drop 8 p₄ in
      let h₁ = All-drop IsByte uuid_size packet h in
      let h₂ = All-drop IsByte 1 p₁ h₁ in
      let h₃ = All-drop IsByte pubkey_size p₂ h₂ in
      let h₄ = All-drop IsByte pubkey_size p₃ h₃ in
      let h₅ = All-drop IsByte 8 p₄ h₄ in
      rw (payload_length, r.fields, encode-append)
        (rw
          (
            ap (λ t. write_u32_be t) (rw r.fields at payload_length),
            (write_u32_be-read_u32_be p₅ (simp length-drop (omega (arith, r.full))) h₅).0,
            (write_u64_be-read_u64_be p₄ (simp length-drop (omega (arith, r.full))) h₄).0,
            take-append-drop,
            take-append-drop 4 p₅,
            take-append-drop 8 p₄,
            take-append-drop pubkey_size p₃,
            take-append-drop pubkey_size p₂,
            (get_or-drop p₁ (simp length-drop (omega (arith, r.full))) h₁).0,
          )
          (take-append-drop uuid_size packet))

  -- The fields have the sizes of their C types.
  IsRead-IsMessage : length packet < 2 ^ 32 → IsMessage m
  IsRead-IsMessage short =
      let p₁ : List ℕ = drop uuid_size packet in
      let p₂ : List ℕ = drop 1 p₁ in
      let p₃ : List ℕ = drop pubkey_size p₂ in
      let p₄ : List ℕ = drop pubkey_size p₃ in
      let h₁ = All-drop IsByte uuid_size packet h in
      let h₂ = All-drop IsByte 1 p₁ h₁ in
      let h₃ = All-drop IsByte pubkey_size p₂ h₂ in
      let h₄ = All-drop IsByte pubkey_size p₃ h₃ in
      record {
        uuid_sized = rw r.fields (simp length-take (omega (arith, r.full)));
        ttl_byte = rw r.fields (get_or-drop p₁ (simp length-drop (omega (arith, r.full))) h₁).1;
        sender_sized = rw r.fields (simp (length-take, length-drop) (omega (arith, r.full)));
        receiver_sized = rw r.fields (simp (length-take, length-drop) (omega (arith, r.full)));
        timestamp_word =
            rw r.fields
              (write_u64_be-read_u64_be p₄ (simp length-drop (omega (arith, r.full))) h₄).1;
        payload_sized = omega (arith, payload_length, r.fits, length-length_field packet, r.full);
      }

-- A packet of fewer than 4 GiB that the code accepts begins with the message that it returns, in the
-- wire format, and the fields of that message are in the ranges of their C types.
pub encode-deserialize :
    (env : Env) (packet : List ℕ) {m : Message}
    → AreBytes packet
    → length packet < 2 ^ 32
    → deserialize env (some packet) ≡ parsed m
    → IsMessage m × (take (header_size + length m.payload) packet ≡ encode m)
encode-deserialize env packet {m} h short e =
    let r = deserialize-IsRead env packet e in
    let v = IsRead-IsMessage r h short in
    (
      v,
      ap (take (header_size + length m.payload)) (sym (IsRead-encode r h))
          ∙ take-append_of_length (header_size + length m.payload) (encode m) _ (length-encode v),
    )
