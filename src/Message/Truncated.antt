-- ===== src/Message/Truncated.antt =====
-- `bc_message_deserialize` on a packet that was cut.
use bit_chat.Prelude.{
  ℕ, zero, suc, ◌+◌, ◌%◌, ◌^◌, ◌≤◌, ◌<◌, ◌≡◌, refl, sym, ap, ◌∙◌, List, [], ◌∷◌, ◌++◌, true, arith,
  take, drop, length, some, length-take, ltb, Bool-cases, inl, inr, take-append-drop, length-drop,
  append-nil, tests,
}
use bit_chat.Status.{Env}
use bit_chat.Message.{Message, IsMessage, header_size, uuid_size, pubkey_size}
use bit_chat.Message.Wire.{read_u32_be}
use bit_chat.Message.Deserialize.{null, deserialize, read_body}
use bit_chat.Message.Format.{encode, length-encode}
use bit_chat.Message.RoundTrip.{deserialize-encode}
use bit_chat.Message.Bounds.{claimed_length, length_field, read_packet-full, deserialize-IsRead}

drop-append_le :
    {A : Type 0} (n : ℕ) (xs ys : List A) → n ≤ length xs → drop n (xs ++ ys) ≡ drop n xs ++ ys
drop-append_le zero xs ys h = refl
drop-append_le (suc n) [] ys h = absurd (omega arith)
drop-append_le (suc n) (x ∷ xs) ys h = drop-append_le n xs ys (omega arith)

read_u32_be-append : (p rest : List ℕ) → 4 ≤ length p → read_u32_be (p ++ rest) ≡ read_u32_be p
unfolding read_u32_be
read_u32_be-append [] rest h = absurd (omega arith)
read_u32_be-append (a ∷ []) rest h = absurd (omega arith)
read_u32_be-append (a ∷ b ∷ []) rest h = absurd (omega arith)
read_u32_be-append (a ∷ b ∷ c ∷ []) rest h = absurd (omega arith)
read_u32_be-append (a ∷ b ∷ c ∷ d ∷ p) rest h = refl

-- What follows the header is not read for the length.
claimed_length-append :
    (packet rest : List ℕ)
    → header_size ≤ length packet
    → claimed_length (packet ++ rest) ≡ claimed_length packet
claimed_length-append packet rest h =
    let p₁ : List ℕ = drop uuid_size packet in
    let p₂ : List ℕ = drop 1 p₁ in
    let p₃ : List ℕ = drop pubkey_size p₂ in
    let p₄ : List ℕ = drop pubkey_size p₃ in
    let p₅ : List ℕ = drop 8 p₄ in
    rw
      (
        drop-append_le uuid_size packet rest (omega arith),
        drop-append_le 1 p₁ rest (simp length-drop (omega arith)),
        drop-append_le pubkey_size p₂ rest (simp length-drop (omega arith)),
        drop-append_le pubkey_size p₃ rest (simp length-drop (omega arith)),
        drop-append_le 8 p₄ rest (simp length-drop (omega arith)),
      )
      (read_u32_be-append p₅ rest (simp length-drop (omega arith)))

abbrev ample : Env
ample = record { now = 0; alloc = λ r. true; random = λ n. [] }

claimed_length-encode : (m : Message) → IsMessage m → claimed_length (encode m) ≡ length m.payload
claimed_length-encode m v =
    let read_back = deserialize-encode ample m [] v (record { granted = λ r. refl }) in
    let r = deserialize-IsRead ample (encode m) (rw append-nil at read_back) in
    let read = length-take (claimed_length (encode m)) (drop 4 (length_field (encode m))) in
    let whole : length m.payload
        ≡ length (take (claimed_length (encode m)) (drop 4 (length_field (encode m)))) =
      ap (λ k. length k.payload) r.fields in
    omega (arith, read, whole, r.fits)

-- The length field is in what is left of a message, if its header is.
claimed_length-take :
    (m : Message) (n : ℕ)
    → IsMessage m
    → header_size ≤ n
    → n < length (encode m)
    → claimed_length (take n (encode m)) ≡ length m.payload
claimed_length-take m n v h l =
    let full : header_size ≤ length (take n (encode m)) = omega (arith, length-take n (encode m)) in
    sym (claimed_length-append (take n (encode m)) (drop n (encode m)) full)
    ∙ ap (λ p. claimed_length p) (take-append-drop n (encode m))
    ∙ claimed_length-encode m v

-- A packet from which bytes are missing at the end is not read, whatever the allocator.
pub deserialize-take :
    (env : Env) (m : Message) (n : ℕ)
    → IsMessage m
    → n < length (encode m)
    → deserialize env (some (take n (encode m))) ≡ null
unfolding deserialize read_body
deserialize-take env m n v l =
    let cut : length (take n (encode m)) ≡ n = omega (arith, length-take n (encode m)) in
    elim (Bool-cases (ltb n header_size)) [
      | inl short ↦ rw (cut, short) refl
      | inr full ↦
          let size = length-encode v in
          let claimed = claimed_length-take m n v (ground arith) l in
          let missing : ltb n ((header_size + length m.payload) % 2 ^ 32) ≡ true =
            ground (arith, size, v.payload_sized) in
          rw
            (
              cut,
              full,
              read_packet-full env (take n (encode m)) (omega (arith, cut, tests, full)),
              claimed,
              cut,
              missing,
            )
            refl
    ]
