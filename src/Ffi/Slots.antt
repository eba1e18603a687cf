-- ===== src/Ffi/Slots.antt =====
-- Stretches of the inbox ring of src/bridge/bitchat_ffi.c, which go around its end.
use bit_chat.Prelude.{
  ℕ, zero, suc, ◌+◌, ◌-◌, ◌%◌, ◌≤◌, ◌<◌, ◌≡◌, ◌≢◌, refl, ap, ◌∙◌, false, inl, inr, List, [], ◌∷◌,
  ◌++◌, arith, Option, none, some, length, get_or, get_or-set, set, ltb, Bool-cases, ltb-false→le,
  take-length,
}
use bit_chat.Status.{IsAmple, message_struct, bytes, Env}
use bit_chat.Message.{Message, IsMessage, pubkey_size}
use bit_chat.Message as Message
use bit_chat.Ffi.{next_index, inbox_size}

-- `n` slots of the ring, from index `i` on.
unfoldable pub read_ring : List (Option Message) → ℕ → ℕ → List (Option Message)
read_ring slots i zero = []
read_ring slots i (suc n) = get_or slots i none ∷ read_ring slots (next_index i) n

-- The number of steps from one index to another, around the ring.
abbrev pub distance : ℕ → ℕ → ℕ
distance i k = (k + inbox_size - i) % inbox_size

pub length-read_ring : (slots : List (Option Message)) (i n : ℕ) → length (read_ring slots i n) ≡ n
unfolding read_ring
length-read_ring slots i zero = refl
length-read_ring slots i (suc n) = ap suc (length-read_ring slots (next_index i) n)

get_or-set_ne :
    (slots : List (Option Message)) (k i : ℕ) (v : Option Message)
    → k < length slots
    → k ≢ i
    → get_or (set slots k v) i none ≡ get_or slots i none
get_or-set_ne slots k i v h ne = ground (arith, get_or-set slots k i v none h)

-- A write to a slot that is not among the `n` leaves them.
read_ring-set :
    (slots : List (Option Message)) (i n k : ℕ) (v : Option Message)
    → length slots ≡ inbox_size
    → i < inbox_size
    → k < inbox_size
    → n ≤ distance i k
    → read_ring (set slots k v) i n ≡ read_ring slots i n
unfolding read_ring
read_ring-set slots i zero k v sized hi hk h = refl
read_ring-set slots i (suc n) k v sized hi hk h =
    rw
      (
        get_or-set_ne slots k i v (omega (arith, sized, hk)) (λ e. omega (arith, e, hi, h)),
        read_ring-set slots (next_index i) n k v sized (omega arith) hk (omega (arith, hi, hk, h)),
      )
      refl

read_ring-snoc :
    (slots : List (Option Message)) (i n : ℕ)
    → i < inbox_size
    → read_ring slots i (suc n)
      ≡ read_ring slots i n ++ (get_or slots ((i + n) % inbox_size) none ∷ [])
unfolding read_ring
read_ring-snoc slots i zero h = let e : (i + 0) % inbox_size ≡ i = omega (arith, h) in rw e refl
read_ring-snoc slots i (suc n) h =
    let e : (next_index i + n) % inbox_size ≡ (i + suc n) % inbox_size = omega arith in
    ap (λ t. get_or slots i none ∷ t)
      (read_ring-snoc slots (next_index i) n (omega arith) ∙ rw e refl)

pub read_ring-zero : (slots : List (Option Message)) (i n : ℕ) → n ≡ 0 → read_ring slots i n ≡ []
unfolding read_ring
read_ring-zero slots i zero e = refl
read_ring-zero slots i (suc n) e = absurd (omega arith)

pub read_ring-front :
    (slots : List (Option Message)) (i n k : ℕ)
    → n ≡ suc k
    → read_ring slots i n ≡ get_or slots i none ∷ read_ring slots (next_index i) k
unfolding read_ring
read_ring-front slots i n k e = rw e refl

-- A ring that is not full takes a value at its head.
pub read_ring-put :
    (slots : List (Option Message)) (first last : ℕ) (v : Option Message)
    → length slots ≡ inbox_size
    → first < inbox_size
    → last < inbox_size
    → next_index last ≢ first
    → read_ring (set slots last v) first (distance first (next_index last))
      ≡ read_ring slots first (distance first last) ++ (v ∷ [])
read_ring-put slots first last v sized hf hl apart =
    let d = distance first last in
    let more : distance first (next_index last) ≡ suc d = omega (arith, hf, hl, apart) in
    let meets : (first + d) % inbox_size ≡ last = omega (arith, hf, hl) in
    let written : get_or (set slots last v) last none ≡ v =
      ground (arith, get_or-set slots last last v none (omega (arith, sized, hl))) in
    rw
      (
        more,
        read_ring-snoc (set slots last v) first d hf,
        meets,
        written,
        read_ring-set slots first d last v sized hf hl (omega arith),
      )
      refl

no_bytes : (payload : List ℕ) → ltb 0 (length payload) ≡ false → payload ≡ []
no_bytes [] h = refl
no_bytes (b ∷ bs) h = absurd (omega (arith, ltb-false→le 0 (length (b ∷ bs)) h))

-- The copy that `on_message_received` makes is the message.
pub copy-made :
    (env : Env) (m : Message)
    → IsAmple env
    → IsMessage m
    → (copy : Message) × (Message.create env
          (some m.sender_pubkey)
          (some m.receiver_pubkey)
          (some m.payload)
        ≡ some copy)
      × (record copy { uuid = m.uuid; ttl = m.ttl; timestamp = m.timestamp } ≡ m)
unfolding Message.create
copy-made env m ample v =
    let copy : Message = record m {
      uuid = env.random Message.uuid_size;
      ttl = Message.default_ttl;
      timestamp = env.now;
    } in
    elim (Bool-cases (ltb 0 (length m.payload))) [
      | inl long ↦ (
        copy,
        rw
            (
              ample.granted message_struct,
              long,
              ample.granted (bytes (length m.payload)),
              take-length m.sender_pubkey pubkey_size v.sender_sized,
              take-length m.receiver_pubkey pubkey_size v.receiver_sized,
            )
            refl,
        refl,
      )
      | inr empty ↦ (
        copy,
        rw
            (
              ample.granted message_struct,
              empty,
              take-length m.sender_pubkey pubkey_size v.sender_sized,
              take-length m.receiver_pubkey pubkey_size v.receiver_sized,
              no_bytes m.payload empty,
            )
            refl,
        refl,
      )
    ]
