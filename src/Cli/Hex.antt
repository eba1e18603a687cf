-- ===== src/Cli/Hex.antt =====
-- The two conversions undo each other, up to the case of letters.
use bit_chat.Prelude.{
  ℕ, ◌+◌, ◌*◌, ◌/◌, ◌%◌, ◌<◌, ◌≡◌, refl, Bool, true, false, ◌&&◌, List, [], ◌∷◌, some, arith,
  length, AreBytes, ◌==◌, Bool-cases, Option-cases, ==_iff, inl, inr,
}
use bit_chat.Cli.{hex_char, bytes_to_hex, is_hex, digit, read_hex, hex_to_bytes}

is_hex-hex_char : (d : ℕ) → d < 16 → is_hex (hex_char d) ≡ true
is_hex-hex_char d h = ground arith

digit-hex_char : (d : ℕ) → d < 16 → digit (hex_char d) ≡ d
digit-hex_char d h = ground arith

length-bytes_to_hex : (bs : List ℕ) → length (bytes_to_hex bs) ≡ length bs * 2
unfolding bytes_to_hex
length-bytes_to_hex [] = refl
length-bytes_to_hex (b ∷ bs) = omega (arith, length-bytes_to_hex bs)

read_hex-bytes_to_hex : (bs : List ℕ) → AreBytes bs → read_hex (bytes_to_hex bs) ≡ some bs
unfolding bytes_to_hex read_hex
read_hex-bytes_to_hex [] h = refl
read_hex-bytes_to_hex (b ∷ bs) h =
    let hi : (b / 16) % 16 < 16 = omega arith in
    let lo : b % 16 < 16 = omega arith in
    let back : ((b / 16) % 16) * 16 + b % 16 ≡ b =
      let small : b < 256 = h.0 in omega (arith, small) in
    rw
      (
        is_hex-hex_char ((b / 16) % 16) hi,
        is_hex-hex_char (b % 16) lo,
        digit-hex_char ((b / 16) % 16) hi,
        digit-hex_char (b % 16) lo,
        read_hex-bytes_to_hex bs h.1,
        back,
      )
      refl

-- The text that `bytes_to_hex` makes of a byte array is read back by `hex_to_bytes`, asked for as many
-- bytes.
hex_to_bytes-bytes_to_hex :
    (bs : List ℕ) → AreBytes bs → hex_to_bytes (bytes_to_hex bs) (length bs) ≡ some bs
unfolding hex_to_bytes
hex_to_bytes-bytes_to_hex bs h =
    let even : (length (bytes_to_hex bs) == length bs * 2) ≡ true =
      ground (arith, length-bytes_to_hex bs) in
    rw (even, read_hex-bytes_to_hex bs h) refl

digit-IsSmall : (c : ℕ) → is_hex c ≡ true → digit c < 16
digit-IsSmall c h = ground arith

both : (a b : Bool) → (a && b) ≡ true → (a ≡ true) × (b ≡ true)
both true true h = (refl, refl)
both true false h = cc
both false b h = cc

read_hex-AreBytes :
    (cs bs : List ℕ) → read_hex cs ≡ some bs → AreBytes bs × (length cs ≡ length bs * 2)
unfolding read_hex
read_hex-AreBytes [] bs h = let e : bs ≡ [] = cc in rw e (tt, refl)
read_hex-AreBytes (c ∷ []) bs h = cc
read_hex-AreBytes (c ∷ (d ∷ cs)) bs h = elim (Bool-cases (is_hex c && is_hex d)) [
  | inr miss ↦ cc (rw miss at h)
  | inl hit ↦ elim (Option-cases (read_hex cs)) [
    | inl more ↦ cc (rw (hit, more) at h)
    | inr (rest, more) ↦
        let e : bs ≡ (digit c * 16 + digit d) ∷ rest = cc (rw (hit, more) at h) in
        let (left, right) = both (is_hex c) (is_hex d) hit in
        let (bytes, sized) = read_hex-AreBytes cs rest more in
        let c_small = digit-IsSmall c left in
        let d_small = digit-IsSmall d right in
        rw e ((omega (arith, c_small, d_small), bytes), omega (arith, sized))
  ]
]

-- What `hex_to_bytes` accepts is as many bytes as it was asked for.
hex_to_bytes-AreBytes :
    (cs bs : List ℕ) (n : ℕ) → hex_to_bytes cs n ≡ some bs → AreBytes bs × (length bs ≡ n)
unfolding hex_to_bytes
hex_to_bytes-AreBytes cs bs n h = elim (Bool-cases (length cs == n * 2)) [
  | inr miss ↦ cc (rw miss at h)
  | inl hit ↦
      let (bytes, sized) = read_hex-AreBytes cs bs (rw hit at h) in
      let even = (==_iff (length cs) (n * 2)).0 hit in (bytes, omega (arith, sized, even))
]
