-- ===== src/Message/Wire.antt =====
-- src/domain/message.c, the helpers for big-endian words. A shift right is a division and a cast to
-- `uint8_t` a remainder; the shifted bytes that a read joins by `|` have no bit in common, so that
-- `|` is `+`.
use bit_chat.Prelude.{
  ℕ, ◌+◌, ◌*◌, ◌/◌, ◌%◌, ◌^◌, ◌<◌, ◌≤◌, ◌≡◌, refl, List, [], ◌∷◌, ◌++◌, arith, length, get_or, take,
  AreBytes,
}

unfoldable pub write_u32_be : ℕ → List ℕ
write_u32_be val =
    (val / 2 ^ 24 % 256) ∷ (val / 2 ^ 16 % 256) ∷ (val / 2 ^ 8 % 256) ∷ (val % 256) ∷ []

unfoldable pub read_u32_be : List ℕ → ℕ
read_u32_be src =
    get_or src 0 0 * 2 ^ 24 + get_or src 1 0 * 2 ^ 16 + get_or src 2 0 * 2 ^ 8 + get_or src 3 0

unfoldable pub write_u64_be : ℕ → List ℕ
write_u64_be val =
    (val / 2 ^ 56 % 256)
    ∷ (val / 2 ^ 48 % 256)
    ∷ (val / 2 ^ 40 % 256)
    ∷ (val / 2 ^ 32 % 256)
    ∷ (val / 2 ^ 24 % 256)
    ∷ (val / 2 ^ 16 % 256)
    ∷ (val / 2 ^ 8 % 256)
    ∷ (val % 256)
    ∷ []

unfoldable pub read_u64_be : List ℕ → ℕ
read_u64_be src =
    get_or src 0 0 * 2 ^ 56
    + get_or src 1 0 * 2 ^ 48
    + get_or src 2 0 * 2 ^ 40
    + get_or src 3 0 * 2 ^ 32
    + get_or src 4 0 * 2 ^ 24
    + get_or src 5 0 * 2 ^ 16
    + get_or src 6 0 * 2 ^ 8
    + get_or src 7 0

-- A 32-bit word is read back from its four bytes, whatever follows them.
pub read_u32_be-write_u32_be :
    (v : ℕ) (rest : List ℕ) → v < 2 ^ 32 → read_u32_be (write_u32_be v ++ rest) ≡ v
unfolding read_u32_be write_u32_be
read_u32_be-write_u32_be v rest h = omega arith

-- A 64-bit word is read back from its eight bytes, whatever follows them.
pub read_u64_be-write_u64_be :
    (v : ℕ) (rest : List ℕ) → v < 2 ^ 64 → read_u64_be (write_u64_be v ++ rest) ≡ v
unfolding read_u64_be write_u64_be
read_u64_be-write_u64_be v rest h = omega arith

pub length-write_u32_be : (v : ℕ) → length (write_u32_be v) ≡ 4
unfolding write_u32_be
length-write_u32_be v = refl

pub length-write_u64_be : (v : ℕ) → length (write_u64_be v) ≡ 8
unfolding write_u64_be
length-write_u64_be v = refl

-- The first bytes of a packet are written back from the word that they read as, and that word is in
-- the range of its C type.
pub write_u32_be-read_u32_be :
    (p : List ℕ)
    → 4 ≤ length p
    → AreBytes p
    → (write_u32_be (read_u32_be p) ≡ take 4 p) × (read_u32_be p < 2 ^ 32)
unfolding read_u32_be write_u32_be
write_u32_be-read_u32_be (a ∷ b ∷ c ∷ d ∷ rest) l h = (ground arith, omega arith)
write_u32_be-read_u32_be _ l h = absurd (omega arith)

pub write_u64_be-read_u64_be :
    (p : List ℕ)
    → 8 ≤ length p
    → AreBytes p
    → (write_u64_be (read_u64_be p) ≡ take 8 p) × (read_u64_be p < 2 ^ 64)
unfolding read_u64_be write_u64_be
write_u64_be-read_u64_be (a ∷ b ∷ c ∷ d ∷ e ∷ f ∷ g ∷ i ∷ rest) l h = (ground arith, omega arith)
write_u64_be-read_u64_be _ l h = absurd (omega arith)
