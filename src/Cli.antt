-- ===== src/Cli.antt =====
-- src/cli/main.c: the conversions between byte arrays and hexadecimal text. A character is its code,
-- and a string the list of its characters, without the final NUL.
pub mod Hex
pub mod Command
pub mod Start
pub mod Same
pub mod Restart
pub mod Shown
pub mod Loop
pub mod Program
pub mod Begin
pub mod SetUp
pub mod Sent
pub mod Arrive
pub mod Offline
pub mod Lost
use bit_chat.Prelude.{
  ℕ, ◌+◌, ◌-◌, ◌*◌, ◌/◌, ◌%◌, Bool, ◌&&◌, ◌||◌, List, [], ◌∷◌, ◌++◌, Option, none, some, leb, ◌==◌,
  if◌then◌else◌, length,
}
use mathlib.Core.Option

-- `hex_chars[d]`, the digits 0 to 9 and a to f.
abbrev pub hex_char : ℕ → ℕ
hex_char d = if leb d 9 then 48 + d else 87 + d

-- `bytes_to_hex`
unfoldable pub bytes_to_hex : List ℕ → List ℕ
bytes_to_hex [] = []
bytes_to_hex (b ∷ bs) = hex_char ((b / 16) % 16) ∷ (hex_char (b % 16) ∷ bytes_to_hex bs)

-- The test of a character in `hex_to_bytes`.
abbrev pub is_hex : ℕ → Bool
is_hex c = (leb 48 c && leb c 57) || ((leb 97 c && leb c 102) || (leb 65 c && leb c 70))

-- The value of a hexadecimal digit, for `sscanf(tmp, "%02x", &byte)`.
abbrev pub digit : ℕ → ℕ
digit c = if leb c 57 then c - 48 else if leb c 70 then c - 55 else c - 87

-- The loop of `hex_to_bytes`, over what is left of the string.
unfoldable pub read_hex : List ℕ → Option (List ℕ)
read_hex [] = some []
read_hex (c ∷ []) = none
read_hex (c ∷ (d ∷ cs)) =
    let rest = Option.map (λ bs. (digit c * 16 + digit d) ∷ bs) (read_hex cs) in
    if is_hex c && is_hex d then rest else none

-- `hex_to_bytes`, which returns -1 as `none`.
unfoldable pub hex_to_bytes : List ℕ → ℕ → Option (List ℕ)
hex_to_bytes hex out_len = if length hex == out_len * 2 then read_hex hex else none
