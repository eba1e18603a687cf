-- ===== src/Sodium.antt =====
-- What the code takes from libsodium, as parameters with the behaviour that its manual states.
use bit_chat.Prelude.{ℕ, ◌+◌, Bool, true, List, ◌≡◌, ◌↔◌, Option, some, length}

-- `sodium_memcmp(a, b, n) == 0`: true exactly when the bytes are equal.
pub record Memcmp : Type 0 where
  pub same : List ℕ → List ℕ → Bool
  pub same_iff : (a b : List ℕ) → (same a b ≡ true) ↔ (a ≡ b)

-- The primitives; `none` is a result other than 0. A keypair is made from random bytes, the public
-- key first.
pub record Sodium : Type 0 where
  pub init_ok : Bool
  pub box_keypair : List ℕ → Option (List ℕ × List ℕ)
  -- `crypto_box_beforenm(k, pk, sk)`
  pub box_beforenm : List ℕ → List ℕ → Option (List ℕ)
  -- `crypto_scalarmult_base(pk, sk)`
  pub scalarmult_base : List ℕ → Option (List ℕ)
  -- `crypto_aead_xchacha20poly1305_ietf_encrypt` and `…_decrypt`, of text, nonce and key
  pub aead_encrypt : List ℕ → List ℕ → List ℕ → Option (List ℕ)
  pub aead_decrypt : List ℕ → List ℕ → List ℕ → Option (List ℕ)

-- The documented laws: sizes, decryption undoes encryption, a public
-- key is the product of its secret key with the base point, and both sides of a key exchange agree.
pub record IsSodium (sodium : Sodium) : Type 0 where
  pub keypair_sized :
      (seed pk sk : List ℕ)
      → sodium.box_keypair seed ≡ some (pk, sk)
      → (length pk ≡ 32) × (length sk ≡ 32)
  pub encrypt_sized :
      (plain nonce key cipher : List ℕ)
      → sodium.aead_encrypt plain nonce key ≡ some cipher
      → length cipher ≡ length plain + 16
  pub decrypt_encrypt :
      (plain nonce key cipher : List ℕ)
      → sodium.aead_encrypt plain nonce key ≡ some cipher
      → sodium.aead_decrypt cipher nonce key ≡ some plain
  pub base_of_keypair :
      (seed pk sk : List ℕ)
      → sodium.box_keypair seed ≡ some (pk, sk)
      → sodium.scalarmult_base sk ≡ some pk
  pub agreement :
      (seed seed' pk sk pk' sk' : List ℕ)
      → sodium.box_keypair seed ≡ some (pk, sk)
      → sodium.box_keypair seed' ≡ some (pk', sk')
      → sodium.box_beforenm pk' sk ≡ sodium.box_beforenm pk sk'
