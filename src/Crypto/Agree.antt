-- ===== src/Crypto/Agree.antt =====
-- What one side encrypts with its derived key, the other decrypts with its own.
use bit_chat.Prelude.{
  ◌⊎◌, inl, inr, ℕ, ◌+◌, ◌≡◌, refl, ap, ◌∙◌, List, Option, none, some, arith, length, ltb-ge,
  drop-length, append-nil,
}
use bit_chat.Status.{ok, err_crypto, Env}
use bit_chat.Sodium.{Sodium, IsSodium}
use bit_chat.Crypto.{nonce_size, tag_size, derive_shared, encrypt, decrypt, overwrite, crypto_out}

-- A buffer of the exact length is overwritten as a whole.
pub overwrite_lem : (bytes buf : List ℕ) → length buf ≡ length bytes → overwrite bytes buf ≡ bytes
overwrite_lem bytes buf h = rw (drop-length buf (length bytes) h) (append-nil bytes)

-- A call that succeeded wrote what the primitive gave.
pub crypto_out-ok :
    (buf out : List ℕ) (o : Option (List ℕ))
    → crypto_out buf o ≡ (ok, some out)
    → (bytes : List ℕ) × (o ≡ some bytes) × (out ≡ overwrite bytes buf)
crypto_out-ok buf out none h = cc
crypto_out-ok buf out (some bytes) h = (bytes, refl, cc)

-- The two results of a call on pointers that are there.
pub crypto_out-cases :
    (buf : List ℕ) (o : Option (List ℕ))
    → (crypto_out buf o ≡ (err_crypto, some buf))
      ⊎ ((out : List ℕ) × (crypto_out buf o ≡ (ok, some out)))
crypto_out-cases buf none = inl refl
crypto_out-cases buf (some out) = inr (overwrite out buf, refl)

pub derive_shared-cases :
    (sodium : Sodium) (sk pk buf : List ℕ)
    → (derive_shared sodium (some sk) (some pk) (some buf) ≡ (err_crypto, some buf))
      ⊎ ((key : List ℕ) × (derive_shared sodium (some sk) (some pk) (some buf) ≡ (ok, some key)))
unfolding derive_shared
derive_shared-cases sodium sk pk buf = crypto_out-cases buf (sodium.box_beforenm pk sk)

pub encrypt-cases :
    (sodium : Sodium) (env : Env) (text key buf iv_buf : List ℕ)
    → let result = encrypt sodium env (some text) (some key) (some buf) (some iv_buf) in
      (result ≡ (err_crypto, some buf, some (env.random nonce_size)))
      ⊎ ((cipher : List ℕ) × (iv : List ℕ) × (result ≡ (ok, some cipher, some iv)))
unfolding encrypt
encrypt-cases sodium env text key buf iv_buf =
    elim (crypto_out-cases buf (sodium.aead_encrypt text (env.random nonce_size) key)) [
      | inl bad ↦ inl (rw bad refl)
      | inr (cipher, good) ↦ inr (cipher, env.random nonce_size, rw good refl)
    ]

module _ {sodium : Sodium} (laws : IsSodium sodium) where
  -- Two keypairs that libsodium made derive one shared key: with the other's public key, both sides
  -- get the same status and the same bytes.
  pub derive_shared-agree :
      (seed seed' pk sk pk' sk' buf : List ℕ)
      → sodium.box_keypair seed ≡ some (pk, sk)
      → sodium.box_keypair seed' ≡ some (pk', sk')
      → derive_shared sodium (some sk) (some pk') (some buf)
        ≡ derive_shared sodium (some sk') (some pk) (some buf)
  unfolding derive_shared
  derive_shared-agree seed seed' pk sk pk' sk' buf h h' =
      ap (crypto_out buf) (laws.agreement seed seed' pk sk pk' sk' h h')

  -- A successful encryption wrote the nonce, and the ciphertext of its documented length.
  pub encrypt-inv :
      (env : Env) (plaintext shared_key ciphertext_out nonce_out cipher iv : List ℕ)
      → length ciphertext_out ≡ length plaintext + tag_size
      → encrypt sodium env (some plaintext) (some shared_key) (some ciphertext_out) (some nonce_out)
        ≡ (ok, some cipher, some iv)
      → (iv ≡ env.random nonce_size)
        × (made : List ℕ) × ((cipher ≡ made) × (length made ≡ length plaintext + tag_size))
        × (sodium.aead_encrypt plaintext (env.random nonce_size) shared_key ≡ some made)
  unfolding encrypt
  encrypt-inv env plain key c_out n_out cipher iv hc h =
      let out : crypto_out c_out (sodium.aead_encrypt plain (env.random nonce_size) key)
          ≡ (ok, some cipher) =
        cc in
      let (made, e, whole) =
        crypto_out-ok c_out cipher (sodium.aead_encrypt plain (env.random nonce_size) key) out in
      let sized = laws.encrypt_sized plain (env.random nonce_size) key made e in
      (cc, made, (whole ∙ overwrite_lem made c_out (omega (arith, hc, sized)), sized), e)

  -- What `bc_crypto_encrypt` wrote, with success, into a buffer of the plaintext's length and 16 bytes
  -- more, is decrypted with the same key and the nonce that it wrote, and the plaintext stands at the
  -- front of the output.
  pub decrypt-encrypt :
      (env : Env) (plaintext shared_key ciphertext_out nonce_out plaintext_out cipher iv : List ℕ)
      → length ciphertext_out ≡ length plaintext + tag_size
      → encrypt sodium env (some plaintext) (some shared_key) (some ciphertext_out) (some nonce_out)
        ≡ (ok, some cipher, some iv)
      → decrypt sodium (some cipher) (some shared_key) (some iv) (some plaintext_out)
        ≡ (ok, some (overwrite plaintext plaintext_out))
  unfolding encrypt decrypt
  decrypt-encrypt env plain key c_out n_out p_out cipher iv hc h =
      let (same, bytes, sized, made) = encrypt-inv env plain key c_out n_out cipher iv hc h in
      rw
        (
          sized.0,
          same,
          ltb-ge (length bytes) tag_size (omega (arith, sized.1)),
          laws.decrypt_encrypt plain (env.random nonce_size) key bytes made,
        )
        refl
