-- ===== src/Crypto.antt =====
-- src/usecase/crypto_manager.c: the wrappers of libsodium. A pointer that may be NULL is an option; an
-- output is the buffer's content before the call, and afterwards.
pub mod Agree
use bit_chat.Prelude.{ℕ, ◌++◌, List, [], Option, none, some, ltb, if◌then◌else◌, length, take, drop}
use bit_chat.Status.{Status, ok, err_invalid, err_crypto, Env}
use bit_chat.Sodium.{Sodium}

-- `BC_NONCE_SIZE`
abbrev pub nonce_size : ℕ
nonce_size = 24

-- `BC_TAG_SIZE`
abbrev pub tag_size : ℕ
tag_size = 16

-- What a buffer holds; a buffer is there where the code reads it.
abbrev pub content : Option (List ℕ) → List ℕ
content none = []
content (some buf) = buf

-- What is written to the front of a buffer.
abbrev pub overwrite : List ℕ → List ℕ → List ℕ
overwrite bytes buf = bytes ++ drop (length bytes) buf

-- `bc_crypto_init`
unfoldable pub init : Sodium → Status
init sodium = if sodium.init_ok then ok else err_crypto

-- The outputs of `crypto_box_keypair`, whose result the code drops.
abbrev pub keypair_out :
    List ℕ → List ℕ → Option (List ℕ × List ℕ) → Status × Option (List ℕ) × Option (List ℕ)
keypair_out pubkey_out secret_out none = (ok, some pubkey_out, some secret_out)
keypair_out pubkey_out secret_out (some (pk, sk)) = (ok, some pk, some sk)

-- `bc_crypto_generate_keypair`
unfoldable pub generate_keypair :
    Sodium → Env → Option (List ℕ) → Option (List ℕ) → Status × Option (List ℕ) × Option (List ℕ)
generate_keypair sodium env (some pubkey_out) (some secret_out) =
    keypair_out pubkey_out secret_out (sodium.box_keypair (env.random 32))
generate_keypair sodium env pubkey_out secret_out = (err_invalid, pubkey_out, secret_out)

-- The test of a libsodium result, and the output.
abbrev pub crypto_out : List ℕ → Option (List ℕ) → Status × Option (List ℕ)
crypto_out buf none = (err_crypto, some buf)
crypto_out buf (some bytes) = (ok, some (overwrite bytes buf))

-- `bc_crypto_derive_shared`
unfoldable pub derive_shared :
    Sodium → Option (List ℕ) → Option (List ℕ) → Option (List ℕ) → Status × Option (List ℕ)
derive_shared sodium (some my_secret) (some peer_pubkey) (some shared_out) =
    crypto_out shared_out (sodium.box_beforenm peer_pubkey my_secret)
derive_shared sodium my_secret peer_pubkey shared_out = (err_invalid, shared_out)

-- `bc_crypto_encrypt`: the status, the ciphertext and the nonce.
unfoldable pub encrypt :
    Sodium
    → Env
    → Option (List ℕ)
    → Option (List ℕ)
    → Option (List ℕ)
    → Option (List ℕ)
    → Status × Option (List ℕ) × Option (List ℕ)
encrypt sodium env (some plaintext) (some shared_key) (some ciphertext_out) (some nonce_out) =
    let nonce = env.random nonce_size in
    let (rc, out) = crypto_out ciphertext_out (sodium.aead_encrypt plaintext nonce shared_key) in
    (rc, out, some nonce)
encrypt sodium env plaintext shared_key ciphertext_out nonce_out =
    (err_invalid, ciphertext_out, nonce_out)

-- `bc_crypto_decrypt`
unfoldable pub decrypt :
    Sodium
    → Option (List ℕ)
    → Option (List ℕ)
    → Option (List ℕ)
    → Option (List ℕ)
    → Status × Option (List ℕ)
decrypt sodium (some ciphertext) (some shared_key) (some iv) (some plaintext_out) =
    if ltb (length ciphertext) tag_size
    then (err_invalid, some plaintext_out)
    else crypto_out plaintext_out (sodium.aead_decrypt ciphertext iv shared_key)
decrypt sodium ciphertext shared_key iv plaintext_out = (err_invalid, plaintext_out)
