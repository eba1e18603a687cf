-- ===== src/Identity.antt =====
-- src/domain/identity.c: the local keypair.
pub mod RoundTrip
use bit_chat.Prelude.{
  ℕ, ◌+◌, List, [], ◌++◌, Option, none, some, ltb, if◌then◌else◌, length, take, drop, replicate,
}
use bit_chat.Status.{Status, ok, err_invalid, err_crypto, err_buffer_too_small, Env}
use bit_chat.Sodium.{Sodium}
use bit_chat.Message.{pubkey_size}

-- `BC_SECRET_KEY_SIZE`
abbrev pub secret_key_size : ℕ
secret_key_size = 32

-- `BC_IDENTITY_SERIALIZED_SIZE`
abbrev pub serialized_size : ℕ
serialized_size = pubkey_size + secret_key_size

-- `bc_identity_t`
pub record Identity : Type 0 where
  pub pubkey : List ℕ
  pub secret_key : List ℕ

-- The result of `crypto_box_keypair`.
abbrev pub keep_keypair : Identity → Option (List ℕ × List ℕ) → Status × Identity
keep_keypair id none = (err_crypto, id)
keep_keypair id (some (pk, sk)) = (ok, record { pubkey = pk; secret_key = sk })

-- `bc_identity_generate`; the first pointer is to what is overwritten.
unfoldable pub generate : Sodium → Env → Option Identity → Status × Option Identity
generate sodium env none = (err_invalid, none)
generate sodium env (some id) =
    let (rc, id') = keep_keypair id (sodium.box_keypair (env.random secret_key_size)) in
    (rc, some id')

-- `bc_identity_serialize`: the status, and the buffer afterwards.
unfoldable pub serialize : Option Identity → Option (List ℕ) → Status × Option (List ℕ)
serialize (some id) (some buf) =
    if ltb (length buf) serialized_size then (err_buffer_too_small, some buf) else (
      ok,
      some (
          take pubkey_size id.pubkey
          ++ (take secret_key_size id.secret_key ++ drop serialized_size buf)),
    )
serialize id buf = (err_invalid, buf)

-- `bc_identity_deserialize`: the status, and the struct afterwards.
unfoldable pub deserialize : Option Identity → Option (List ℕ) → Status × Option Identity
deserialize (some id) (some packet) =
    if ltb (length packet) serialized_size then (err_invalid, some id) else (
      ok,
      some record {
        pubkey = take pubkey_size packet;
        secret_key = take secret_key_size (drop pubkey_size packet);
      },
    )
deserialize id packet = (err_invalid, id)

-- `bc_identity_wipe`: `sodium_memzero` of the secret key.
unfoldable pub wipe : Option Identity → Option Identity
wipe none = none
wipe (some id) = some (record id { secret_key = replicate secret_key_size 0 })
