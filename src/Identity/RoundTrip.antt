-- ===== src/Identity/RoundTrip.antt =====
-- An identity that was stored is loaded again.
use bit_chat.Prelude.{
  ℕ, ◌≤◌, ◌≡◌, refl, List, ◌++◌, some, arith, length, ltb-ge, length-append, take-append_of_length,
  drop-append_of_length, take-length, drop,
}
use bit_chat.Status.{ok}
use bit_chat.Message.{pubkey_size}
use bit_chat.Identity.{Identity, secret_key_size, serialized_size, serialize, deserialize}

-- The arrays have their sizes.
pub record IsIdentity (id : Identity) : Type 0 where
  pub pubkey_sized : length id.pubkey ≡ pubkey_size
  pub secret_sized : length id.secret_key ≡ secret_key_size

-- An identity that is serialized into a buffer of 64 bytes or more is deserialized from it, into any
-- struct.
deserialize-serialize_identity :
    (id other : Identity) (buf : List ℕ)
    → IsIdentity id
    → serialized_size ≤ length buf
    → let (rc, buf') = serialize (some id) (some buf) in
      (rc ≡ ok) × (deserialize (some other) buf' ≡ (ok, some id))
unfolding serialize deserialize
deserialize-serialize_identity id other buf v h =
    let rest : List ℕ = drop serialized_size buf in
    let long : serialized_size ≤ length (id.pubkey ++ (id.secret_key ++ rest)) =
      simp length-append (omega arith) in
    rw
      (
        ltb-ge (length buf) serialized_size h,
        take-length id.pubkey pubkey_size v.pubkey_sized,
        take-length id.secret_key secret_key_size v.secret_sized,
        ltb-ge (length (id.pubkey ++ (id.secret_key ++ rest))) serialized_size long,
        take-append_of_length pubkey_size id.pubkey (id.secret_key ++ rest) v.pubkey_sized,
        drop-append_of_length pubkey_size id.pubkey (id.secret_key ++ rest) v.pubkey_sized,
        take-append_of_length secret_key_size id.secret_key rest v.secret_sized,
      )
      (refl, refl)
