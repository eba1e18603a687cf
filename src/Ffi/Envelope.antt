-- ===== src/Ffi/Envelope.antt =====
-- The message that holds an encrypted text: how the calls of a sender make it, and what its receiver
-- makes of it.
use bit_chat.Prelude.{
  ℕ, ◌+◌, ◌≡◌, sym, ap, ◌∙◌, inl, inr, List, ◌++◌, arith, some, length, replicate, take,
  length-append, length-replicate, take-append_of_length, drop-append_of_length, take-length,
}
use bit_chat.Status.{ok, Env}
use bit_chat.Sodium.{Sodium, IsSodium}
use bit_chat.Message.{Message, pubkey_size}
use bit_chat.Message as Message
use bit_chat.Identity.{Identity}
use bit_chat.Crypto.{nonce_size, tag_size, content, encrypt, overwrite}
use bit_chat.Crypto.Agree.{
  derive_shared-agree, derive_shared-cases, encrypt-cases, decrypt-encrypt, encrypt-inv,
}
use bit_chat.Ffi.{shared_key, decrypt_payload}

-- `crypto_box_keypair` made the identity.
abbrev pub IsGenerated : Sodium → List ℕ → Identity → Type 0
IsGenerated sodium seed id = sodium.box_keypair seed ≡ some (id.pubkey, id.secret_key)

pub create-inv :
    (env : Env) (pk recipient payload : List ℕ) (m : Message)
    → Message.create env (some pk) (some recipient) (some payload) ≡ some m
    → (m.payload ≡ payload)
      × (m.sender_pubkey ≡ take pubkey_size pk)
      × (m.receiver_pubkey ≡ take pubkey_size recipient)
unfolding Message.create
create-inv env pk recipient payload m h = ground arith

-- A message that holds a text encrypted by `a` for the owner of a key.
pub record IsSealed (sodium : Sodium) (env : Env) (a : Identity) (recipient text : List ℕ)
    (m : Message) : Type 0 where
  pub key : List ℕ
  pub cipher : List ℕ
  pub iv : List ℕ
  pub derived : shared_key sodium a recipient ≡ (ok, some key)
  pub sealed :
      encrypt sodium env
        (some text)
        (some key)
        (some (replicate (length text + tag_size) 0))
        (some (replicate nonce_size 0))
      ≡ (ok, some cipher, some iv)
  pub made : Message.create env (some a.pubkey) (some recipient) (some (iv ++ cipher)) ≡ some m

-- What its receiver makes of it.
pub record IsOpened (sodium : Sodium) (a b : Identity) (text : List ℕ) (m : Message) : Type 0 where
  pub sized : length m.payload ≡ nonce_size + (length text + tag_size)
  pub from : m.sender_pubkey ≡ a.pubkey
  pub to : m.receiver_pubkey ≡ b.pubkey
  pub key : List ℕ
  pub derived : shared_key sodium b m.sender_pubkey ≡ (ok, some key)
  pub opened :
      (buf : List ℕ) → decrypt_payload sodium (some key) m buf ≡ (ok, some (overwrite text buf))

-- The calls that make a message of a text, in the order of the code: where all have success, the
-- message is sealed.
pub calls-IsSealed :
    (sodium : Sodium) (env : Env) (a : Identity) (recipient text : List ℕ) (m : Message)
    → let (rc, key) = shared_key sodium a recipient in
      let (rc', ct, iv) =
        encrypt sodium env
          (some text)
          key
          (some (replicate (length text + tag_size) 0))
          (some (replicate nonce_size 0)) in
      rc ≡ ok
      → rc' ≡ ok
      → Message.create env (some a.pubkey) (some recipient) (some (content iv ++ content ct))
        ≡ some m
      → IsSealed sodium env a recipient text m
calls-IsSealed sodium env a recipient text m derived sealed made =
    let ct_len = length text + tag_size in
    elim (derive_shared-cases sodium a.secret_key recipient (replicate 32 0)) [
      | inl bad ↦ cc (ap (λ p. p.0) bad, derived)
      | inr (k, got) ↦
          elim (encrypt-cases sodium env text k (replicate ct_len 0) (replicate nonce_size 0)) [
            | inl bad ↦ cc (ap (λ p. p.0) bad, rw got at sealed)
            | inr (cipher, iv, enc) ↦ record {
              key = k;
              cipher = cipher;
              iv = iv;
              derived = got;
              sealed = enc;
              made = rw (got, enc) at made;
            }
          ]
    ]

module _ {sodium : Sodium} (laws : IsSodium sodium) where
  -- A sealed message opens.
  pub IsSealed-IsOpened :
      (env : Env) (seed seed' : List ℕ) (a b : Identity) (text : List ℕ) (m : Message)
      → IsGenerated sodium seed a
      → IsGenerated sodium seed' b
      → length (env.random nonce_size) ≡ nonce_size
      → IsSealed sodium env a b.pubkey text m
      → IsOpened sodium a b text m
  IsSealed-IsOpened env seed seed' a b text m ha hb sized h =
      let ct_len = length text + tag_size in
      let zeroed : length (replicate ct_len 0) ≡ ct_len = length-replicate ct_len 0 in
      let (payload, from, to) = create-inv env a.pubkey b.pubkey (h.iv ++ h.cipher) m h.made in
      let (from_sized, _) = laws.keypair_sized seed a.pubkey a.secret_key ha in
      let (to_sized, _) = laws.keypair_sized seed' b.pubkey b.secret_key hb in
      let sender : m.sender_pubkey ≡ a.pubkey =
        from ∙ take-length a.pubkey pubkey_size from_sized in
      let (same, made, (whole, long), _) =
        encrypt-inv laws env text h.key (replicate ct_len 0) (replicate nonce_size 0) h.cipher h.iv
          zeroed h.sealed in
      let iv_sized : length h.iv ≡ nonce_size = ap length same ∙ sized in
      record {
        sized =
            ap length payload
            ∙ omega (arith, length-append h.iv h.cipher, iv_sized, ap length whole, long);
        from = sender;
        to = to ∙ take-length b.pubkey pubkey_size to_sized;
        key = h.key;
        derived = rw sender (
            sym (
              derive_shared-agree laws seed seed' a.pubkey a.secret_key b.pubkey b.secret_key
                (replicate 32 0) ha hb)
            ∙ h.derived);
        opened = λ buf.
            rw
              (
                payload,
                take-append_of_length nonce_size h.iv h.cipher iv_sized,
                drop-append_of_length nonce_size h.iv h.cipher iv_sized,
              )
              (decrypt-encrypt laws env text h.key (replicate ct_len 0) (replicate nonce_size 0) buf
                h.cipher h.iv zeroed h.sealed);
      }
