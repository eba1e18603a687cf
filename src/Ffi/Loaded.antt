-- ===== src/Ffi/Loaded.antt =====
-- The identity that the calls of src/bridge/bitchat_ffi.c give out and take in.
use bit_chat.Prelude.{
  ℕ, ◌≡◌, refl, sym, ap, ◌∙◌, subst, Bool, true, false, not, List, ◌++◌, arith, Option, none, some,
  length, replicate, length-append, take-append_of_length, drop-append_of_length, drop-length,
  append-nil, take-length, ltb-ge, if◌then◌else◌,
}
use bit_chat.Status.{Status, ok, err, err_invalid, is_ok, Env}
use bit_chat.Sodium.{Sodium, IsSodium}
use bit_chat.Identity.{Identity, keep_keypair}
use bit_chat.Identity as Identity
use bit_chat.Identity.RoundTrip.{IsIdentity}
use bit_chat.Crypto.{content}
use bit_chat.Ffi.{State}
use bit_chat.Ffi.Api as Api
use bit_chat.Ffi.Api.{shared, restart, with_identity, with_router, copy_out}

-- A test whose first branch fails.
if-second {κ} :
    {X : Type 0} (P : X → Type κ) (rc : X → Status) (b : Bool) (x y : X)
    → is_ok (rc x) ≡ false
    → is_ok (rc (if b then x else y)) ≡ true
    → (is_ok (rc y) ≡ true → P y)
    → P (if b then x else y)
if-second P rc true x y bad h p = cc
if-second P rc false x y bad h p = p h

if-not {κ} :
    {X : Type 0} (P : X → Type κ) (b : Bool) (x y : X) → b ≡ true → P y → P (if not b then x else y)
if-not P true x y e p = p
if-not P false x y e p = cc

copy_out-sized :
    (out field : List ℕ) → length out ≡ length field → content (copy_out (some out) field) ≡ field
copy_out-sized out field h = rw (drop-length out (length field) h) (append-nil field)

module _ {D V : Type 0} where
  restart-shared :
      (sodium : Sodium) (env : Env) (g : State D V) → shared (restart sodium env g).1 ≡ shared g
  unfolding restart
  restart-shared sodium env g = go _
    where
      go : (r : Option _) → shared (with_router sodium env g r).1 ≡ shared g
      go none = refl
      go (some r) = refl

  -- The outputs of `bitchat_generate_identity` are the identity of the state.
  abbrev pub IsGiven : Status × Option (List ℕ) × Option (List ℕ) × State D V → Type 0
  IsGiven (rc, pubkey, secret, g) =
      IsIdentity (shared g).identity
      × (content pubkey ≡ (shared g).identity.pubkey)
      × (content secret ≡ (shared g).identity.secret_key)

  -- `bitchat_generate_identity`, on the result of `bc_identity_generate`.
  generated :
      Sodium
      → Env
      → State D V
      → Status × Identity
      → Status × Option (List ℕ) × Option (List ℕ) × State D V
  generated sodium env g (rc, id) =
      let g' = with_identity g (some id) in
      let (rc', g'') = restart sodium env g' in
      if not g.initialized
      then (err, some (replicate 32 0), some (replicate 32 0), g)
      else if not (is_ok rc)
      then (rc, some (replicate 32 0), some (replicate 32 0), g')
      else (
        rc',
        copy_out (some (replicate 32 0)) id.pubkey,
        copy_out (some (replicate 32 0)) id.secret_key,
        g'',
      )

  generated-IsGiven :
      (sodium : Sodium) (env : Env) (g : State D V) (id : Identity)
      (pair : Option (List ℕ × List ℕ))
      → ((pk sk : List ℕ) → pair ≡ some (pk, sk) → (length pk ≡ 32) × (length sk ≡ 32))
      → is_ok (generated sodium env g (keep_keypair id pair)).0 ≡ true
      → IsGiven (generated sodium env g (keep_keypair id pair))
  unfolding generated
  generated-IsGiven sodium env g id none sized h =
      if-second IsGiven (λ out. out.0) (not g.initialized) _ _ refl h (λ bad. cc)
  generated-IsGiven sodium env g id (some (pk, sk)) sized h =
      let (pk_sized, sk_sized) = sized pk sk refl in
      let id' : Identity = record { pubkey = pk; secret_key = sk } in
      let same : (shared (restart sodium env (with_identity g (some id'))).1).identity ≡ id' =
        ap (λ s. s.identity) (restart-shared sodium env (with_identity g (some id'))) in
      if-second IsGiven (λ out. out.0) (not g.initialized) _ _ refl h
        (λ good. (
          subst IsIdentity (sym same) record { pubkey_sized = pk_sized; secret_sized = sk_sized },
          copy_out-sized (replicate 32 0) pk (sym pk_sized) ∙ sym (ap (λ i. i.pubkey) same),
          copy_out-sized (replicate 32 0) sk (sym sk_sized) ∙ sym (ap (λ i. i.secret_key) same),
        ))

  pub generate_identity-IsGiven :
      {sodium : Sodium} (laws : IsSodium sodium) (env : Env) (g : State D V)
      → let out =
          Api.generate_identity sodium env (some (replicate 32 0)) (some (replicate 32 0)) g in
        is_ok out.0 ≡ true → IsGiven out
  unfolding Api.generate_identity Identity.generate generated
  generate_identity-IsGiven {sodium} laws env g h =
      generated-IsGiven sodium env g (shared g).identity (sodium.box_keypair (env.random 32))
        (λ pk sk e. laws.keypair_sized (env.random 32) pk sk e) h

deserialize-parts :
    (id other : Identity)
    → IsIdentity id
    → Identity.deserialize (some other) (some (id.pubkey ++ id.secret_key)) ≡ (ok, some id)
unfolding Identity.deserialize
deserialize-parts id other v =
    rw
      (
        ltb-ge (length (id.pubkey ++ id.secret_key)) Identity.serialized_size
            (omega (arith, length-append id.pubkey id.secret_key, v.pubkey_sized, v.secret_sized)),
        take-append_of_length 32 id.pubkey id.secret_key v.pubkey_sized,
        drop-append_of_length 32 id.pubkey id.secret_key v.pubkey_sized,
        take-length id.secret_key 32 v.secret_sized,
      )
      refl

-- `bitchat_load_identity`, on the result of `bc_identity_deserialize`.
loaded : {D V : Type 0} → Sodium → Env → State D V → Status × Option Identity → Status × State D V
loaded sodium env g (rc, id) =
    let g' = with_identity g id in
    if not g.initialized
    then (err_invalid, g)
    else if not (is_ok rc)
    then (rc, g')
    else restart sodium env g'

pub load_identity-identity :
    {D V : Type 0} (sodium : Sodium) (env : Env) (g : State D V) (id : Identity)
    → IsIdentity id
    → g.initialized ≡ true
    → (shared (Api.load_identity sodium env (some (id.pubkey ++ id.secret_key)) g).1).identity ≡ id
unfolding Api.load_identity loaded
load_identity-identity {D} {V} sodium env g id v ready =
    ap (λ out. (shared (loaded sodium env g out).1).identity)
      (deserialize-parts id (shared g).identity v)
    ∙ if-not {X = Status × State D V} (λ out. (shared out.1).identity ≡ id) g.initialized _ _ ready
        (ap (λ s. s.identity) (restart-shared sodium env (with_identity g (some id))))
