-- ===== src/Jni/Stored.antt =====
-- The array that `generateIdentity` of src/bridge/bitchat_jni.c gives is the identity that
-- `loadIdentity` loads.
use bit_chat.Prelude.{
  ℕ, ◌+◌, ◌≤◌, ◌≡◌, refl, sym, ap, ap₂, ◌∙◌, subst, Bool, true, false, not, List, ◌++◌, arith,
  Option, none, some, length, take, drop, replicate, length-append, length-replicate,
  take-append_of_length, drop-length, append-nil, length-drop, ltb, if◌then◌else◌,
}
use bit_chat.Status.{err_invalid, is_ok, Env}
use bit_chat.Sodium.{Sodium, IsSodium}
use bit_chat.Identity.{Identity}
use bit_chat.Identity.RoundTrip.{IsIdentity}
use bit_chat.Crypto.{content}
use bit_chat.Ffi.{State}
use bit_chat.Ffi.Api as Api
use bit_chat.Ffi.Api.{shared}
use bit_chat.Jni.{Jvm, Bridge}
use bit_chat.Jni.Calls.{
  bridge, with_vm, fill, joined, load_data, jni_generate_identity, jni_load_identity,
}
use bit_chat.Ffi.Loaded.{generate_identity-IsGiven, load_identity-identity}

-- The arrays of the VM, by what is in them: a new one holds zeros, a region is written where it fits,
-- and the length and the elements are those of the array.
pub record IsArrays {J R M : Type 0} (jvm : Jvm J R M) (elements : J → R → List ℕ) : Type 0 where
  pub made :
      (vm vm' : J) (n : ℕ) (array : R)
      → jvm.new_byte_array vm n ≡ (some array, vm')
      → elements vm' array ≡ replicate n 0
  pub written :
      (vm : J) (array : R) (start : ℕ) (new : List ℕ)
      → start + length new ≤ length (elements vm array)
      → elements (jvm.set_byte_array_region vm array start new) array
        ≡ take start (elements vm array) ++ (new ++ drop (start + length new) (elements vm array))
  pub sized : (vm : J) (array : R) → jvm.get_array_length vm array ≡ length (elements vm array)
  pub read :
      (vm vm' : J) (array : R) (bytes : List ℕ)
      → jvm.get_byte_array_elements vm array ≡ (some bytes, vm')
      → bytes ≡ elements vm array

-- A test whose first branch gives nothing.
if-some :
    {X R : Type 0} (b : Bool) (x z : X) (y : Option R × X) (array : R)
    → (if not b then (none, x) else y) ≡ (some array, z)
    → (b ≡ true) × (y ≡ (some array, z))
if-some true x z y array h = (refl, h)
if-some false x z y array h = cc (ap (λ p. p.0) h)

module _ {J R M : Type 0} {jvm : Jvm J R M} {elements : J → R → List ℕ}
    (arrays : IsArrays jvm elements) where
  -- Two parts fill an array.
  pub fill-elements :
      (vm vm' : J) (array : R) (n : ℕ) (first second : List ℕ)
      → length first ≡ 32
      → 32 + length second ≡ n
      → jvm.new_byte_array vm n ≡ (some array, vm')
      → elements (fill jvm (some array) first second vm') array ≡ first ++ second
  fill-elements vm vm' array n first second sized total new =
      let zeros : elements vm' array ≡ replicate n 0 = arrays.made vm vm' n array new in
      let zeroed : List ℕ = replicate n 0 in
      let whole : length zeroed ≡ n = length-replicate n 0 in
      let rest : List ℕ = drop (0 + length first) zeroed in
      let long : length rest ≡ length second =
        omega (arith, length-drop (0 + length first) zeroed, whole, sized, total) in
      let half : elements (jvm.set_byte_array_region vm' array 0 first) array ≡ first ++ rest =
        arrays.written vm' array 0 first (omega (arith, ap length zeros, whole, sized, total))
        ∙ rw zeros refl in
      arrays.written (jvm.set_byte_array_region vm' array 0 first) array 32 second
        (omega (arith, ap length half, length-append first rest, sized, long))
      ∙ rw
          (
            half,
            take-append_of_length 32 first rest sized,
            drop-length (first ++ rest) (32 + length second)
                (omega (arith, length-append first rest, sized, long)),
          )
          (ap (λ l. first ++ l) (append-nil second))

  joined-elements :
      {D : Type 0} (n : ℕ) (first second : List ℕ) (g g' : State D (Bridge J R M)) (array : R)
      → length first ≡ 32
      → 32 + length second ≡ n
      → joined jvm n first second g ≡ (some array, g')
      → (elements (bridge g').vm array ≡ first ++ second)
        × ((shared g').identity ≡ (shared g).identity)
  joined-elements {D} n first second g g' array sized total h =
      go (jvm.new_byte_array (bridge g).vm n) refl h
    where
      go :
          (out : Option R × J)
          → jvm.new_byte_array (bridge g).vm n ≡ out
          → ◌≡◌ {A = Option R × State D (Bridge J R M)}
              (out.0, with_vm g (fill jvm out.0 first second out.1))
              (some array, g')
          → (elements (bridge g').vm array ≡ first ++ second)
            × ((shared g').identity ≡ (shared g).identity)
      go (none, vm) e done = cc (ap (λ p. p.0) done)
      go (some made, vm) e done =
          let same : made ≡ array = cc (ap (λ p. p.0) done) in
          let state = ap (λ p. p.1) done in
          (
            sym (ap (λ s. elements (bridge s).vm array) state)
                ∙ (ap (elements (fill jvm (some made) first second vm)) (sym same)
                    ∙ fill-elements (bridge g).vm vm made n first second sized total e),
            sym (ap (λ s. (shared s).identity) state),
          )

module _ {D J R M : Type 0} {jvm : Jvm J R M} {elements : J → R → List ℕ}
    (arrays : IsArrays jvm elements) {sodium : Sodium} (laws : IsSodium sodium) where
  -- The array holds the identity of the state.
  jni_generate_identity-elements :
      (env : Env) (g g' : State D (Bridge J R M)) (array : R)
      → jni_generate_identity jvm sodium env g ≡ (some array, g')
      → IsIdentity (shared g').identity
        × (elements (bridge g').vm array
            ≡ (shared g').identity.pubkey ++ (shared g').identity.secret_key)
  unfolding jni_generate_identity
  jni_generate_identity-elements env g g' array h =
      let (rc, pubkey, secret, g₁) =
        Api.generate_identity sodium env (some (replicate 32 0)) (some (replicate 32 0)) g in
      let (good, made) =
        if-some (is_ok rc) g₁ g' (joined jvm 64 (content pubkey) (content secret) g₁) array h in
      let (sized, pk, sk) = generate_identity-IsGiven laws env g good in
      let (held, same) =
        joined-elements arrays 64 (content pubkey) (content secret) g₁ g' array
          (ap length pk ∙ sized.pubkey_sized) (omega (arith, ap length sk, sized.secret_sized))
          made in
      (
        subst IsIdentity (sym same) sized,
        held
            ∙ (ap₂ (λ a b. a ++ b) (pk ∙ sym (ap (λ i. i.pubkey) same))
                (sk ∙ sym (ap (λ i. i.secret_key) same))),
      )

  -- Of an identity that `generateIdentity` gave to the VM, `loadIdentity` makes the identity of the
  -- program again, where an array that holds the same bytes is given to an API that is initialized,
  -- and the VM gives its elements.
  pub jni_load_identity-jni_generate_identity :
      (env env' : Env) (g g' s : State D (Bridge J R M)) (array array' : R) (bytes : List ℕ)
      (vm : J)
      → jni_generate_identity jvm sodium env g ≡ (some array, g')
      → s.initialized ≡ true
      → elements (bridge s).vm array' ≡ elements (bridge g').vm array
      → jvm.get_byte_array_elements (bridge s).vm array' ≡ (some bytes, vm)
      → (shared (jni_load_identity jvm sodium env' (some array') s).1).identity
        ≡ (shared g').identity
  unfolding jni_load_identity
  jni_load_identity-jni_generate_identity env env' g g' s array array' bytes vm made ready kept
        read =
      let id = (shared g').identity in
      let (v, held) = jni_generate_identity-elements env g g' array made in
      let whole : elements (bridge s).vm array' ≡ id.pubkey ++ id.secret_key = kept ∙ held in
      let same : bytes ≡ id.pubkey ++ id.secret_key =
        arrays.read (bridge s).vm vm array' bytes read ∙ whole in
      let sized : jvm.get_array_length (bridge s).vm array' ≡ 64 =
        arrays.sized (bridge s).vm array'
        ∙ (ap length whole
            ∙ omega
                (arith, length-append id.pubkey id.secret_key, v.pubkey_sized, v.secret_sized)) in
      let result : Bool → Option (List ℕ) × J → Identity = λ short out.
        (shared
          (if short
            then (err_invalid, s)
            else load_data jvm sodium env' array' out.0 (with_vm s out.1)).1).identity in
      ap (λ n. result (ltb n 64) (jvm.get_byte_array_elements (bridge s).vm array')) sized
      ∙ (ap (result false) read
          ∙ (ap (λ b. result false (some b, vm)) same
              ∙ load_identity-identity sodium env' (with_vm s vm) id v ready))
