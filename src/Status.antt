-- ===== src/Status.antt =====
-- The return codes of include/bitchat/error.h, and what the environment decides during one call.
use bit_chat.Prelude.{ℕ, Bool, true, false, List, ◌≡◌, refl}

-- `BC_OK` and the negative `BC_ERR…` codes.
pub data Status : Type 0 where
  ok err err_nomem err_invalid err_duplicate err_ttl_expired err_crypto err_storage : Status
  err_transport err_not_implemented err_buffer_too_small : Status

-- `rc == BC_OK`
abbrev pub is_ok : Status → Bool
is_ok ok = true
is_ok _ = false

pub ok_of_is_ok : (rc : Status) → is_ok rc ≡ true → rc ≡ ok
ok_of_is_ok ok h = refl
ok_of_is_ok _ h = cc

-- A request to the allocator: a zeroed struct by its site, or `malloc(n)`.
pub data Request : Type 0 where
  message_struct router_struct store_struct discovery_struct dedup_entries transport_struct :
      Request
  context_struct storage_struct : Request
  bytes : ℕ → Request

-- What one call reads from outside: the clock (`time(NULL)`, one value for the length of the call),
-- the allocator's answers, and the bytes that `randombytes_buf` writes for a size.
pub record Env : Type 0 where
  pub now : ℕ
  pub alloc : Request → Bool
  pub random : ℕ → List ℕ

-- The clock is a 64-bit number of seconds, and memory is not exhausted.
pub record IsAmple (env : Env) : Type 0 where
  pub granted : (r : Request) → env.alloc r ≡ true

-- How a call ends: it returns, it reads memory outside a buffer, or, of a loop on fuel, the fuel runs
-- out.
pub data Run {ℓ} (A : Type ℓ) : Type ℓ where
  returned : A → Run A
  overread unfinished : Run A

infixl 5 ◌>>=◌
abbrev pub ◌>>=◌ {ℓ κ} : {A : Type ℓ} {B : Type κ} → Run A → (A → Run B) → Run B
returned a >>= f = f a
overread >>= f = overread
unfinished >>= f = unfinished

-- A call that returned did so in each of its parts.
pub >>=-eq-returned {ℓ κ} :
    {A : Type ℓ} {B : Type κ} (m : Run A) (f : A → Run B) {b : B}
    → (m >>= f) ≡ returned b
    → (a : A) × (m ≡ returned a) × (f a ≡ returned b)
>>=-eq-returned (returned a) f h = (a, refl, h)
>>=-eq-returned overread f h = cc
>>=-eq-returned unfinished f h = cc

pub returned-injective {ℓ} : {A : Type ℓ} {a b : A} → returned a ≡ returned b → a ≡ b
returned-injective h = cc
