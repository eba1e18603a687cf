-- ===== src/Ffi/Calls.antt =====
-- The life of the state of src/bridge/bitchat_ffi.c, as the calls of its API that change it.
use bit_chat.Prelude.{ℕ, ◌≡◌, Bool, List, Option}
use bit_chat.Status.{Env, returned}
use bit_chat.Sodium.{Sodium, Memcmp}
use bit_chat.Sqlite.{Engine}
use bit_chat.Ffi.{State}
use bit_chat.Ffi.Inbox as Inbox
use bit_chat.Ffi.Api as Api
use bit_chat.Ffi.Api.{with_router, broadcast_made, scan_with}

module _ ⦃mem : Memcmp⦄ {D V : Type 0} (sodium : Sodium) (engine : Engine D) where
  -- One call of the API that returns, with any arguments and in any environment.
  pub data Call (g g' : State D V) : Type 0 where
    init :
        (mutex_made : Bool) (env : Env) (path : Option (List ℕ))
        → g' ≡ (Api.init mutex_made sodium engine env path g).1
        → Call g g'
    generate_identity :
        (env : Env) (pubkey_out secret_out : Option (List ℕ))
        → g' ≡ (Api.generate_identity sodium env pubkey_out secret_out g).3
        → Call g g'
    load_identity :
        (env : Env) (identity_data : Option (List ℕ))
        → g' ≡ (Api.load_identity sodium env identity_data g).1
        → Call g g'
    send_message :
        (env : Env) (recipient plaintext : Option (List ℕ))
        → g' ≡ (Api.send_message sodium env recipient plaintext g).1
        → Call g g'
    poll_messages :
        (buf : Option (List ℕ)) (msg_len : Option ℕ) (sender : Option (List ℕ))
        → g'
          ≡ Api.with_shared g
              (Inbox.poll_messages g.initialized sodium (Api.shared g) buf msg_len sender).2
        → Call g g'
    start_discovery : (env : Env) → g' ≡ (Api.start_discovery env g).1 → Call g g'
    tick : (fuel : ℕ) (env : Env) → Api.tick fuel env g ≡ returned g' → Call g g'
    set_on_message_callback :
        (callback : Option (List ℕ → List ℕ → V → V))
        → g' ≡ (Api.set_on_message_callback callback g).1
        → Call g g'
    shutdown : g' ≡ Api.shutdown g → Call g g'

  pub data Calls (g : State D V) : State D V → Type 0 where
    here : Calls g g
    next : {g' g'' : State D V} → Calls g g' → Call g' g'' → Calls g g''
