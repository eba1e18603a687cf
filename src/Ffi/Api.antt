-- ===== src/Ffi/Api.antt =====
-- src/bridge/bitchat_ffi.c: the public functions. A pointer that may be NULL is an option, an output
-- pointer what it points to before the call, and afterwards. The lock makes each function atomic.
use bit_chat.Prelude.{
  ℕ, ◌+◌, ◌++◌, Bool, true, false, not, List, Option, none, some, if◌then◌else◌, length, drop,
  replicate,
}
use bit_chat.Status.{
  Status, ok, err, err_nomem, err_invalid, err_storage, is_ok, Env, bytes, Run, returned, ◌>>=◌,
}
use bit_chat.Sodium.{Sodium, Memcmp}
use bit_chat.Message.{Message}
use bit_chat.Message as Message
use bit_chat.Identity.{Identity}
use bit_chat.Identity as Identity
use bit_chat.Crypto.{nonce_size, tag_size, content, encrypt}
use bit_chat.Crypto as Crypto
use bit_chat.Port.{Storage, destroy_storage, destroy_transport}
use bit_chat.Router.{Router, World}
use bit_chat.Router as Router
use bit_chat.Router.Tick as Tick
use bit_chat.Discovery as Discovery
use bit_chat.Discovery.{Discovery}
use bit_chat.Stub.{ble_create}
use bit_chat.Sqlite.{Engine}
use bit_chat.Sqlite as Sqlite
use bit_chat.Ffi.{Shared, State, shared_key, on_message_received}

-- `if (out) memcpy(out, field, n)`
abbrev pub copy_out : Option (List ℕ) → List ℕ → Option (List ℕ)
copy_out none field = none
copy_out (some out) field = some (field ++ drop (length field) out)

module _ {D V : Type 0} where
  abbrev pub shared : State D V → Shared V
  shared g = g.world.user

  abbrev pub with_shared : State D V → Shared V → State D V
  with_shared g s = record g { world = record g.world { user = s } }

  -- What follows `bc_storage_sqlite_create`.
  unfoldable pub open_storage : Env → State D V → Option (Storage D × D) → Status × State D V
  open_storage env g none = (err_storage, record g { storage = none })
  open_storage env g (some (storage, db)) = (
    ok,
    record g {
      initialized = true;
      storage = some storage;
      transport = ble_create env;
      world = record g.world { store = db };
    },
  )

  -- `bitchat_init`, behind `ensure_mutex`.
  unfoldable pub init_locked :
      Sodium → Engine D → Env → Option (List ℕ) → State D V → Status × State D V
  init_locked sodium engine env path g =
      if g.initialized
      then (ok, g)
      else if is_ok (Crypto.init sodium)
      then open_storage env g (Sqlite.create engine env path)
      else (Crypto.init sodium, g)

  -- `ensure_mutex`; the first argument is whether `pthread_mutex_init` gives 0.
  unfoldable pub ensure_mutex : Bool → State D V → Status × State D V
  ensure_mutex mutex_made g =
      if g.mutex_initialized
      then (ok, g)
      else if mutex_made
      then (ok, record g { mutex_initialized = true })
      else (err, g)

  -- `bitchat_init`
  unfoldable pub init :
      Bool → Sodium → Engine D → Env → Option (List ℕ) → State D V → Status × State D V
  init mutex_made sodium engine env path g =
      let (rc, g') = ensure_mutex mutex_made g in
      if is_ok rc then init_locked sodium engine env path g' else (rc, g')

  abbrev pub with_router :
      Sodium → Env → State D V → Option (Router D (Unit {0}) (Shared V)) → Status × State D V
  with_router sodium env g none = (err_nomem, record g { router = none })
  with_router sodium env g (some r) = (
    ok,
    record g {
      router = Router.set_on_message (some r) (some (on_message_received sodium));
      discovery = Discovery.create env g.transport;
    },
  )

  -- The end of `bitchat_generate_identity` and of `bitchat_load_identity`.
  unfoldable pub restart : Sodium → Env → State D V → Status × State D V
  restart sodium env g =
      with_router sodium env g
        (Router.create env g.transport g.storage (some (shared g).identity.pubkey) none)

  -- `g_state.identity` after a call with its address.
  abbrev pub with_identity : State D V → Option Identity → State D V
  with_identity g none = g
  with_identity g (some id) = with_shared g (record (shared g) { identity = id })

  -- `bitchat_generate_identity`: the status, the two outputs and the state.
  unfoldable pub generate_identity :
      Sodium
      → Env
      → Option (List ℕ)
      → Option (List ℕ)
      → State D V
      → Status × Option (List ℕ) × Option (List ℕ) × State D V
  generate_identity sodium env pubkey_out secret_out g =
      let (rc, id) = Identity.generate sodium env (some (shared g).identity) in
      let g' = with_identity g id in
      let (rc', g'') = restart sodium env g' in
      if not g.initialized
      then (err, pubkey_out, secret_out, g)
      else if not (is_ok rc)
      then (rc, pubkey_out, secret_out, g')
      else (
        rc',
        copy_out pubkey_out (shared g').identity.pubkey,
        copy_out secret_out (shared g').identity.secret_key,
        g'',
      )

  -- `bitchat_load_identity`
  unfoldable pub load_identity : Sodium → Env → Option (List ℕ) → State D V → Status × State D V
  load_identity sodium env none g = (err_invalid, g)
  load_identity sodium env (some identity_data) g =
      let (rc, id) = Identity.deserialize (some (shared g).identity) (some identity_data) in
      let g' = with_identity g id in
      if not g.initialized
      then (err_invalid, g)
      else if not (is_ok rc)
      then (rc, g')
      else restart sodium env g'

  -- The end of `bitchat_send_message`, on what `bc_message_create` gave.
  abbrev pub broadcast_made :
      Env → State D V → Router D (Unit {0}) (Shared V) → Option Message → Status × State D V
  broadcast_made env g r none = (err_nomem, g)
  broadcast_made env g r (some m) =
      let (rc, r', w') = Router.broadcast_message env r g.world m in
      (rc, record g { router = some r'; world = w' })

  -- The returns of `bitchat_send_message`, on the results of its calls.
  unfoldable pub send_result :
      Env
      → State D V
      → Router D (Unit {0}) (Shared V)
      → Status
      → Bool
      → Status
      → Option Message
      → Status × State D V
  send_result env g r derived granted sealed m =
      if not (is_ok derived)
      then (derived, g)
      else if not granted
      then (err_nomem, g)
      else if not (is_ok sealed)
      then (sealed, g)
      else broadcast_made env g r m

  -- `bitchat_send_message`, behind its guard.
  unfoldable pub send_plaintext :
      Sodium
      → Env
      → State D V
      → Router D (Unit {0}) (Shared V)
      → List ℕ
      → List ℕ
      → Status × State D V
  send_plaintext sodium env g r recipient plaintext =
      let (rc, key) = shared_key sodium (shared g).identity recipient in
      let ct_len = length plaintext + tag_size in
      let (rc', ct, iv) =
        encrypt sodium env (some plaintext) key (some (replicate ct_len 0))
          (some (replicate nonce_size 0)) in
      let payload = content iv ++ content ct in
      let m =
        Message.create env (some (shared g).identity.pubkey) (some recipient) (some payload) in
      send_result env g r rc (env.alloc (bytes (nonce_size + ct_len))) rc' m

  abbrev pub send_with :
      Sodium
      → Env
      → Option (Router D (Unit {0}) (Shared V))
      → Option (List ℕ)
      → Option (List ℕ)
      → State D V
      → Status × State D V
  send_with sodium env (some r) (some recipient) (some plaintext) g =
      if g.initialized then send_plaintext sodium env g r recipient plaintext else (err_invalid, g)
  send_with sodium env r recipient plaintext g = (err_invalid, g)

  -- `bitchat_send_message`
  unfoldable pub send_message :
      Sodium → Env → Option (List ℕ) → Option (List ℕ) → State D V → Status × State D V
  send_message sodium env recipient plaintext g =
      send_with sodium env g.router recipient plaintext g

  -- `bc_discovery_scan(g_state.discovery)`.
  abbrev pub scan_with :
      ⦃mem : Memcmp⦄
      → Env
      → State D V
      → Option (Discovery (Unit {0}) (Shared V))
      → Status × State D V
  scan_with env g none = (err, g)
  scan_with env g (some d) =
      let (rc, d', net', user') = Discovery.scan env (some d) g.world.net g.world.user in
      (rc, record g { discovery = d'; world = record g.world { net = net'; user = user' } })

  -- `bitchat_start_discovery`
  unfoldable pub start_discovery : ⦃mem : Memcmp⦄ → Env → State D V → Status × State D V
  start_discovery env g = if g.initialized then scan_with env g g.discovery else (err, g)

  abbrev pub ticked :
      State D V
      → Option (Router D (Unit {0}) (Shared V)) × World D (Unit {0}) (Shared V)
      → State D V
  ticked g (r, w) = record g { router = r; world = w }

  -- `bitchat_tick`; the router's callback runs in this call's environment.
  unfoldable pub tick : ⦃mem : Memcmp⦄ → ℕ → Env → State D V → Run (State D V)
  tick fuel env g =
      let w = record g.world { user = record (shared g) { env = env } } in
      let run = Tick.tick fuel env g.router w >>= λ r. returned (ticked g r) in
      if g.initialized then run else returned g

  -- `bitchat_set_on_message_callback`
  unfoldable pub set_on_message_callback :
      Option (List ℕ → List ℕ → V → V) → State D V → Status × State D V
  set_on_message_callback callback g =
      if g.initialized
      then (ok, with_shared g (record (shared g) { user_callback = callback }))
      else (err, g)

  -- `bitchat_shutdown`; what only frees memory is left out, and the inbox is drained to its head. That the
  -- mutex is destroyed is `mutex_initialized = false`.
  unfoldable pub shutdown : State D V → State D V
  shutdown g =
      let w = g.world in
      let closed = record g {
        world = record w {
          store = destroy_storage g.storage w.store;
          net = destroy_transport g.transport w.net;
          user = record w.user { user_callback = none };
        };
      } in
      let g' = with_identity closed (Identity.wipe (some (shared closed).identity)) in
      if g.initialized
      then record (with_shared g' (record (shared g') { inbox_head = 0; inbox_tail = 0 })) {
        initialized = false;
        mutex_initialized = false;
        transport = none;
        storage = none;
        router = none;
        discovery = none;
      }
      else g
