-- ===== src/Ffi/Isolated.antt =====
-- The router behind the API has no neighbours: no function of the API calls `bc_router_add_peer`.
use bit_chat.Prelude.{
  ℕ, ◌≡◌, refl, ap, ◌∙◌, Bool, inl, inr, List, [], arith, Option, none, some, Bool-cases,
  Option-cases, not, if-keeps, if-true, length, ◌+◌, ◌++◌, replicate,
}
use bit_chat.Status.{bytes, Status, is_ok, Env, returned, >>=-eq-returned, returned-injective}
use bit_chat.Sodium.{Sodium, Memcmp}
use bit_chat.Message.{Message}
use bit_chat.Port.{Storage, Transport}
use bit_chat.Router.{Router, World, create, set_on_message}
use bit_chat.Router.Tick as Tick
use bit_chat.Router.Alone.{broadcast_message-peers, tick_router-peers}
use bit_chat.Sqlite.{Engine}
use bit_chat.Sqlite as Sqlite
use bit_chat.Identity.{Identity}
use bit_chat.Identity as Identity
use bit_chat.Message as Message
use bit_chat.Crypto.{nonce_size, tag_size, content, encrypt}
use bit_chat.Ffi.{Shared, State, shared_key}
use bit_chat.Ffi.Api as Api
use bit_chat.Ffi.Api.{with_router, broadcast_made, scan_with}
use bit_chat.Ffi.Calls.{
  Call, Calls, init, generate_identity, load_identity, send_message, poll_messages, start_discovery,
  tick, set_on_message_callback, shutdown, here, next,
}

module _ {S T U : Type 0} where
  -- The router has no neighbours, if there is a router.
  abbrev pub HasNoPeers : Option (Router S T U) → Type 0
  HasNoPeers none = Unit
  HasNoPeers (some r) = r.peers ≡ []

  create-peers :
      (env : Env) (transport : Option (Transport T)) (storage : Option (Storage S)) (key : List ℕ)
      (r : Router S T U)
      → create env transport storage (some key) none ≡ some r
      → r.peers ≡ []
  unfolding create
  create-peers env transport storage key r e = ground arith

  module _ ⦃mem : Memcmp⦄ where
    tick-HasNoPeers :
        (fuel : ℕ) (env : Env) (r r' : Option (Router S T U)) (w w' : World S T U)
        → HasNoPeers r
        → Tick.tick fuel env r w ≡ returned (r', w')
        → HasNoPeers r'
    unfolding Tick.tick
    tick-HasNoPeers fuel env none r' w w' h e = rw (← ap (λ t. t.0) (returned-injective e)) tt
    tick-HasNoPeers fuel env (some r) r' w w' h e =
        let ((q, v), one, more) =
          >>=-eq-returned (Tick.tick_router fuel env r w) (λ (q, v). returned (some q, v)) e in
        rw (← ap (λ t. t.0) (returned-injective more)) (tick_router-peers r q fuel env w v one ∙ h)

module _ ⦃mem : Memcmp⦄ {D V : Type 0} (sodium : Sodium) (engine : Engine D) where
  restart-HasNoPeers :
      (env : Env) (g : State D V)
      → HasNoPeers g.router
      → HasNoPeers (Api.restart sodium env g).1.router
  unfolding Api.restart set_on_message
  restart-HasNoPeers env g h =
      by_router (create env g.transport g.storage (some (Api.shared g).identity.pubkey) none)
        (λ r e. create-peers env g.transport g.storage (Api.shared g).identity.pubkey r e)
    where
      by_router :
          (o : Option (Router D (Unit {0}) (Shared V)))
          → ((r : Router D (Unit {0}) (Shared V)) → o ≡ some r → r.peers ≡ [])
          → HasNoPeers (with_router sodium env g o).1.router
      by_router none p = tt
      by_router (some r) p = p r refl

  with_identity-router :
      (g : State D V) (id : Option Identity) → (Api.with_identity g id).router ≡ g.router
  with_identity-router g none = refl
  with_identity-router g (some id) = refl

  -- A call's result, whose router has no neighbours.
  abbrev Kept : Status × State D V → Type 0
  Kept (rc, g) = HasNoPeers g.router

  abbrev Made : Status × Option (List ℕ) × Option (List ℕ) × State D V → Type 0
  Made (rc, pubkey_out, secret_out, g) = HasNoPeers g.router

  open_storage-router :
      (env : Env) (g : State D V) (o : Option (Storage D × D))
      → (Api.open_storage env g o).1.router ≡ g.router
  unfolding Api.open_storage
  open_storage-router env g none = refl
  open_storage-router env g (some (storage, db)) = refl

  init_locked-router :
      (env : Env) (path : Option (List ℕ)) (g : State D V)
      → (Api.init_locked sodium engine env path g).1.router ≡ g.router
  unfolding Api.init_locked
  init_locked-router env path g =
      ground (arith, open_storage-router env g (Sqlite.create engine env path))

  ensure_mutex-router :
      (mutex_made : Bool) (g : State D V) → (Api.ensure_mutex mutex_made g).1.router ≡ g.router
  unfolding Api.ensure_mutex
  ensure_mutex-router mutex_made g =
      let Same : Status × State D V → Type 0 = λ (rc, g'). g'.router ≡ g.router in
      if-keeps Same g.mutex_initialized refl (if-keeps Same mutex_made refl refl)

  init-router :
      (mutex_made : Bool) (env : Env) (path : Option (List ℕ)) (g : State D V)
      → (Api.init mutex_made sodium engine env path g).1.router ≡ g.router
  unfolding Api.init
  init-router mutex_made env path g =
      let (rc, made) = Api.ensure_mutex mutex_made g in
      let kept = ensure_mutex-router mutex_made g in
      if-keeps (λ (o : Status × State D V). o.1.router ≡ g.router) (is_ok rc)
        (init_locked-router env path made ∙ kept) kept

  broadcast_made-HasNoPeers :
      (env : Env) (g : State D V) (r : Router D (Unit {0}) (Shared V)) (m : Option Message)
      → r.peers ≡ []
      → HasNoPeers g.router
      → HasNoPeers (broadcast_made env g r m).1.router
  broadcast_made-HasNoPeers env g r none e h = h
  broadcast_made-HasNoPeers env g r (some m) e h = broadcast_message-peers env r g.world m ∙ e

  send_plaintext-HasNoPeers :
      (env : Env) (g : State D V) (r : Router D (Unit {0}) (Shared V))
      (recipient plaintext : List ℕ)
      → r.peers ≡ []
      → HasNoPeers g.router
      → HasNoPeers (Api.send_plaintext sodium env g r recipient plaintext).1.router
  unfolding Api.send_plaintext Api.send_result
  send_plaintext-HasNoPeers env g r recipient plaintext e h =
      let (rc, key) = shared_key sodium (Api.shared g).identity recipient in
      let ct_len = length plaintext + tag_size in
      let (rc', ct, iv) =
        encrypt sodium env (some plaintext) key (some (replicate ct_len 0))
          (some (replicate nonce_size 0)) in
      let m =
        Message.create env (some (Api.shared g).identity.pubkey) (some recipient)
          (some (content iv ++ content ct)) in
      if-keeps Kept (not (is_ok rc)) h (
        if-keeps Kept (not (env.alloc (bytes (nonce_size + ct_len)))) h
          (if-keeps Kept (not (is_ok rc')) h (broadcast_made-HasNoPeers env g r m e h)))

  send_message-HasNoPeers :
      (env : Env) (recipient plaintext : Option (List ℕ)) (g : State D V)
      → HasNoPeers g.router
      → HasNoPeers (Api.send_message sodium env recipient plaintext g).1.router
  unfolding Api.send_message
  send_message-HasNoPeers env recipient plaintext g h = by_args recipient plaintext g.router h
    where
      by_args :
          (recipient plaintext : Option (List ℕ)) (o : Option (Router D (Unit {0}) (Shared V)))
          → HasNoPeers o
          → HasNoPeers (Api.send_with sodium env o recipient plaintext g).1.router
      by_args (some key) (some text) (some r) e =
          if-keeps Kept g.initialized (send_plaintext-HasNoPeers env g r key text e h) h
      by_args none text none e = h
      by_args none text (some r) e = h
      by_args (some key) text none e = h
      by_args (some key) none (some r) e = h

  scan-HasNoPeers :
      (env : Env) (g : State D V)
      → HasNoPeers g.router
      → HasNoPeers (Api.start_discovery env g).1.router
  unfolding Api.start_discovery
  scan-HasNoPeers env g h = elim (Bool-cases g.initialized) [
    | inr closed ↦ rw closed h
    | inl ready ↦ elim (Option-cases g.discovery) [
      | inl missing ↦ rw (ready, missing) h
      | inr (d, given) ↦ rw (ready, given) h
    ]
  ]

  generate_identity-HasNoPeers :
      (env : Env) (pubkey_out secret_out : Option (List ℕ)) (g : State D V)
      → HasNoPeers g.router
      → HasNoPeers (Api.generate_identity sodium env pubkey_out secret_out g).3.router
  unfolding Api.generate_identity
  generate_identity-HasNoPeers env pubkey_out secret_out g h =
      let (rc, id) = Identity.generate sodium env (some (Api.shared g).identity) in
      let kept : HasNoPeers (Api.with_identity g id).router = rw (with_identity-router g id) h in
      let fresh = restart-HasNoPeers env (Api.with_identity g id) kept in
      if-keeps Made (not g.initialized) h (if-keeps Made (not (is_ok rc)) kept fresh)

  load_identity-HasNoPeers :
      (env : Env) (identity_data : Option (List ℕ)) (g : State D V)
      → HasNoPeers g.router
      → HasNoPeers (Api.load_identity sodium env identity_data g).1.router
  unfolding Api.load_identity
  load_identity-HasNoPeers env none g h = h
  load_identity-HasNoPeers env (some stored) g h =
      let (rc, id) = Identity.deserialize (some (Api.shared g).identity) (some stored) in
      let kept : HasNoPeers (Api.with_identity g id).router = rw (with_identity-router g id) h in
      let fresh = restart-HasNoPeers env (Api.with_identity g id) kept in
      if-keeps Kept (not g.initialized) h (if-keeps Kept (not (is_ok rc)) kept fresh)

  api_tick-HasNoPeers :
      (fuel : ℕ) (env : Env) (g g' : State D V)
      → HasNoPeers g.router
      → Api.tick fuel env g ≡ returned g'
      → HasNoPeers g'.router
  unfolding Api.tick
  api_tick-HasNoPeers fuel env g g' h e = elim (Bool-cases g.initialized) [
    | inr closed ↦ rw (← returned-injective (rw closed at e)) h
    | inl ready ↦
        let w = record g.world { user = record (Api.shared g) { env = env } } in
        let ((r', w'), one, more) =
          >>=-eq-returned (Tick.tick fuel env g.router w) (λ r. returned (Api.ticked g r))
            (if-true ready _ e) in
        rw (← returned-injective more) (tick-HasNoPeers fuel env g.router r' w w' h one)
  ]

  Call-HasNoPeers :
      (g g' : State D V) → Call sodium engine g g' → HasNoPeers g.router → HasNoPeers g'.router
  unfolding Api.set_on_message_callback Api.shutdown
  Call-HasNoPeers g g' (init mutex_made env path e) h = rw (e, init-router mutex_made env path g) h
  Call-HasNoPeers g g' (generate_identity env pubkey_out secret_out e) h =
      rw e (generate_identity-HasNoPeers env pubkey_out secret_out g h)
  Call-HasNoPeers g g' (load_identity env identity_data e) h =
      rw e (load_identity-HasNoPeers env identity_data g h)
  Call-HasNoPeers g g' (send_message env recipient plaintext e) h =
      rw e (send_message-HasNoPeers env recipient plaintext g h)
  Call-HasNoPeers g g' (poll_messages buf msg_len sender e) h = rw e h
  Call-HasNoPeers g g' (start_discovery env e) h = rw e (scan-HasNoPeers env g h)
  Call-HasNoPeers g g' (tick fuel env e) h = api_tick-HasNoPeers fuel env g g' h e
  Call-HasNoPeers g g' (set_on_message_callback callback e) h = elim (Bool-cases g.initialized) [
    | inr closed ↦ rw (e, closed) h
    | inl ready ↦ rw (e, ready) h
  ]
  Call-HasNoPeers g g' (shutdown e) h = elim (Bool-cases g.initialized) [
    | inr closed ↦ rw (e, closed) h
    | inl ready ↦ rw (e, ready) tt
  ]

  -- From a state without a router on, no sequence of API calls that return gives the router a neighbour:
  -- whatever discovery finds, `forward_to_peers` has nobody to send to.
  pub Calls-HasNoPeers :
      (g g' : State D V) → g.router ≡ none → Calls sodium engine g g' → HasNoPeers g'.router
  Calls-HasNoPeers g g' e here = rw e tt
  Calls-HasNoPeers g g'' e (next {g'} calls call) =
      Call-HasNoPeers g' g'' call (Calls-HasNoPeers g g' e calls)
