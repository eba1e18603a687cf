-- ===== src/Router/Callbacks.antt =====
-- src/usecase/mesh_router.c: which calls of a router reach its callback. Forwarding and rebroadcasting do
-- not.
use bit_chat.Prelude.{
  ◌≡◌, refl, ◌∙◌, List, [], ◌∷◌, ◌&&◌, Option, none, some, Option-cases, inl, inr, if-keeps,
  replicate,
}
use bit_chat.Status.{Env, is_ok, bytes}
use bit_chat.Message.{Message}
use bit_chat.Message.Serialize.{needed_size, serialize_into}
use bit_chat.Port.{Storage}
use bit_chat.Router.{Router, World, serialize_and_forward, forward_to_peers}
use bit_chat.Router.Tick.{rebroadcast, rebroadcast_all, is_due}

module _ {S T U : Type 0} where
  pub serialize_and_forward-user :
      (env : Env) (r : Router S T U) (m : Message) (w : World S T U)
      → (serialize_and_forward env r m w).user ≡ w.user
  unfolding serialize_and_forward forward_to_peers
  serialize_and_forward-user env r m w =
      let (rc, buf, out_len) = serialize_into m (replicate (needed_size m) 0) in
      if-keeps (λ (v : World S T U). v.user ≡ w.user)
        (env.alloc (bytes (needed_size m)) && is_ok rc) refl refl

  pub rebroadcast_all-user :
      (env : Env) (r : Router S T U) (ms : List Message) (w : World S T U)
      → (rebroadcast_all env r ms w).user ≡ w.user
  unfolding rebroadcast_all
  rebroadcast_all-user env r [] w = refl
  rebroadcast_all-user env r (m ∷ ms) w =
      rebroadcast_all-user env r ms (serialize_and_forward env r m w)
      ∙ serialize_and_forward-user env r m w

  -- Rebroadcasting calls no callback.
  pub rebroadcast-user :
      (env : Env) (storage : Option (Storage S)) (r : Router S T U) (w : World S T U)
      → (rebroadcast env storage r w).1.user ≡ w.user
  unfolding rebroadcast
  rebroadcast-user env none r w = refl
  rebroadcast-user env (some storage) r w = elim (Option-cases storage.get_pending) [
    | inl e ↦ rw e refl
    | inr (get_pending, e) ↦
        let (rc, msgs, s') = get_pending env w.store none in
        let r' : Router S T U = record r { last_sf_tick = env.now } in
        let w' : World S T U = record w { store = s' } in
        rw e (
          if-keeps (λ (o : Router S T U × World S T U). o.1.user ≡ w.user) (is_due env r)
            (if-keeps (λ (v : World S T U). v.user ≡ w.user) (is_ok rc)
              (rebroadcast_all-user env r' msgs w') refl)
            refl)
  ]
