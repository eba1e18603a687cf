-- ===== src/Router/Rounds.antt =====
-- `bc_router_tick` of src/usecase/mesh_router.c: a round of maintenance changes no part of the router, and
-- keeps what sends, receives and the callback keep.
use bit_chat.Prelude.{
  ℕ, zero, suc, ◌≡◌, sym, subst, List, [], ◌∷◌, ◌&&◌, ltb, Option, none, some, length, Bool-cases,
  Option-cases, inl, inr, if-keeps,
}
use bit_chat.Status.{Status, Env, is_ok, returned, returned-injective, >>=-eq-returned}
use bit_chat.Sodium.{Memcmp}
use bit_chat.Message.{Message}
use bit_chat.Port.{Storage, Transport}
use bit_chat.Router.{Router, World, receive_packet, serialize_and_forward}
use bit_chat.Router.Keeps.{serialize_and_forward-keeps}
use bit_chat.Router.Callbacks.{rebroadcast_all-user}
use bit_chat.Router.Tick.{
  evict_seen, rebroadcast, rebroadcast_all, is_due, poll_buffer_size, poll_loop, poll, tick_router,
  evict_stored,
}
use bit_chat.Router.Parts.{IsFixed, IsReceived, IsClosed, Beside, sends-at, receive_packet-Beside}

module _ {S T U : Type 0} (P : T → Type 0) (Q : U → Type 0) (r₀ : Router S T U) where
  module _ ⦃mem : Memcmp⦄ where
    poll_loop-Beside :
        IsClosed P Q r₀
        → (fuel : ℕ) {r r' : Router S T U} (env : Env) (recv : T → ℕ → Status × List ℕ × List ℕ × T)
          (w w' : World S T U)
        → ((net : T) (n : ℕ) → P net → P (recv net n).3)
        → Beside P Q r₀ r w
        → poll_loop fuel env recv r w ≡ returned (r', w')
        → Beside P Q r₀ r' w'
    unfolding poll_loop
    poll_loop-Beside k zero env recv w w' kept b e = cc
    poll_loop-Beside k (suc fuel) {r} {r'} env recv w w' kept (f, p, q) e =
        let (rc, packet, key, net') = recv w.net poll_buffer_size in
        let w₁ : World S T U = record w { net = net' } in
        let p₁ = kept w.net poll_buffer_size p in
        elim (Bool-cases (is_ok rc && ltb 0 (length packet))) [
          | inr idle ↦
              subst (λ (o : Router S T U × World S T U). Beside P Q r₀ o.0 o.1)
                (returned-injective (rw idle at e)) (f, p₁, q)
          | inl busy ↦
              let ((rc', r'', w''), one, more) =
                >>=-eq-returned (receive_packet env r w₁ (some packet))
                  (λ (_, r'', w''). poll_loop fuel env recv r'' w'') (rw busy at e) in
              poll_loop-Beside k fuel env recv w'' w' kept
                (receive_packet-Beside P Q r₀ k env w₁ (some packet) (f, p₁, q) one) more
        ]

    poll-Beside :
        IsClosed P Q r₀
        → (fuel : ℕ) {r r' : Router S T U} (env : Env) (transport : Option (Transport T))
          (w w' : World S T U)
        → IsReceived P transport
        → Beside P Q r₀ r w
        → poll fuel env transport r w ≡ returned (r', w')
        → Beside P Q r₀ r' w'
    unfolding poll
    poll-Beside k fuel env none w w' kept b e =
        subst (λ (o : Router S T U × World S T U). Beside P Q r₀ o.0 o.1) (returned-injective e) b
    poll-Beside k fuel {r} {r'} env (some t) w w' kept b e = elim (Option-cases t.recv) [
      | inl missing ↦
          subst (λ (o : Router S T U × World S T U). Beside P Q r₀ o.0 o.1)
            (returned-injective (rw missing at e)) b
      | inr (recv, given) ↦
          poll_loop-Beside k fuel env recv w w' (kept recv given) b (rw given at e)
    ]

  rebroadcast_all-Beside :
      IsClosed P Q r₀
      → {r : Router S T U} (env : Env) (ms : List Message) (w : World S T U) → IsFixed r₀ r
      → P w.net
      → P (rebroadcast_all env r ms w).net
  unfolding rebroadcast_all
  rebroadcast_all-Beside k env [] w f p = p
  rebroadcast_all-Beside k {r} env (m ∷ ms) w f p =
      rebroadcast_all-Beside k env ms (serialize_and_forward env r m w) f
        (serialize_and_forward-keeps P env r m w (sends-at P Q r₀ k f) p)

  rebroadcast-Beside :
      IsClosed P Q r₀
      → {r : Router S T U} (env : Env) (storage : Option (Storage S)) (w : World S T U)
      → Beside P Q r₀ r w
      → let (r', w') = rebroadcast env storage r w in Beside P Q r₀ r' w'
  unfolding rebroadcast
  rebroadcast-Beside k env none w b = b
  rebroadcast-Beside k {r} env (some storage) w (f, p, q) =
      elim (Option-cases storage.get_pending) [
        | inl e ↦ rw e (f, p, q)
        | inr (get_pending, e) ↦
            let (rc, msgs, s') = get_pending env w.store none in
            let r' : Router S T U = record r { last_sf_tick = env.now } in
            let w₁ : World S T U = record w { store = s' } in
            let f' : IsFixed r₀ r' = record {
              transport = f.transport;
              storage = f.storage;
              config = f.config;
              local_pubkey = f.local_pubkey;
              on_message = f.on_message;
            } in
            let J : Router S T U × World S T U → Type 0 = λ (r', w'). Beside P Q r₀ r' w' in
            let sent = rebroadcast_all-Beside k env msgs w₁ f' p in
            let told = subst Q (sym (rebroadcast_all-user env r' msgs w₁)) q in
            rw e (
              if-keeps J (is_due env r)
                (if-keeps (λ w'. J (r', w')) (is_ok rc) (f', sent, told) (f', p, q)) (f, p, q))
      ]

  module _ ⦃mem : Memcmp⦄ where
    -- `bc_router_tick`, where it returns.
    pub tick_router-Beside :
        IsClosed P Q r₀
        → {r r' : Router S T U} (fuel : ℕ) (env : Env) (w w' : World S T U) → Beside P Q r₀ r w
        → tick_router fuel env r w ≡ returned (r', w')
        → Beside P Q r₀ r' w'
    unfolding tick_router
    tick_router-Beside k {r} {r'} fuel env w w' (f, p, q) e =
        let evicted = evict_seen env r in
        let f' : IsFixed r₀ evicted = record {
          transport = f.transport;
          storage = f.storage;
          config = f.config;
          local_pubkey = f.local_pubkey;
          on_message = f.on_message;
        } in
        let receives = subst (IsReceived P) (sym f.transport) k.receives in
        let (polled, one, more) =
          >>=-eq-returned (poll fuel env evicted.transport evicted w)
            (λ (p, w₂).
              let (r₃, w₃) = rebroadcast env p.storage p w₂ in
              returned (r₃, record w₃ { store = evict_stored env r₃.storage w₃.store }))
            e in
        let J : Router S T U × World S T U → Type 0 = λ (r', w'). Beside P Q r₀ r' w' in
        let b = poll-Beside k fuel env evicted.transport w polled.1 receives (f', p, q) one in
        subst J (returned-injective more) (rebroadcast-Beside k env polled.0.storage polled.1 b)
