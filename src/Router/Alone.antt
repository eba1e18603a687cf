-- ===== src/Router/Alone.antt =====
-- Which operations leave the neighbours as they are: all but `bc_router_add_peer`.
use bit_chat.Prelude.{
  ℕ, zero, suc, ◌≡◌, refl, inl, inr, ap, ◌∙◌, ◌&&◌, List, arith, ltb, ◌==◌, Option, none, some,
  Bool-cases, Option-cases, length,
}
use bit_chat.Status.{Status, Env, returned, >>=-eq-returned, returned-injective, is_ok}
use bit_chat.Sodium.{Memcmp}
use bit_chat.Message.{Message}
use bit_chat.Message.Deserialize.{Parsed, null, fault, parsed, deserialize}
use bit_chat.Port.{Storage, Transport}
use bit_chat.Router.{
  Router, World, broadcast_message, receive_message, receive_parsed, receive_packet,
}
use bit_chat.Router.Tick.{
  evict_seen, rebroadcast, poll_buffer_size, poll_loop, poll, tick_router, evict_stored,
}

module _ {S T U : Type 0} where
  -- `bc_router_broadcast` leaves the neighbours.
  pub broadcast_message-peers :
      (env : Env) (r : Router S T U) (w : World S T U) (m : Message)
      → (broadcast_message env r w m).1.peers ≡ r.peers
  unfolding broadcast_message
  broadcast_message-peers env r w m = ground arith

  rebroadcast-peers :
      (env : Env) (storage : Option (Storage S)) (r : Router S T U) (w : World S T U)
      → (rebroadcast env storage r w).0.peers ≡ r.peers
  unfolding rebroadcast
  rebroadcast-peers env none r w = refl
  rebroadcast-peers env (some storage) r w = elim (Option-cases storage.get_pending) [
    | inl e ↦ rw e refl
    | inr (get_pending, e) ↦ rw e (ground arith)
  ]

  module _ ⦃mem : Memcmp⦄ where
    receive_message-peers :
        (env : Env) (r : Router S T U) (w : World S T U) (m : Message)
        → (receive_message env r w m).1.peers ≡ r.peers
    unfolding receive_message
    receive_message-peers env r w m = ground arith

    -- `bc_router_receive` leaves the neighbours.
    pub receive_packet-peers :
        (r r' : Router S T U) (env : Env) (w w' : World S T U) (packet : Option (List ℕ))
        (rc : Status)
        → receive_packet env r w packet ≡ returned (rc, r', w')
        → r'.peers ≡ r.peers
    unfolding receive_packet receive_parsed
    receive_packet-peers r r' env w w' none rc e = ground arith
    receive_packet-peers r r' env w w' (some packet) rc e = elim (Bool-cases (length packet == 0)) [
      | inl empty ↦ let e' = rw empty at e in ground arith
      | inr more ↦ by_parse (deserialize env (some packet)) (rw more at e)
    ]
      where
        by_parse :
            (p : Parsed) → receive_parsed env r w p ≡ returned (rc, r', w') → r'.peers ≡ r.peers
        by_parse null h = ground arith
        by_parse fault h = ground arith
        by_parse (parsed m) h = ground (arith, receive_message-peers env r w m)

    poll_loop-peers :
        (fuel : ℕ) (r r' : Router S T U) (env : Env) (recv : T → ℕ → Status × List ℕ × List ℕ × T)
        (w w' : World S T U)
        → poll_loop fuel env recv r w ≡ returned (r', w')
        → r'.peers ≡ r.peers
    unfolding poll_loop
    poll_loop-peers zero r r' env recv w w' e = cc
    poll_loop-peers (suc fuel) r r' env recv w w' e =
        let (rc, packet, key, net') = recv w.net poll_buffer_size in
        let w₁ : World S T U = record w { net = net' } in
        elim (Bool-cases (is_ok rc && ltb 0 (length packet))) [
          | inr idle ↦ rw (← ap (λ t. t.0) (returned-injective (rw idle at e))) refl
          | inl busy ↦
              let ((rc', r'', w''), one, more) =
                >>=-eq-returned (receive_packet env r w₁ (some packet))
                  (λ (_, r'', w''). poll_loop fuel env recv r'' w'') (rw busy at e) in
              poll_loop-peers fuel r'' r' env recv w'' w' more
              ∙ receive_packet-peers r r'' env w₁ w'' (some packet) rc' one
        ]

    poll-peers :
        (fuel : ℕ) (r r' : Router S T U) (env : Env) (transport : Option (Transport T))
        (w w' : World S T U)
        → poll fuel env transport r w ≡ returned (r', w')
        → r'.peers ≡ r.peers
    unfolding poll
    poll-peers fuel r r' env none w w' e = rw (← ap (λ t. t.0) (returned-injective e)) refl
    poll-peers fuel r r' env (some t) w w' e = elim (Option-cases t.recv) [
      | inl missing ↦ rw (← ap (λ t. t.0) (returned-injective (rw missing at e))) refl
      | inr (recv, given) ↦ poll_loop-peers fuel r r' env recv w w' (rw given at e)
    ]

    -- `bc_router_tick` leaves the neighbours.
    pub tick_router-peers :
        (r r' : Router S T U) (fuel : ℕ) (env : Env) (w w' : World S T U)
        → tick_router fuel env r w ≡ returned (r', w')
        → r'.peers ≡ r.peers
    unfolding tick_router
    tick_router-peers r r' fuel env w w' e =
        let (polled, one, more) =
          >>=-eq-returned (poll fuel env (evict_seen env r).transport (evict_seen env r) w)
            (λ (p, w₂).
              let (r₃, w₃) = rebroadcast env p.storage p w₂ in
              returned (r₃, record w₃ { store = evict_stored env r₃.storage w₃.store }))
            e in
        rw (← ap (λ t. t.0) (returned-injective more)) (
          rebroadcast-peers env polled.0.storage polled.0 polled.1
          ∙ poll-peers fuel (evict_seen env r) polled.0 env (evict_seen env r).transport w polled.1
              one)
