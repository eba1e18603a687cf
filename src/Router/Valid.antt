-- ===== src/Router/Valid.antt =====
-- The invariant of a router, and that every operation keeps it.
use bit_chat.Prelude.{
  ℕ, zero, suc, ◌≤◌, ◌<◌, ◌≡◌, inl, inr, ap, ◌∙◌, ◌&&◌, List, arith, ltb, ◌==◌, Option, none, some,
  Bool-cases, Option-cases, length, length-replicate,
}
use bit_chat.Status.{Status, Env, returned, >>=-eq-returned, returned-injective, is_ok}
use bit_chat.Sodium.{Memcmp}
use bit_chat.Message.{Message}
use bit_chat.Message.Deserialize.{Parsed, null, fault, parsed, deserialize}
use bit_chat.Peer.{Peer, max_peers}
use bit_chat.Port.{Storage, Transport}
use bit_chat.Dedup
use bit_chat.Dedup.Insert.{length-insert}
use bit_chat.Dedup.Evict.{length-evict}
use bit_chat.Router.{
  Router, World, Config, config_or_default, create, mark_seen, broadcast_message, receive_message,
  receive_parsed, receive_packet,
}
use bit_chat.Router.Peers.{add_to}
use bit_chat.Router.PeerTable.{keys, AreDistinct, add_to-AreDistinct}
use bit_chat.Router.Tick.{
  evict_seen, rebroadcast, poll_buffer_size, poll_loop, poll, tick_router, evict_stored,
}

-- The dedup table has its capacity, which is not 0, and the peers fit their array, each key once.
pub record IsValid {S T U : Type 0} (r : Router S T U) : Type 0 where
  pub sized : length r.dedup_table ≡ r.dedup_cap
  pub pos : 0 < r.dedup_cap
  pub few : length r.peers ≤ max_peers
  pub distinct : AreDistinct (keys r.peers)

module _ {S T U : Type 0} where
  -- A new router is valid, if its configuration gives the dedup cache a slot.
  pub create-IsValid :
      (env : Env) (transport : Option (Transport T)) (storage : Option (Storage S))
      (key : Option (List ℕ)) (config : Option Config) {r : Router S T U}
      → 0 < (config_or_default config).dedup_cap
      → create env transport storage key config ≡ some r
      → IsValid r
  unfolding create
  create-IsValid env transport storage none config h e = cc
  create-IsValid env transport storage (some key) config h e =
      ground (arith, length-replicate (config_or_default config).dedup_cap Dedup.blank)

  pub mark_seen-IsValid :
      {r : Router S T U} (env : Env) (uuid : List ℕ) → IsValid r → IsValid (mark_seen env r uuid)
  mark_seen-IsValid {r} env uuid v = record {
    sized =
        length-insert r.dedup_table r.dedup_cap r.config.dedup_max_age uuid env.now v.pos ∙ v.sized;
    pos = v.pos;
    few = v.few;
    distinct = v.distinct;
  }

  pub evict_seen-IsValid : {r : Router S T U} (env : Env) → IsValid r → IsValid (evict_seen env r)
  evict_seen-IsValid {r} env v = record {
    sized = length-evict r.dedup_table r.config.dedup_max_age env.now ∙ v.sized;
    pos = v.pos;
    few = v.few;
    distinct = v.distinct;
  }

  -- `bc_router_broadcast` keeps the invariant, whatever its result.
  pub broadcast_message-IsValid :
      {r : Router S T U} (env : Env) (w : World S T U) (m : Message)
      → IsValid r
      → IsValid (broadcast_message env r w m).1
  unfolding broadcast_message
  broadcast_message-IsValid {r} env w m v = ground (arith, mark_seen-IsValid env m.uuid v)

  -- Rebroadcasting changes the time of the last round at most.
  rebroadcast-IsValid :
      {r : Router S T U} (env : Env) (storage : Option (Storage S)) (w : World S T U)
      → IsValid r
      → IsValid (rebroadcast env storage r w).0
  unfolding rebroadcast
  rebroadcast-IsValid env none w v = v
  rebroadcast-IsValid {r} env (some storage) w v = elim (Option-cases storage.get_pending) [
    | inl e ↦ rw e v
    | inr (get_pending, e) ↦ rw e (ground arith)
  ]

  module _ ⦃mem : Memcmp⦄ where
    pub receive_message-IsValid :
        {r : Router S T U} (env : Env) (w : World S T U) (m : Message)
        → IsValid r
        → IsValid (receive_message env r w m).1
    unfolding receive_message
    receive_message-IsValid {r} env w m v = ground (arith, mark_seen-IsValid env m.uuid v)

    -- `bc_router_receive` keeps the invariant, whatever the packet and the result.
    pub receive_packet-IsValid :
        {r r' : Router S T U} (env : Env) (w w' : World S T U) (packet : Option (List ℕ))
        (rc : Status)
        → IsValid r
        → receive_packet env r w packet ≡ returned (rc, r', w')
        → IsValid r'
    unfolding receive_packet receive_parsed
    receive_packet-IsValid env w w' none rc v e = ground arith
    receive_packet-IsValid {r} {r'} env w w' (some packet) rc v e =
        elim (Bool-cases (length packet == 0)) [
          | inl empty ↦ let e' = rw empty at e in ground arith
          | inr more ↦ by_parse (deserialize env (some packet)) (rw more at e)
        ]
      where
        by_parse : (p : Parsed) → receive_parsed env r w p ≡ returned (rc, r', w') → IsValid r'
        by_parse null h = ground arith
        by_parse fault h = ground arith
        by_parse (parsed m) h = ground (arith, receive_message-IsValid env w m v)

    -- `bc_router_add_peer` keeps the invariant.
    pub add_to-IsValid :
        {r : Router S T U} (env : Env) (peer : Peer)
        → IsValid r
        → IsValid (record r { peers = add_to env peer r.peers })
    add_to-IsValid {r} env peer v =
        let (distinct, few) = add_to-AreDistinct env peer r.peers v.distinct v.few in
        record { sized = v.sized; pos = v.pos; few = few; distinct = distinct }

    -- The polling loop keeps the invariant, whatever the transport hands over.
    poll_loop-IsValid :
        (fuel : ℕ) {r r' : Router S T U} (env : Env) (recv : T → ℕ → Status × List ℕ × List ℕ × T)
        (w w' : World S T U)
        → IsValid r
        → poll_loop fuel env recv r w ≡ returned (r', w')
        → IsValid r'
    unfolding poll_loop
    poll_loop-IsValid zero env recv w w' v e = cc
    poll_loop-IsValid (suc fuel) {r} {r'} env recv w w' v e =
        let (rc, packet, key, net') = recv w.net poll_buffer_size in
        let w₁ : World S T U = record w { net = net' } in
        elim (Bool-cases (is_ok rc && ltb 0 (length packet))) [
          | inr idle ↦ rw (← ap (λ t. t.0) (returned-injective (rw idle at e))) v
          | inl busy ↦
              let ((rc', r'', w''), one, more) =
                >>=-eq-returned (receive_packet env r w₁ (some packet))
                  (λ (_, r'', w''). poll_loop fuel env recv r'' w'') (rw busy at e) in
              poll_loop-IsValid fuel env recv w'' w'
                (receive_packet-IsValid env w₁ w'' (some packet) rc' v one) more
        ]

    poll-IsValid :
        (fuel : ℕ) {r r' : Router S T U} (env : Env) (transport : Option (Transport T))
        (w w' : World S T U)
        → IsValid r
        → poll fuel env transport r w ≡ returned (r', w')
        → IsValid r'
    unfolding poll
    poll-IsValid fuel env none w w' v e = rw (← ap (λ t. t.0) (returned-injective e)) v
    poll-IsValid fuel {r} {r'} env (some t) w w' v e = elim (Option-cases t.recv) [
      | inl missing ↦ rw (← ap (λ t. t.0) (returned-injective (rw missing at e))) v
      | inr (recv, given) ↦ poll_loop-IsValid fuel env recv w w' v (rw given at e)
    ]

    -- `bc_router_tick` keeps the invariant.
    pub tick_router-IsValid :
        {r r' : Router S T U} (fuel : ℕ) (env : Env) (w w' : World S T U)
        → IsValid r
        → tick_router fuel env r w ≡ returned (r', w')
        → IsValid r'
    unfolding tick_router
    tick_router-IsValid {r} {r'} fuel env w w' v e =
        let (polled, one, more) =
          >>=-eq-returned (poll fuel env (evict_seen env r).transport (evict_seen env r) w)
            (λ (p, w₂).
              let (r₃, w₃) = rebroadcast env p.storage p w₂ in
              returned (r₃, record w₃ { store = evict_stored env r₃.storage w₃.store }))
            e in
        rw (← ap (λ t. t.0) (returned-injective more)) (
          rebroadcast-IsValid env polled.0.storage polled.1 (
            poll-IsValid fuel env (evict_seen env r).transport w polled.1 (evict_seen-IsValid env v)
              one))
