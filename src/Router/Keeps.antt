-- ===== src/Router/Keeps.antt =====
-- What every send keeps, a call of the router keeps: the transport is touched by sends alone.
use bit_chat.Prelude.{
  ℕ, ◌+◌, ◌-◌, ◌≡◌, refl, inl, inr, ◌&&◌, ◌<◌, true, lt→ltb, List, [], ◌∷◌, ltb, ◌==◌, Option, none,
  some, Bool-cases, length, replicate, take, if-keeps, if◌then◌else◌,
}
use mathlib.Core.Path.{subst}
use bit_chat.Status.{Status, Env, bytes, returned, returned-injective, is_ok}
use bit_chat.Sodium.{Memcmp}
use bit_chat.Message.{Message}
use bit_chat.Message.Serialize.{needed_size, serialize_into}
use bit_chat.Message.Deserialize.{Parsed, null, fault, parsed, deserialize}
use bit_chat.Peer.{Peer}
use bit_chat.Forward.{forward_loop, forward_with, sender}
use bit_chat.Dedup
use bit_chat.Router.{
  Router, World, mark_seen, persist, forward_to_peers, serialize_and_forward, relay, deliver,
  receive_message, receive_parsed, receive_packet,
}

module _ {T : Type 0} (P : T → Type 0) where
  -- A send keeps the property of the transport's context.
  abbrev pub IsKept : Option (T → List ℕ → List ℕ → Status × T) → Type 0
  IsKept none = Unit
  IsKept (some send) = (net : T) (key packet : List ℕ) → P net → P (send net key packet).1

  forward_loop-keeps :
      (send : T → List ℕ → List ℕ → Status × T) (fanout : ℕ) (packet : List ℕ) (peers : List Peer)
      (sent : ℕ) (net : T)
      → ((net : T) (key : List ℕ) → P net → P (send net key packet).1)
      → P net
      → P (forward_loop send fanout packet peers sent net).1
  unfolding forward_loop
  forward_loop-keeps send fanout packet [] sent net k h = h
  forward_loop-keeps send fanout packet (p ∷ ps) sent net k h =
      let (rc, net') = send net p.pubkey packet in
      if-keeps (λ (o : ℕ × T). P o.1) (ltb sent fanout)
        (forward_loop-keeps send fanout packet ps (if is_ok rc then sent + 1 else sent) net' k
          (k net p.pubkey h))
        h

  forward_with-keeps :
      (send : Option (T → List ℕ → List ℕ → Status × T)) (fanout : ℕ) (packet : List ℕ)
      (peers : List Peer) (net : T)
      → IsKept send
      → P net
      → P (forward_with send fanout packet peers net).1
  unfolding forward_with
  forward_with-keeps none fanout packet peers net k h = h
  forward_with-keeps (some send) fanout packet peers net k h =
      forward_loop-keeps send fanout packet peers 0 net (λ net' key. k net' key packet) h

  -- What one send brings about and further sends of the packet keep, holds after a forwarding to some
  -- neighbour.
  pub forward_with-reaches :
      (send : T → List ℕ → List ℕ → Status × T) (fanout : ℕ) (packet : List ℕ) (peers : List Peer)
      (net : T)
      → 0 < fanout
      → ltb 0 (length peers) ≡ true
      → ((key : List ℕ) → P (send net key packet).1)
      → ((net : T) (key : List ℕ) → P net → P (send net key packet).1)
      → P (forward_with (some send) fanout packet peers net).1
  unfolding forward_with forward_loop
  forward_with-reaches send fanout packet [] net h some_peer first more = cc
  forward_with-reaches send fanout packet (p ∷ ps) net h some_peer first more =
      rw (lt→ltb 0 fanout h) (
        forward_loop-keeps send fanout packet ps
          (if is_ok (send net p.pubkey packet).0 then 1 else 0) (send net p.pubkey packet).1 more
          (first p.pubkey))

module _ {S T U : Type 0} (P : T → Type 0) where
  pub forward_to_peers-keeps :
      (r : Router S T U) (packet : List ℕ) (w : World S T U)
      → IsKept P (sender r.transport)
      → P w.net
      → P (forward_to_peers r packet w).1.net
  unfolding forward_to_peers
  forward_to_peers-keeps r packet w k h =
      forward_with-keeps P (sender r.transport) r.config.fanout packet r.peers w.net k h

  pub serialize_and_forward-keeps :
      (env : Env) (r : Router S T U) (m : Message) (w : World S T U)
      → IsKept P (sender r.transport)
      → P w.net
      → P (serialize_and_forward env r m w).net
  unfolding serialize_and_forward
  serialize_and_forward-keeps env r m w k h =
      let (rc, buf, out_len) = serialize_into m (replicate (needed_size m) 0) in
      if-keeps (λ (v : World S T U). P v.net) (env.alloc (bytes (needed_size m)) && is_ok rc)
        (forward_to_peers-keeps r (take out_len buf) w k h) h

  deliver-keeps :
      (callback : Option (Message → U → U)) (m : Message) (w : World S T U)
      → P w.net
      → P (deliver callback m w).net
  unfolding deliver
  deliver-keeps none m w h = h
  deliver-keeps (some callback) m w h = h

  module _ ⦃mem : Memcmp⦄ where
    -- What a call leaves: the transport's vtable, and the property.
    abbrev pub Left : Router S T U → Status × Router S T U × World S T U → Type 0
    Left r (rc, r', w') = (r'.transport ≡ r.transport) × P w'.net

    receive_message-keeps :
        (env : Env) (r : Router S T U) (w : World S T U) (m : Message)
        → IsKept P (sender r.transport)
        → P w.net
        → Left r (receive_message env r w m)
    unfolding receive_message relay
    receive_message-keeps env r w m k h =
        let r' = mark_seen env r m.uuid in
        let m' = record m { ttl = m.ttl - 1 } in
        if-keeps (Left r) (Dedup.contains r.dedup_table r.dedup_cap m.uuid) (refl, h)
          (if-keeps (Left r) (m.ttl == 0) (refl, h)
            (if-keeps (Left r) (mem.same m'.receiver_pubkey r'.local_pubkey)
              (refl, deliver-keeps r'.on_message m' w h)
              (
                refl,
                serialize_and_forward-keeps env r' m'
                    (record w { store = persist env r'.storage m' w.store }) k h,
              )))

    -- `bc_router_receive` keeps what every send keeps, and the transport's vtable.
    pub receive_packet-keeps :
        (env : Env) (r r' : Router S T U) (w w' : World S T U) (packet : Option (List ℕ))
        (rc : Status)
        → IsKept P (sender r.transport)
        → P w.net
        → receive_packet env r w packet ≡ returned (rc, r', w')
        → Left r (rc, r', w')
    unfolding receive_packet receive_parsed
    receive_packet-keeps env r r' w w' none rc k h e =
        subst (Left r) (returned-injective e) (refl, h)
    receive_packet-keeps env r r' w w' (some packet) rc k h e =
        elim (Bool-cases (length packet == 0)) [
          | inl empty ↦ subst (Left r) (returned-injective (rw empty at e)) (refl, h)
          | inr more ↦ by_parse (deserialize env (some packet)) (rw more at e)
        ]
      where
        by_parse :
            (p : Parsed) → receive_parsed env r w p ≡ returned (rc, r', w') → Left r (rc, r', w')
        by_parse null g = subst (Left r) (returned-injective g) (refl, h)
        by_parse fault g = cc
        by_parse (parsed m) g =
            subst (Left r) (returned-injective g) (receive_message-keeps env r w m k h)
