-- ===== src/Router/Resend.antt =====
-- Forwarding and rebroadcasting of src/usecase/mesh_router.c over the UDP transport: the packet comes to a
-- socket that listens.
use bit_chat.Prelude.{
  ℕ, suc, ◌+◌, ◌≤◌, ◌<◌, ◌≡◌, refl, sym, ap, ◌∙◌, subst, true, List, [], ◌∷◌, arith, lt→ltb, Option,
  none, some, length, replicate, take-length, length-replicate, All,
}
use bit_chat.Status.{Status, ok, Env, IsAmple, returned, ◌>>=◌}
use bit_chat.Sodium.{Memcmp}
use bit_chat.Message.{Message, IsMessage, header_size}
use bit_chat.Message.Format.{encode, length-encode, serialize_into_exact}
use bit_chat.Message.Serialize.{needed_size}
use bit_chat.Port.{Storage, Transport}
use bit_chat.Forward.{forward_with, sender}
use bit_chat.Udp.{Udp, Sockets, udp_send, udp_recv}
use bit_chat.Udp.Loopback.{IsLoopback, IsOpen, HasArrived, max_datagram, udp_send-HasArrived}
use bit_chat.Router.{
  Router, World, broadcast_message, forward_to_peers, serialize_and_forward, mark_seen, persist,
}
use bit_chat.Router.Keeps.{forward_with-reaches}
use bit_chat.Router.Receive.{serialize_and_forward_lem}
use bit_chat.Router.Tick.{
  poll_buffer_size, poll_loop, tick_router, evict_seen, rebroadcast, rebroadcast_all, is_due,
  evict_stored,
}
use bit_chat.Router.Copies.{poll-recv}

-- A broadcast of a message, with memory, on all parts of the router and its world.
pub broadcast_message_lem :
    {S T U : Type 0} (env : Env) (r : Router S T U) (w : World S T U) (m : Message)
    → IsMessage m
    → IsAmple env
    → broadcast_message env r w m ≡ (
      ok,
      mark_seen env r m.uuid,
      record w {
        store = persist env r.storage m w.store;
        net = (forward_with (sender r.transport) r.config.fanout (encode m) r.peers w.net).1;
      },
    )
unfolding broadcast_message forward_to_peers
broadcast_message_lem env r w m v a =
    rw
      (
        serialize_into_exact m (replicate (needed_size m) 0) v (length-replicate (needed_size m) 0),
        a.granted,
        take-length (encode m) (header_size + length m.payload) (length-encode v),
      )
      refl

-- A router with a neighbour that sends over UDP.
pub record IsSending {S U K : Type 0} (sockets : Sockets K) (r : Router S (Udp K) U) : Type 0 where
  pub sends : sender r.transport ≡ some (udp_send sockets)
  pub fans : 0 < r.config.fanout
  pub some_peer : 0 < length r.peers

module _ ⦃mem : Memcmp⦄ {S U K : Type 0} {sockets : Sockets K} {queue : K → List (List ℕ)}
    {port fd : ℕ} (laws : IsLoopback sockets queue port fd) {r : Router S (Udp K) U}
    (h : IsSending sockets r) (m : Message) (v : IsMessage m)
    (small : length (encode m) ≤ max_datagram) where
  pub forward_with-HasArrived :
      (self : Udp K)
      → IsOpen laws (encode m) self
      → HasArrived laws
          (encode m)
          (forward_with (sender r.transport) r.config.fanout (encode m) r.peers self).1
  forward_with-HasArrived self opens =
      let packet = encode m in
      let filled : 0 < length packet = omega (arith, length-encode v) in
      subst (λ s. HasArrived laws packet (forward_with s r.config.fanout packet r.peers self).1)
        (sym h.sends)
        (forward_with-reaches (HasArrived laws packet) (udp_send sockets) r.config.fanout packet
          r.peers self h.fans (lt→ltb 0 (length r.peers) h.some_peer)
          (λ key. udp_send-HasArrived laws self key packet filled small opens)
          (λ self' key p. udp_send-HasArrived laws self' key packet filled small p.0))

  serialize_and_forward-HasArrived :
      (env : Env) (w : World S (Udp K) U)
      → IsAmple env
      → IsOpen laws (encode m) w.net
      → HasArrived laws (encode m) (serialize_and_forward env r m w).net
  unfolding forward_to_peers
  serialize_and_forward-HasArrived env w a opens =
      subst (λ w'. HasArrived laws (encode m) w'.net)
        (sym (serialize_and_forward_lem env r m w v a)) (forward_with-HasArrived w.net opens)

  -- The rebroadcast of one message, listed once or more.
  rebroadcast_all-HasArrived :
      (env : Env) (ms : List Message) (w : World S (Udp K) U)
      → IsAmple env
      → All (λ m'. m' ≡ m) ms
      → HasArrived laws (encode m) w.net
      → HasArrived laws (encode m) (rebroadcast_all env r ms w).net
  unfolding rebroadcast_all
  rebroadcast_all-HasArrived env [] w a same p = p
  rebroadcast_all-HasArrived env (m' ∷ ms) w a same p =
      rebroadcast_all-HasArrived env ms (serialize_and_forward env r m' w) a same.1 (
        subst (λ o. HasArrived laws (encode m) (serialize_and_forward env r o w).net) (sym same.0)
          (serialize_and_forward-HasArrived env w a p.0))

  rebroadcast_all-arrives :
      (env : Env) (ms : List Message) (w : World S (Udp K) U)
      → IsAmple env
      → All (λ m'. m' ≡ m) ms
      → 0 < length ms
      → IsOpen laws (encode m) w.net
      → HasArrived laws (encode m) (rebroadcast_all env r ms w).net
  unfolding rebroadcast_all
  rebroadcast_all-arrives env [] w a same more opens = absurd (omega arith)
  rebroadcast_all-arrives env (m' ∷ ms) w a same more opens =
      rebroadcast_all-HasArrived env ms (serialize_and_forward env r m' w) a same.1 (
        subst (λ o. HasArrived laws (encode m) (serialize_and_forward env r o w).net) (sym same.0)
          (serialize_and_forward-HasArrived env w a opens))

-- A storage whose list of all pending messages is copies of one, one at least.
pub record IsKeeping {S : Type 0} (env : Env) (storage : Storage S) (s : S) (m : Message)
    : Type 0 where
  pub get_pending : Env → S → Option (List ℕ) → Status × List Message × S
  pub has_get_pending : storage.get_pending ≡ some get_pending
  pub good : (get_pending env s none).0 ≡ ok
  pub same : All (λ m'. m' ≡ m) (get_pending env s none).1
  pub filled : 0 < length (get_pending env s none).1

module _ {S T U : Type 0} where
  rebroadcast-due :
      (env : Env) (storage : Option (Storage S)) (r : Router S T U) (w : World S T U)
      (st : Storage S) (m : Message) (k : IsKeeping env st w.store m)
      → storage ≡ some st
      → is_due env r ≡ true
      → let (rc, ms, s') = k.get_pending env w.store none in
        let r' = record r { last_sf_tick = env.now } in
        rebroadcast env storage r w ≡ (r', rebroadcast_all env r' ms (record w { store = s' }))
  unfolding rebroadcast
  rebroadcast-due env storage r w st m k e due = rw (e, k.has_get_pending, due, k.good) refl

module _ ⦃mem : Memcmp⦄ {S U K : Type 0} {sockets : Sockets K} {queue : K → List (List ℕ)}
    {port fd : ℕ} (laws : IsLoopback sockets queue port fd) where
  poll_loop-idle :
      (fuel : ℕ) (env : Env) (r : Router S (Udp K) U) (w : World S (Udp K) U)
      → sockets.recvfrom w.net.net w.net.sockfd poll_buffer_size ≡ (none, w.net.net)
      → poll_loop (suc fuel) env (udp_recv sockets) r w ≡ returned (r, w)
  unfolding poll_loop udp_recv
  poll_loop-idle fuel env r w idle = rw idle refl

  -- A due tick, with memory, of a router that sends over UDP and keeps a message brings its packet to a
  -- socket that listens, where nothing came in.
  pub tick_router-HasArrived :
      (fuel : ℕ) (env : Env) (m : Message) (r : Router S (Udp K) U) (w : World S (Udp K) U)
      (t : Transport (Udp K)) (st : Storage S)
      → IsMessage m
      → IsAmple env
      → length (encode m) ≤ max_datagram
      → IsSending sockets r
      → r.transport ≡ some t
      → t.recv ≡ some (udp_recv sockets)
      → r.storage ≡ some st
      → IsKeeping env st w.store m
      → is_due env r ≡ true
      → sockets.recvfrom w.net.net w.net.sockfd poll_buffer_size ≡ (none, w.net.net)
      → IsOpen laws (encode m) w.net
      → (out : Router S (Udp K) U × World S (Udp K) U) × (tick_router (suc fuel) env r w
          ≡ returned out)
        × HasArrived laws (encode m) out.1.net
  unfolding tick_router
  tick_router-HasArrived fuel env m r w t st v a small h has_transport has_recv has_storage k due
        idle opens =
      let r₁ = evict_seen env r in
      let r₂ : Router S (Udp K) U = record r₁ { last_sf_tick = env.now } in
      let (rc, ms, s') = k.get_pending env w.store none in
      let h₂ : IsSending sockets r₂ = record {
        sends = h.sends;
        fans = h.fans;
        some_peer = h.some_peer;
      } in
      let polled =
        poll-recv (suc fuel) env r₁.transport r₁ w t (udp_recv sockets) has_transport has_recv
        ∙ poll_loop-idle fuel env r₁ w idle in
      let again = rebroadcast-due env r₁.storage r₁ w st m k has_storage due in
      let (r₃, w₃) = rebroadcast env r₁.storage r₁ w in
      (
        (r₃, record w₃ { store = evict_stored env r₃.storage w₃.store }),
        ap
            (λ s. s >>= λ (p, w₂).
              let (r₃, w₃) = rebroadcast env p.storage p w₂ in
              returned (r₃, record w₃ { store = evict_stored env r₃.storage w₃.store }))
            polled,
        subst (λ (o : Router S (Udp K) U × World S (Udp K) U). HasArrived laws (encode m) o.1.net)
            (sym again)
            (rebroadcast_all-arrives laws h₂ m v small env ms (record w { store = s' }) a k.same
              k.filled opens),
      )
