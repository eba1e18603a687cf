-- ===== src/Router/Copies.antt =====
-- `bc_router_tick` on a socket where copies of one packet wait: the polling of src/usecase/mesh_router.c
-- over `udp_recv` of src/infra/transport_udp_sim.c.
use bit_chat.Prelude.{
  ℕ, zero, suc, take, take-all, lt→ltb, ◌≤◌, ◌<◌, ◌≡◌, refl, sym, ap, ◌∙◌, List, [], ◌∷◌,
  append-nil, arith, true, false, ltb, length, Option, some,
}
use bit_chat.Status.{Status, ok, Env, IsAmple, returned, Run, ◌>>=◌}
use bit_chat.Sodium.{Memcmp}
use bit_chat.Message.{Message, IsMessage}
use bit_chat.Message.Format.{encode, length-encode}
use bit_chat.Udp.{Udp, Sockets, udp_recv}
use bit_chat.Udp.Loopback.{IsLoopback, AreCopies, udp_recv-taken, udp_recv-empty}
use bit_chat.Port.{Transport}
use bit_chat.Router.{Router, World, mark_seen, deliver, receive_message, receive_packet}
use bit_chat.Router.Receive.{
  has_seen, hop, receive_packet-encode, receive_message_again, has_seen-mark_seen,
}
use bit_chat.Router.Redelivery.{receive_message-delivers}
use bit_chat.Router.Valid.{IsValid, evict_seen-IsValid}
use bit_chat.Router.Callbacks.{rebroadcast-user}
use bit_chat.Router.Tick.{
  poll_buffer_size, poll_loop, poll, tick_router, evict_seen, rebroadcast, evict_stored,
}

module _ ⦃mem : Memcmp⦄ {S U K : Type 0} {sockets : Sockets K} {queue : K → List (List ℕ)}
    {port fd : ℕ} (laws : IsLoopback sockets queue port fd) where
  -- One round of the loop, on the packet that waits in front, cut to the buffer.
  pub poll_loop-round :
      (fuel : ℕ) (env : Env) (packet : List ℕ) (packets : List (List ℕ)) (r : Router S (Udp K) U)
      (w : World S (Udp K) U)
      → w.net.sockfd ≡ fd
      → 0 < length (take poll_buffer_size packet)
      → queue w.net.net ≡ packet ∷ packets
      → (net : K) × (queue net ≡ packets)
        × (poll_loop (suc fuel) env (udp_recv sockets) r w ≡ (
            receive_packet env r
              (record w { net = record w.net { net = net } })
              (some (take poll_buffer_size packet))
            >>= λ (_, r', w'). poll_loop fuel env (udp_recv sockets) r' w'))
  unfolding poll_loop
  poll_loop-round fuel env packet packets r w own filled waits =
      let (net, got, left) =
        udp_recv-taken laws w.net poll_buffer_size packet packets own filled waits in
      let some_bytes : ltb 0 (length (take poll_buffer_size packet)) ≡ true = lt→ltb 0 _ filled in
      (net, left, rw (got, some_bytes) refl)

module _ ⦃mem : Memcmp⦄ {S U K : Type 0} {sockets : Sockets K} {queue : K → List (List ℕ)}
    {port fd : ℕ} (laws : IsLoopback sockets queue port fd) (env : Env) (m : Message)
    (v : IsMessage m) (ample : IsAmple env) (fits : length (encode m) ≤ poll_buffer_size) where
  receive_packet-whole :
      (r : Router S (Udp K) U) (w : World S (Udp K) U)
      → receive_packet env r w (some (encode m)) ≡ returned (receive_message env r w m)
  receive_packet-whole r w =
      ap (λ p. receive_packet env r w (some p)) (sym (append-nil (encode m)))
      ∙ receive_packet-encode env r w m [] v ample

  -- One round of the loop, on a copy.
  poll_loop-copy :
      (fuel : ℕ) (packets : List (List ℕ)) (r : Router S (Udp K) U) (w : World S (Udp K) U)
      → w.net.sockfd ≡ fd
      → queue w.net.net ≡ encode m ∷ packets
      → (net : K) × (queue net ≡ packets)
        × (poll_loop (suc fuel) env (udp_recv sockets) r w ≡ (
            let (rc, r', w') =
              receive_message env r (record w { net = record w.net { net = net } }) m in
            poll_loop fuel env (udp_recv sockets) r' w'))
  unfolding poll_loop
  poll_loop-copy fuel packets r w own waits =
      let whole = take-all (encode m) poll_buffer_size fits in
      let filled : 0 < length (take poll_buffer_size (encode m)) =
        rw whole (omega (arith, length-encode v)) in
      let (net, left, round) =
        poll_loop-round laws fuel env (encode m) packets r w own filled waits in
      let w₁ : World S (Udp K) U = record w { net = record w.net { net = net } } in
      let more : Status × Router S (Udp K) U × World S (Udp K) U
          → Run (Router S (Udp K) U × World S (Udp K) U) =
        λ (_, r', w'). poll_loop fuel env (udp_recv sockets) r' w' in
      (
        net,
        left,
        round
            ∙ ap (λ p. receive_packet env r w₁ (some p) >>= more) whole
            ∙ ap (λ run. run >>= more) (receive_packet-whole r w₁),
      )

  -- Copies of a message that the router knows change nothing but what waits.
  poll_loop-known :
      (fuel : ℕ) (packets : List (List ℕ)) (r : Router S (Udp K) U) (w : World S (Udp K) U)
      → has_seen r m.uuid ≡ true
      → w.net.sockfd ≡ fd
      → queue w.net.net ≡ packets
      → AreCopies (encode m) packets
      → length packets < fuel
      → (net : K) × (poll_loop fuel env (udp_recv sockets) r w
          ≡ returned (r, record w { net = record w.net { net = net } }))
  unfolding poll_loop
  poll_loop-known zero packets r w seen own waits copies enough = absurd (omega arith)
  poll_loop-known (suc fuel) [] r w seen own waits copies enough =
      let (net, got) = udp_recv-empty laws w.net poll_buffer_size own waits in (net, rw got refl)
  poll_loop-known (suc fuel) (p ∷ ps) r w seen own waits copies enough =
      let (net, left, round) = poll_loop-copy fuel ps r w own (waits ∙ ap (λ q. q ∷ ps) copies.0) in
      let w₁ : World S (Udp K) U = record w { net = record w.net { net = net } } in
      let (net', rest) = poll_loop-known fuel ps r w₁ seen own left copies.1 (omega arith) in
      (net', round ∙ rw (receive_message_again env r w₁ m seen) rest)

  -- The first of the copies is delivered, once, where the message is new and for the local key.
  pub poll_loop-delivers :
      (fuel : ℕ) (packets : List (List ℕ)) (r : Router S (Udp K) U) (w : World S (Udp K) U)
      (callback : Message → U → U)
      → IsValid r
      → has_seen r m.uuid ≡ false
      → m.receiver_pubkey ≡ r.local_pubkey
      → 0 < m.ttl
      → r.on_message ≡ some callback
      → w.net.sockfd ≡ fd
      → queue w.net.net ≡ packets
      → AreCopies (encode m) packets
      → 0 < length packets
      → length packets < fuel
      → (net : K) × (poll_loop fuel env (udp_recv sockets) r w
          ≡ returned (
            mark_seen env r m.uuid,
            record w { net = record w.net { net = net }; user = callback (hop m) w.user },
          ))
  unfolding deliver
  poll_loop-delivers fuel [] r w callback valid new here alive calls own waits copies some_packet
        enough =
      absurd (omega arith)
  poll_loop-delivers zero (p ∷ ps) r w callback valid new here alive calls own waits copies
        some_packet enough =
      absurd (omega arith)
  poll_loop-delivers (suc fuel) (p ∷ ps) r w callback valid new here alive calls own waits copies
        some_packet enough =
      let (net, left, round) = poll_loop-copy fuel ps r w own (waits ∙ ap (λ q. q ∷ ps) copies.0) in
      let w₁ : World S (Udp K) U = record w { net = record w.net { net = net } } in
      let w₂ : World S (Udp K) U = record w₁ { user = callback (hop m) w.user } in
      let again : Status × Router S (Udp K) U × World S (Udp K) U
          → Run (Router S (Udp K) U × World S (Udp K) U) =
        λ (rc, r', w'). poll_loop fuel env (udp_recv sockets) r' w' in
      let delivered : receive_message env r w₁ m ≡ (ok, mark_seen env r m.uuid, w₂) =
        receive_message-delivers env r w₁ m new here alive
        ∙ ap (λ on_message. (ok, mark_seen env r m.uuid, deliver on_message (hop m) w₁)) calls in
      let (net', rest) =
        poll_loop-known fuel ps (mark_seen env r m.uuid) w₂ (has_seen-mark_seen env m.uuid valid)
          own left copies.1 (omega arith) in
      (net', round ∙ ap again delivered ∙ rest)

module _ {S T U : Type 0} where
  module _ ⦃mem : Memcmp⦄ where
    pub poll-recv :
        (fuel : ℕ) (env : Env) (transport : Option (Transport T)) (r : Router S T U)
        (w : World S T U) (t : Transport T) (recv : T → ℕ → Status × List ℕ × List ℕ × T)
        → transport ≡ some t
        → t.recv ≡ some recv
        → poll fuel env transport r w ≡ poll_loop fuel env recv r w
    unfolding poll
    poll-recv fuel env transport r w t recv e h = rw (e, h) refl

    -- A tick whose polling returns, returns with what the user's data are then.
    pub tick_router-user :
        (fuel : ℕ) (env : Env) (r r' : Router S T U) (w w' : World S T U)
        → poll fuel env (evict_seen env r).transport (evict_seen env r) w ≡ returned (r', w')
        → (out : Router S T U × World S T U) × (tick_router fuel env r w ≡ returned out)
          × (out.1.user ≡ w'.user)
    unfolding tick_router
    tick_router-user fuel env r r' w w' polled =
        let (r₃, w₃) = rebroadcast env r'.storage r' w' in
        (
          (r₃, record w₃ { store = evict_stored env r₃.storage w₃.store }),
          rw polled refl,
          rebroadcast-user env r'.storage r' w',
        )

module _ ⦃mem : Memcmp⦄ {S U K : Type 0} {sockets : Sockets K} {queue : K → List (List ℕ)}
    {port fd : ℕ} (laws : IsLoopback sockets queue port fd) where
  -- A tick on a socket where copies of a message wait, one at least, delivers the message once, where it
  -- fits the buffer, is for the local key, and is not known after the eviction.
  pub tick_router-delivers :
      (fuel : ℕ) (env : Env) (m : Message) (r : Router S (Udp K) U) (w : World S (Udp K) U)
      (t : Transport (Udp K)) (callback : Message → U → U)
      → IsMessage m
      → IsAmple env
      → length (encode m) ≤ poll_buffer_size
      → IsValid r
      → r.transport ≡ some t
      → t.recv ≡ some (udp_recv sockets)
      → r.on_message ≡ some callback
      → has_seen (evict_seen env r) m.uuid ≡ false
      → m.receiver_pubkey ≡ r.local_pubkey
      → 0 < m.ttl
      → w.net.sockfd ≡ fd
      → AreCopies (encode m) (queue w.net.net)
      → 0 < length (queue w.net.net)
      → length (queue w.net.net) < fuel
      → (out : Router S (Udp K) U × World S (Udp K) U) × (tick_router fuel env r w ≡ returned out)
        × (out.1.user ≡ callback (hop m) w.user)
  tick_router-delivers fuel env m r w t callback v ample fits valid has_transport has_recv calls new
        here alive own copies some_packet enough =
      let r₁ = evict_seen env r in
      let (net, polled) =
        poll_loop-delivers laws env m v ample fits fuel (queue w.net.net) r₁ w callback
          (evict_seen-IsValid env valid) new here alive calls own refl copies some_packet enough in
      tick_router-user fuel env r (mark_seen env r₁ m.uuid) w
        (record w { net = record w.net { net = net }; user = callback (hop m) w.user })
        (poll-recv fuel env r₁.transport r₁ w t (udp_recv sockets) has_transport has_recv ∙ polled)
