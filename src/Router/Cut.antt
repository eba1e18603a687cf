-- ===== src/Router/Cut.antt =====
-- Packets of which a router sees the front alone: `bc_router_receive` of src/usecase/mesh_router.c, and
-- its polling over `udp_recv` of src/infra/transport_udp_sim.c.
use bit_chat.Prelude.{
  ℕ, zero, suc, ◌<◌, ◌≡◌, refl, ap, ◌∙◌, inl, inr, List, [], ◌∷◌, arith, ◌==◌, some, Bool-cases,
  length, take, length-take,
}
use bit_chat.Status.{Status, err_invalid, Env, Run, returned, ◌>>=◌}
use bit_chat.Sodium.{Memcmp}
use bit_chat.Message.{Message, IsMessage}
use bit_chat.Message.Format.{encode}
use bit_chat.Message.Truncated.{deserialize-take}
use bit_chat.Port.{Transport}
use bit_chat.Udp.{Udp, Sockets, udp_recv}
use bit_chat.Udp.Loopback.{IsLoopback, AreCopies, udp_recv-empty}
use bit_chat.Router.{Router, World, receive_packet, receive_parsed}
use bit_chat.Router.Tick.{poll_buffer_size, poll_loop, tick_router, evict_seen}
use bit_chat.Router.Copies.{poll_loop-round, poll-recv, tick_router-user}

module _ ⦃mem : Memcmp⦄ {S T U : Type 0} where
  -- A message's packet from which bytes are missing at the end, however few and whatever the allocator,
  -- is answered with `BC_ERR_INVALID`, and changes neither the router nor its world.
  pub receive_packet-take :
      (env : Env) (r : Router S T U) (w : World S T U) (m : Message) (n : ℕ)
      → IsMessage m
      → n < length (encode m)
      → receive_packet env r w (some (take n (encode m))) ≡ returned (err_invalid, r, w)
  unfolding receive_packet receive_parsed
  receive_packet-take env r w m n v cut = elim (Bool-cases (length (take n (encode m)) == 0)) [
    | inl empty ↦ rw empty refl
    | inr more ↦ rw (more, deserialize-take env m n v cut) refl
  ]

module _ ⦃mem : Memcmp⦄ {S U K : Type 0} {sockets : Sockets K} {queue : K → List (List ℕ)}
    {port fd : ℕ} (laws : IsLoopback sockets queue port fd) (env : Env) (m : Message)
    (v : IsMessage m) (long : poll_buffer_size < length (encode m)) where
  poll_loop-cut :
      (fuel : ℕ) (packets : List (List ℕ)) (r : Router S (Udp K) U) (w : World S (Udp K) U)
      → w.net.sockfd ≡ fd
      → queue w.net.net ≡ packets
      → AreCopies (encode m) packets
      → length packets < fuel
      → (net : K) × (poll_loop fuel env (udp_recv sockets) r w
          ≡ returned (r, record w { net = record w.net { net = net } }))
  unfolding poll_loop
  poll_loop-cut zero packets r w own waits copies enough = absurd (omega arith)
  poll_loop-cut (suc fuel) [] r w own waits copies enough =
      let (net, got) = udp_recv-empty laws w.net poll_buffer_size own waits in (net, rw got refl)
  poll_loop-cut (suc fuel) (p ∷ ps) r w own waits copies enough =
      let filled : 0 < length (take poll_buffer_size (encode m)) =
        omega (arith, length-take poll_buffer_size (encode m), long) in
      let (net, left, round) =
        poll_loop-round laws fuel env (encode m) ps r w own filled
          (waits ∙ ap (λ q. q ∷ ps) copies.0) in
      let w₁ : World S (Udp K) U = record w { net = record w.net { net = net } } in
      let more : Status × Router S (Udp K) U × World S (Udp K) U
          → Run (Router S (Udp K) U × World S (Udp K) U) =
        λ (_, r', w'). poll_loop fuel env (udp_recv sockets) r' w' in
      let (net', rest) = poll_loop-cut fuel ps r w₁ own left copies.1 (omega arith) in
      (
        net',
        round
            ∙ ap (λ run. run >>= more) (receive_packet-take env r w₁ m poll_buffer_size v long)
            ∙ rest,
      )

  -- A tick on a socket where copies of a packet wait that is longer than its buffer calls no callback.
  pub tick_router-cut :
      (fuel : ℕ) (r : Router S (Udp K) U) (w : World S (Udp K) U) (t : Transport (Udp K))
      → r.transport ≡ some t
      → t.recv ≡ some (udp_recv sockets)
      → w.net.sockfd ≡ fd
      → AreCopies (encode m) (queue w.net.net)
      → length (queue w.net.net) < fuel
      → (out : Router S (Udp K) U × World S (Udp K) U) × (tick_router fuel env r w ≡ returned out)
        × (out.1.user ≡ w.user)
  tick_router-cut fuel r w t has_transport has_recv own copies enough =
      let r₁ = evict_seen env r in
      let (net, polled) = poll_loop-cut fuel (queue w.net.net) r₁ w own refl copies enough in
      tick_router-user fuel env r r₁ w (record w { net = record w.net { net = net } })
        (poll-recv fuel env r₁.transport r₁ w t (udp_recv sockets) has_transport has_recv ∙ polled)
