-- ===== src/Forward/Fanout.antt =====
-- What `forward_to_peers` does to the transport: the neighbours are tried in order until `fanout`
-- sends succeed.
use bit_chat.Prelude.{
  ℕ, ◌+◌, ◌≤◌, ◌≡◌, ◌⊎◌, inl, inr, refl, ap, List, [], ◌∷◌, ◌++◌, arith, ltb, if◌then◌else◌, some,
  Bool-cases, tests,
}
use bit_chat.Status.{Status, ok, err_transport, is_ok}
use bit_chat.Peer.{Peer}
use bit_chat.Forward.{forward_loop, forward_with}

module _ {T : Type 0} (send : T → List ℕ → List ℕ → Status × T) (packet : List ℕ) where
  -- Sends to every neighbour of a list, in order: how many succeed, and the transport afterwards.
  unfoldable pub send_all : List Peer → T → ℕ × T
  send_all [] net = (0, net)
  send_all (p ∷ ps) net =
      let (rc, net') = send net p.pubkey packet in
      let (n, net'') = send_all ps net' in ((if is_ok rc then n + 1 else n), net'')

  -- The result of the loop: it sent to all of `tried`, which `rest` makes up to the table; no more
  -- than `fanout` sends succeeded, and exactly as many if neighbours were left out.
  pub record IsFanout (fanout : ℕ) (peers : List Peer) (sent : ℕ) (net : T) (out : ℕ × T)
      : Type 0 where
    pub tried : List Peer
    pub rest : List Peer
    pub split : peers ≡ tried ++ rest
    pub count : out.0 ≡ sent + (send_all tried net).0
    pub net_after : out.1 ≡ (send_all tried net).1
    pub bound : out.0 ≤ fanout
    pub stopped : (rest ≡ []) ⊎ (out.0 ≡ fanout)

  forward_loop-IsFanout :
      (fanout : ℕ) (peers : List Peer) (sent : ℕ) (net : T)
      → sent ≤ fanout
      → IsFanout fanout peers sent net (forward_loop send fanout packet peers sent net)
  unfolding forward_loop send_all
  forward_loop-IsFanout fanout [] sent net h = record {
    tried = [];
    rest = [];
    split = refl;
    count = omega arith;
    net_after = refl;
    bound = h;
    stopped = inl refl;
  }
  forward_loop-IsFanout fanout (p ∷ ps) sent net h = elim (Bool-cases (ltb sent fanout)) [
    | inr full ↦ rw full record {
      tried = [];
      rest = p ∷ ps;
      split = refl;
      count = omega arith;
      net_after = refl;
      bound = h;
      stopped = inr (omega (tests, full));
    }
    | inl more ↦
        let net' = (send net p.pubkey packet).1 in
        let sent' = if is_ok (send net p.pubkey packet).0 then sent + 1 else sent in
        let ih = forward_loop-IsFanout fanout ps sent' net' (ground arith) in
        rw more record {
          tried = p ∷ ih.tried;
          rest = ih.rest;
          split = ap (λ t. p ∷ t) ih.split;
          count = ground (arith, ih.count);
          net_after = ih.net_after;
          bound = ih.bound;
          stopped = ih.stopped;
        }
  ]

  -- Forwarding tries the neighbours in the order of the table and stops after `fanout` successful
  -- sends: no more than `fanout` succeed, all neighbours are tried if fewer do, and the call succeeds
  -- exactly when some send did.
  pub forward_with-IsFanout :
      (fanout : ℕ) (peers : List Peer) (net : T)
      → let (rc, net') = forward_with (some send) fanout packet peers net in
        (n : ℕ) × IsFanout fanout peers 0 net (n, net')
        × (rc ≡ (if ltb 0 n then ok else err_transport))
  unfolding forward_with
  forward_with-IsFanout fanout peers net = (
    (forward_loop send fanout packet peers 0 net).0,
    forward_loop-IsFanout fanout peers 0 net (omega arith),
    refl,
  )
