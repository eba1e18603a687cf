-- ===== src/Router/Path.antt =====
-- A message on its way: routers that pass its packet on, one to the next.
use bit_chat.Prelude.{
  ℕ, zero, suc, ◌+◌, ◌-◌, ◌<◌, ◌≡◌, ◌≢◌, refl, inl, inr, ap, ◌∙◌, true, false, List, [], ◌∷◌, ◌++◌,
  append-nil, arith, ltb, leb, lt→ltb, ◌==◌, if◌then◌else◌, All, Bool-cases, length, Option, none,
  some,
}
use bit_chat.Status.{Status, ok, Env, IsAmple, Run, returned, overread, unfinished}
use bit_chat.Sodium.{Memcmp}
use bit_chat.Message.{Message, IsMessage}
use bit_chat.Message.Format.{encode}
use bit_chat.Peer.{Peer}
use bit_chat.Port.{Transport}
use bit_chat.Forward.{forward_loop, forward_with}
use bit_chat.Router.{
  Router, World, mark_seen, deliver, relay, forward_to_peers, receive_message, receive_packet,
}
use bit_chat.Router.Receive.{has_seen, hop, receive_packet-encode}
use bit_chat.Router.Redelivery.{receive_message-delivers}
use bit_chat.Router.Outcome.{hop-IsMessage, encode-hop, receive-Outcome}

-- The medium of a path: what a router sends is what the next one hears, the latest packet first.
abbrev pub Air : Type 0
Air = List (List ℕ)

-- A send that always has success.
abbrev pub air_send : Air → List ℕ → List ℕ → Status × Air
air_send net key packet = (ok, packet ∷ net)

-- The packet that a call left on the air, if it sent one.
abbrev pub heard : Air → Option (List ℕ)
heard [] = none
heard (packet ∷ net) = some packet

-- A message after some hops.
abbrev pub hops : ℕ → Message → Message
hops zero m = m
hops (suc n) m = hops n (hop m)

hops-IsMessage : (n : ℕ) {m : Message} → IsMessage m → IsMessage (hops n m)
hops-IsMessage zero v = v
hops-IsMessage (suc n) v = hops-IsMessage n (hop-IsMessage v)

-- Hops change the TTL alone.
hops-fields :
    (n : ℕ) (m : Message)
    → ((hops n m).uuid ≡ m.uuid)
      × ((hops n m).receiver_pubkey ≡ m.receiver_pubkey)
      × ((hops n m).ttl ≡ m.ttl - n)
hops-fields zero m = (refl, refl, omega arith)
hops-fields (suc n) m =
    let (uuid, receiver, ttl) = hops-fields n (hop m) in (uuid, receiver, omega (arith, ttl))

hop-hops : (n : ℕ) (m : Message) → hop (hops n m) ≡ hops (suc n) m
hop-hops zero m = refl
hop-hops (suc n) m = hop-hops n (hop m)

-- A node: its router, and what its storage and its user's data hold.
pub record Node (S U : Type 0) : Type 0 where
  pub router : Router S Air U
  pub store : S
  pub user : U

-- Every send of one packet leaves it on top of the air.
forward_loop-top :
    (fanout : ℕ) (packet : List ℕ) (peers : List Peer) (sent : ℕ) (net : Air)
    → (rest : Air) × ((forward_loop air_send fanout packet peers sent (packet ∷ net)).1
        ≡ packet ∷ rest)
unfolding forward_loop
forward_loop-top fanout packet [] sent net = (net, refl)
forward_loop-top fanout packet (p ∷ ps) sent net = elim (Bool-cases (ltb sent fanout)) [
  | inr full ↦ (net, rw full refl)
  | inl more ↦
      let (rest, e) = forward_loop-top fanout packet ps (sent + 1) (packet ∷ net) in
      (rest, rw more e)
]

forward_with-heard :
    (fanout : ℕ) (packet : List ℕ) (p : Peer) (ps : List Peer)
    → 0 < fanout
    → heard (forward_with (some air_send) fanout packet (p ∷ ps) []).1 ≡ some packet
unfolding forward_with forward_loop
forward_with-heard fanout packet p ps h =
    let (rest, e) = forward_loop-top fanout packet ps 1 [] in rw (lt→ltb 0 fanout h, e) refl

module _ ⦃mem : Memcmp⦄ {S U : Type 0} where
  abbrev pub quiet : Node S U → World S Air U
  quiet node = record { store = node.store; net = []; user = node.user }

  -- What a node does with a packet that it hears, and what is on the air then.
  abbrev pub sent_on : Run (Status × Router S Air U × World S Air U) → Option (List ℕ)
  sent_on (returned (rc, r, w)) = heard w.net
  sent_on overread = none
  sent_on unfinished = none

  pub pass : Env → Node S U → Option (List ℕ) → Option (List ℕ)
  pass env node none = none
  pass env node (some packet) = sent_on (receive_packet env node.router (quiet node) (some packet))

  -- The packet that leaves the last of a row of nodes, each hearing the one before it.
  pub travel : Env → List (Node S U) → Option (List ℕ) → Option (List ℕ)
  travel env [] packet = packet
  travel env (node ∷ nodes) packet = travel env nodes (pass env node packet)

  -- A node that passes a message on: it is for another key, not known, and there is a neighbour.
  pub record IsHop (m : Message) (node : Node S U) : Type 0 where
    pub transport : Transport Air
    pub has_transport : node.router.transport ≡ some transport
    pub sends : transport.send ≡ some air_send
    pub fanout : 0 < node.router.config.fanout
    pub first : Peer
    pub others : List Peer
    pub peers : node.router.peers ≡ first ∷ others
    pub new : has_seen node.router m.uuid ≡ false
    pub foreign : m.receiver_pubkey ≢ node.router.local_pubkey

  forward_to_peers-heard :
      (node : Node S U) (m : Message) (packet : List ℕ)
      → IsHop m node
      → heard (forward_to_peers node.router packet (quiet node)).1.net ≡ some packet
  unfolding forward_to_peers
  forward_to_peers-heard node m packet h =
      rw (h.has_transport, h.sends, h.peers)
        (forward_with-heard node.router.config.fanout packet h.first h.others h.fanout)

  -- A node passes a message on one hop older, if its TTL is not used up; else nothing leaves it.
  pass_lem :
      (env : Env) (node : Node S U) (m : Message)
      → IsMessage m
      → IsAmple env
      → IsHop m node
      → pass env node (some (encode m)) ≡ (if m.ttl == 0 then none else some (encode (hop m)))
  unfolding pass
  pass_lem env node m v ample h =
      let (read, outcome) = receive-Outcome env node.router (quiet node) m [] v ample in
      let whole : encode m ++ [] ≡ encode m = append-nil (encode m) in
      let out = receive_message env node.router (quiet node) m in
      rw (rw whole at read) (elim outcome [
        | inl drop ↦ elim drop.reason [
          | inl (old, _) ↦ cc (old, h.new)
          | inr (_, spent, _) ↦ rw (drop.nothing, spent) refl
        ]
        | inr (inl delivery) ↦ absurd (h.foreign delivery.own)
        | inr (inr relay) ↦
            let alive : (m.ttl == 0) ≡ false = ground (arith, relay.alive) in
            rw (relay.sent, ← encode-hop m v, alive)
              (forward_to_peers-heard node m (encode (hop m)) h)
      ])

  travel-none : (env : Env) (nodes : List (Node S U)) → travel env nodes none ≡ none
  unfolding travel pass
  travel-none env [] = refl
  travel-none env (node ∷ nodes) = travel-none env nodes

  IsHop-hop : (m : Message) (node : Node S U) → IsHop m node → IsHop (hop m) node
  IsHop-hop m node h = record {
    transport = h.transport;
    has_transport = h.has_transport;
    sends = h.sends;
    fanout = h.fanout;
    first = h.first;
    others = h.others;
    peers = h.peers;
    new = h.new;
    foreign = h.foreign;
  }

  All-IsHop :
      (m : Message) (nodes : List (Node S U)) → All (IsHop m) nodes → All (IsHop (hop m)) nodes
  All-IsHop m [] h = tt
  All-IsHop m (node ∷ nodes) h = (IsHop-hop m node h.0, All-IsHop m nodes h.1)

  -- Through a row of nodes that do not know a message, are not its receiver, and have a neighbour, its
  -- packet comes out as that of the message as many hops older as there are nodes, if its TTL is at least
  -- their number; else nothing comes out.
  pub travel_lem :
      (env : Env) (nodes : List (Node S U)) (m : Message)
      → IsMessage m
      → IsAmple env
      → All (IsHop m) nodes
      → travel env nodes (some (encode m))
        ≡ (if leb (length nodes) m.ttl then some (encode (hops (length nodes) m)) else none)
  unfolding travel
  travel_lem env [] m v ample h = ground arith
  travel_lem env (node ∷ nodes) m v ample h =
      let ih = travel_lem env nodes (hop m) (hop-IsMessage v) ample (All-IsHop m nodes h.1) in
      let step = pass_lem env node m v ample h.0 in
      elim (Bool-cases (m.ttl == 0)) [
        | inl spent ↦ rw (step, spent, travel-none env nodes) (ground (arith, spent))
        | inr alive ↦ rw (step, alive, ih) (ground (arith, alive))
      ]

  -- A delivery: the status, the router that knows the UUID, and the world behind the callback.
  abbrev delivered :
      {T : Type 0}
      → Env
      → Router S T U
      → World S T U
      → List ℕ
      → Message
      → Status × Router S T U × World S T U
  delivered env r w uuid m = (ok, mark_seen env r uuid, deliver r.on_message m w)

  -- A message that is sent into a row of nodes that pass it on, fewer than its TTL, is delivered by the
  -- router behind them that has its receiver's key and does not know it: the callback gets it once, as
  -- many hops older as there were routers on its way.
  pub travel-delivers :
      {T : Type 0} (env env' : Env) (nodes : List (Node S U)) (r : Router S T U) (w : World S T U)
      (m : Message)
      → IsMessage m
      → IsAmple env
      → IsAmple env'
      → All (IsHop m) nodes
      → length nodes < m.ttl
      → m.receiver_pubkey ≡ r.local_pubkey
      → has_seen r m.uuid ≡ false
      → receive_packet env' r w (travel env nodes (some (encode m)))
        ≡ returned
            (ok, mark_seen env' r m.uuid, deliver r.on_message (hops (suc (length nodes)) m) w)
  travel-delivers env env' nodes r w m v ample ample' h short own new =
      let n = length nodes in
      let there = travel_lem env nodes m v ample h in
      let (uuid, receiver, ttl) = hops-fields n m in
      let in_time : leb n m.ttl ≡ true = ground arith in
      let whole : encode (hops n m) ++ [] ≡ encode (hops n m) = append-nil (encode (hops n m)) in
      let read = receive_packet-encode env' r w (hops n m) [] (hops-IsMessage n v) ample' in
      let handed =
        receive_message-delivers env' r w (hops n m) (rw uuid new) (receiver ∙ own)
          (omega (arith, ttl, short)) in
      rw (there, in_time)
        ((rw whole at read)
          ∙ ap returned (
              handed
              ∙ (ap (λ u. delivered env' r w u (hop (hops n m))) uuid
                  ∙ ap (delivered env' r w m.uuid) (hop-hops n m))))
