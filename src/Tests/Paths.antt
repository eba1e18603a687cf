-- ===== src/Tests/Paths.antt =====
-- The theorems on rounds of a router and on paths through routers, at concrete ones.
use bit_chat.Prelude.{
  ℕ, ◌<◌, ◌≡◌, ◌≢◌, refl, List, [], ◌∷◌, ◌++◌, arith, replicate, length, none, some, leb,
  if◌then◌else◌, All, true, false,
}
use mathlib.Core.List.{Memᴰ}
use bit_chat.Sqlite.{Row, bound_row, row_message, vtable}
use bit_chat.Tests.Toys.{toy_engine, toy_engine-IsEngine}
use bit_chat.Router.Rebroadcast.{tick_router-IsSent}
use bit_chat.Status.{Status, ok, err, err_transport, returned, is_ok}
use bit_chat.Message.{Message}
use bit_chat.Message.Format.{big_endian, encode}
use bit_chat.Port.{Transport}
use bit_chat.Dedup.{blank, contains, contains_from, hash}
use bit_chat.Message.Wire.{read_u32_be}
use bit_chat.Peer.{Peer, ble}
use bit_chat.Router.{Router, World, receive_message, receive_packet, mark_seen, deliver}
use bit_chat.Router.Receive.{has_seen, hop}
use bit_chat.Router.Tick.{tick_router, evict_seen}
use bit_chat.Router.Drain.{IsQueue, IsHonest, tick_router-returns}
use bit_chat.Router.Redelivery.{receive_message-redelivers}
use bit_chat.Router.Path.{Node, Air, air_send, IsHop, travel, travel_lem, travel-delivers, hops}
use bit_chat.Tests.Data.{
  memcmp, alice, bob, carol, hello, hello-IsMessage, sample_env, later_env, sample_env-IsAmple,
  later_env-IsAmple,
}

-- A queue of packets that are received; what is sent is lost.
abbrev Queue : Type 0
Queue = List (List ℕ)

queue_recv : Queue → ℕ → Status × List ℕ × List ℕ × Queue
queue_recv [] n = (err, [], [], [])
queue_recv (p ∷ ps) n = (ok, p, [], ps)

abbrev queue_transport : Transport Queue
queue_transport = record {
  init = none;
  send = some (λ net key packet. (ok, net));
  recv = some queue_recv;
  discover_peers = none;
  destroy = λ net. net;
}

queue_transport-IsQueue : IsQueue queue_transport length (All IsHonest)
unfolding queue_recv
queue_transport-IsQueue = record {
  recv = queue_recv;
  has_recv = refl;
  taken = taken_front;
  sends = λ k net key packet h. h;
}
  where
    taken_front :
        (net : Queue) (n : ℕ)
        → All IsHonest net
        → is_ok (queue_recv net n).0 ≡ true
        → (length (queue_recv net n).3 < length net)
          × All IsHonest (queue_recv net n).3
          × IsHonest (queue_recv net n).1
    taken_front [] n h e = cc
    taken_front (p ∷ ps) n h e = (omega arith, h.1, h.0)

abbrev peer_of : List ℕ → Peer
peer_of key = record { pubkey = key; last_seen = 900; transport = ble; rssi = 200 }

-- The router of a node that keeps what is delivered to it.
abbrev router_of : {T : Type 0} → Transport T → List ℕ → Router (Unit {0}) T (List Message)
router_of t key = record {
  transport = some t;
  storage = none;
  config = record { fanout = 3; dedup_cap = 4; dedup_max_age = 600 };
  local_pubkey = key;
  dedup_table = replicate 4 blank;
  dedup_cap = 4;
  peers = peer_of bob ∷ [];
  on_message = some (λ m inbox. inbox ++ (m ∷ []));
  last_sf_tick = 0;
}

-- Its cache is empty.
router_of-new :
    {T : Type 0} (t : Transport T) (key : List ℕ) → has_seen (router_of t key) hello.uuid ≡ false
unfolding contains contains_from hash
router_of-new t key = refl

hello-IsHonest : IsHonest (encode hello)
unfolding read_u32_be encode big_endian
hello-IsHonest = omega arith

abbrev busy_world : World (Unit {0}) Queue (List Message)
busy_world = record { store = tt; net = encode hello ∷ []; user = [] }

tick_router-returns_example :
    (out : Router (Unit {0}) Queue (List Message) × World (Unit {0}) Queue (List Message))
    × (tick_router 2 sample_env (router_of queue_transport carol) busy_world ≡ returned out)
tick_router-returns_example =
    tick_router-returns queue_transport-IsQueue 2 sample_env (router_of queue_transport carol)
      busy_world refl (hello-IsHonest, tt) (omega arith)

receive_message-redelivers_example :
    let r = router_of queue_transport bob in
    let (rc, r₁, w₁) = receive_message sample_env r busy_world hello in
    let (rc', r₂, w₂) = receive_message later_env (evict_seen later_env r₁) w₁ hello in
    (rc ≡ ok)
    × (w₁ ≡ deliver r.on_message (hop hello) busy_world)
    × (rc' ≡ ok)
    × (w₂ ≡ deliver r.on_message (hop hello) w₁)
receive_message-redelivers_example =
    let r = router_of queue_transport bob in
    receive_message-redelivers sample_env later_env r busy_world
      (receive_message sample_env r busy_world hello).2 hello
      (omega arith, (omega arith, (omega arith, (omega arith, tt))))
      (router_of-new queue_transport bob) refl (omega arith) (omega arith) (omega arith)

abbrev air_transport : Transport Air
air_transport = record {
  init = none;
  send = some air_send;
  recv = none;
  discover_peers = none;
  destroy = λ net. net;
}

abbrev node_of : List ℕ → Node (Unit {0}) (List Message)
node_of key = record { router = router_of air_transport key; store = tt; user = [] }

differ : (a b : ℕ) (xs ys : List ℕ) → a ≢ b → (a ∷ xs) ≢ (b ∷ ys)
differ a b xs ys h e = h cc

node_of-IsHop : (key : List ℕ) → bob ≢ key → IsHop hello (node_of key)
node_of-IsHop key h = record {
  transport = air_transport;
  has_transport = refl;
  sends = refl;
  fanout = omega arith;
  first = peer_of bob;
  others = [];
  peers = refl;
  new = router_of-new air_transport key;
  foreign = h;
}

abbrev row : List (Node (Unit {0}) (List Message))
row = node_of carol ∷ (node_of alice ∷ [])

row-IsHop : All (IsHop hello) row
row-IsHop = (
  node_of-IsHop carol (differ 2 3 _ _ (λ e. omega (arith, e))),
  (node_of-IsHop alice (differ 2 1 _ _ (λ e. omega (arith, e))), tt),
)

travel_lem_example :
    travel sample_env row (some (encode hello))
    ≡ (if leb 2 10 then some (encode (hops 2 hello)) else none)
travel_lem_example = travel_lem sample_env row hello hello-IsMessage sample_env-IsAmple row-IsHop

travel-delivers_example :
    receive_packet later_env
      (router_of queue_transport bob)
      busy_world
      (travel sample_env row (some (encode hello)))
    ≡ returned (
      ok,
      mark_seen later_env (router_of queue_transport bob) hello.uuid,
      deliver (router_of queue_transport bob).on_message (hops 3 hello) busy_world,
    )
travel-delivers_example =
    travel-delivers sample_env later_env row (router_of queue_transport bob) busy_world hello
      hello-IsMessage sample_env-IsAmple later_env-IsAmple row-IsHop (omega arith) refl
      (router_of-new queue_transport bob)

-- A transport that receives nothing.
abbrev nothing : Air → ℕ → Status × List ℕ × List ℕ × Air
nothing net n = (err_transport, [], [], net)

abbrev silent_transport : Transport Air
silent_transport = record air_transport { recv = some nothing }

-- A router with a neighbour, and a database with one message.
abbrev keeper : Router (List Row) Air (List Message)
keeper = record {
  transport = some silent_transport;
  storage = some (vtable toy_engine);
  config = record { fanout = 3; dedup_cap = 4; dedup_max_age = 600 };
  local_pubkey = carol;
  dedup_table = replicate 4 blank;
  dedup_cap = 4;
  peers = peer_of alice ∷ [];
  on_message = none;
  last_sf_tick = 0;
}

abbrev kept_row : Row
kept_row = bound_row 1000 hello

abbrev kept_world : World (List Row) Air (List Message)
kept_world = record { store = kept_row ∷ []; net = []; user = [] }

tick_router-IsSent_example :
    (out : Router (List Row) Air (List Message) × World (List Row) Air (List Message))
    × (tick_router 1 later_env keeper kept_world ≡ returned out)
    × Memᴰ (encode (row_message kept_row)) out.1.net
tick_router-IsSent_example =
    tick_router-IsSent toy_engine-IsEngine 0 later_env keeper kept_world silent_transport nothing
      err_transport [] kept_row refl refl refl refl refl
      (record { stored = Memᴰ.head refl; for_receiver = tt; young = omega arith }) (omega arith)
      later_env-IsAmple refl (omega arith)
