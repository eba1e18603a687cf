-- ===== src/Tests/Routers.antt =====
-- The router at concrete worlds: a transport that keeps a log and a queue, a storage that keeps a list.
use bit_chat.Prelude.{
  ℕ, ◌≡◌, ◌⊎◌, refl, List, [], ◌∷◌, ◌++◌, arith, replicate, get_or, ltb, none, some, if◌then◌else◌,
  ◌==◌,
}
use bit_chat.Status.{Status, ok, err, err_duplicate, err_transport, returned}
use bit_chat.Message.{Message}
use bit_chat.Message.Format.{encode}
use bit_chat.Peer.{Peer, ble}
use bit_chat.Port.{Storage, Transport}
use bit_chat.Dedup.{blank}
use bit_chat.Forward.{forward_with}
use bit_chat.Forward.Fanout.{IsFanout, forward_with-IsFanout}
use bit_chat.Router.{Router, World, Config, create, receive_message, receive_packet}
use bit_chat.Router.Peers.{add_to, update_peer}
use bit_chat.Router.PeerTable.{find_peer, find_peer-add_to, added}
use bit_chat.Router.Valid.{IsValid}
use bit_chat.Router.Reach.{Reach, here, next, add_peer, receive, set_on_message, Reach-IsValid}
use bit_chat.Router.Receive.{receive_twice, receive_packet-encode}
use bit_chat.Router.Outcome.{IsDrop, IsDelivery, IsRelay, receive-Outcome}
use bit_chat.Tests.Data.{
  memcmp, bytes_eq, bob, carol, hello, hello-IsMessage, sample_env, later_env, sample_env-IsAmple,
  later_env-IsAmple,
}

-- The log of sends; a send to a key that starts with 9 fails.
abbrev Net : Type 0
Net = List (List ℕ)

log_send : Net → List ℕ → List ℕ → Status × Net
log_send net key packet = (if get_or key 0 0 == 9 then err else ok, net ++ (key ∷ []))

-- The transport has a queue of packets to be received.
record Air : Type 0 where
  log : Net
  queue : List (List ℕ)

pop_packet : Air → ℕ → Status × List ℕ × List ℕ × Air
pop_packet air n = receive_from air.queue
  where
    receive_from : List (List ℕ) → Status × List ℕ × List ℕ × Air
    receive_from [] = (err, [], [], air)
    receive_from (p ∷ ps) = (ok, p, [], record air { queue = ps })

air_send : Air → List ℕ → List ℕ → Status × Air
air_send air key packet =
    let (rc, log') = log_send air.log key packet in (rc, record air { log = log' })

abbrev air_transport : Transport Air
air_transport = record {
  init = none;
  send = some air_send;
  recv = some pop_packet;
  discover_peers = none;
  destroy = λ net. net;
}

abbrev list_storage : Storage (List Message)
list_storage = record {
  store_message = some (λ env s m. (ok, s ++ (m ∷ [])));
  get_pending = some (λ env s key. (ok, s, s));
  delete_message = none;
  evict_expired = none;
  destroy = λ s. s;
}

abbrev Node : Type 0
Node = Router (List Message) Air (List Message)

abbrev small_config : Config
small_config = record { fanout = 3; dedup_cap = 4; dedup_max_age = 600 }

-- A node's router, which keeps what is delivered to it.
abbrev node : List ℕ → List Peer → Node
node key peers = record {
  transport = some air_transport;
  storage = some list_storage;
  config = small_config;
  local_pubkey = key;
  dedup_table = replicate 4 blank;
  dedup_cap = 4;
  peers = peers;
  on_message = some (λ m inbox. inbox ++ (m ∷ []));
  last_sf_tick = 0;
}

abbrev quiet_world : World (List Message) Air (List Message)
quiet_world = record { store = []; net = record { log = []; queue = [] }; user = [] }

abbrev pub peer_of : List ℕ → Peer
peer_of key = record { pubkey = key; last_seen = 900; transport = ble; rssi = 200 }

node-IsValid : (key : List ℕ) → IsValid (node key [])
node-IsValid key = record { sized = refl; pos = omega arith; few = omega arith; distinct = tt }

forward_with-IsFanout_example :
    let (rc, net) = forward_with (some log_send) 1 (1 ∷ []) (peer_of bob ∷ peer_of carol ∷ []) [] in
    (n : ℕ) × IsFanout log_send (1 ∷ []) 1 (peer_of bob ∷ peer_of carol ∷ []) 0 [] (n, net)
    × (rc ≡ (if ltb 0 n then ok else err_transport))
forward_with-IsFanout_example =
    forward_with-IsFanout log_send (1 ∷ []) 1 (peer_of bob ∷ peer_of carol ∷ []) []

find_peer-add_to_example : find_peer bob (add_to sample_env (peer_of bob) (peer_of carol ∷ [])) ≡ (
    if bytes_eq bob bob
    then added sample_env
        (peer_of bob)
        bob
        (peer_of carol ∷ [])
        (update_peer sample_env (peer_of bob) (peer_of carol ∷ []))
    else find_peer bob (peer_of carol ∷ []))
unfolding memcmp
find_peer-add_to_example = find_peer-add_to sample_env (peer_of bob) bob (peer_of carol ∷ [])

-- What Carol's node makes of the message to Bob.
abbrev at_carol : Status × Node × World (List Message) Air (List Message)
at_carol = receive_message sample_env (node carol []) quiet_world hello

receive_twice_example :
    receive_packet later_env at_carol.1 quiet_world (some (encode hello ++ (1 ∷ [])))
    ≡ returned (err_duplicate, at_carol.1, quiet_world)
receive_twice_example =
    receive_twice sample_env later_env quiet_world at_carol.2 quiet_world hello [] (1 ∷ [])
      at_carol.0 (node-IsValid carol) hello-IsMessage sample_env-IsAmple later_env-IsAmple
      (receive_packet-encode sample_env (node carol []) quiet_world hello [] hello-IsMessage
        sample_env-IsAmple)

receive-Outcome_example :
    (receive_packet sample_env (node carol []) quiet_world (some (encode hello ++ []))
      ≡ returned at_carol)
    × (IsDrop sample_env (node carol []) quiet_world hello at_carol
        ⊎ (IsDelivery sample_env (node carol []) quiet_world hello at_carol
            ⊎ IsRelay sample_env (node carol []) quiet_world hello at_carol))
receive-Outcome_example =
    receive-Outcome sample_env (node carol []) quiet_world hello [] hello-IsMessage
      sample_env-IsAmple

-- Carol's router gets its callback, the message, and then a neighbour.
abbrev bare_node : Node
bare_node = record (node carol []) { on_message = none }

abbrev carol_later : Node
carol_later = record at_carol.1 { peers = add_to sample_env (peer_of bob) at_carol.1.peers }

bare_node-create :
    create sample_env (some air_transport) (some list_storage) (some carol) (some small_config)
    ≡ some bare_node
unfolding create
bare_node-create = refl

carol_life : Reach bare_node carol_later
carol_life =
    next
      (next (next here (set_on_message (some (λ m inbox. inbox ++ (m ∷ []))) refl)) (
        receive sample_env quiet_world at_carol.2 (some (encode hello ++ [])) at_carol.0 (
          receive_packet-encode sample_env (node carol []) quiet_world hello [] hello-IsMessage
            sample_env-IsAmple)))
      (add_peer sample_env (peer_of bob) refl)

Reach-IsValid_example : IsValid carol_later
Reach-IsValid_example =
    Reach-IsValid sample_env (some air_transport) (some list_storage) (some carol)
      (some small_config) (omega arith) bare_node-create carol_life
