-- ===== src/Tests/Networks.antt =====
-- The theorems on two programs that talk over UDP, at concrete ones.
use bit_chat.Prelude.{
  suc, ℕ, ◌+◌, ◌<◌, ◌≡◌, refl, ap, true, false, List, [], ◌∷◌, ◌++◌, arith, Option, none, some,
  ◌==◌, if◌then◌else◌, length, take, replicate, length-replicate,
}
use mathlib.Core.List.{Memᴰ}
use bit_chat.Status.{ok, err_invalid, returned}
use bit_chat.Message.{Message, IsMessage}
use bit_chat.Message as Message
use bit_chat.Message.Typed.{IsTyped, deserialize-create}
use bit_chat.Message.Deserialize.{parsed, deserialize}
use bit_chat.Message.Format.{big_endian, encode, length-encode}
use bit_chat.Message.Wire.{write_u64_be, write_u32_be}
use bit_chat.Message.Serialize.{serialize_into}
use bit_chat.Crypto as Crypto
use bit_chat.Crypto.{encrypt, derive_shared}
use bit_chat.Dedup.{blank, contains, contains_from, hash}
use bit_chat.Peer.{Peer, wifi_direct}
use bit_chat.Dedup.{evict}
use bit_chat.Port.{Transport}
use bit_chat.Router.Receive.{has_seen}
use bit_chat.Router.Tick.{evict_seen}
use bit_chat.Udp.{Udp, Sockets, udp_send, udp_recv, send_all}
use bit_chat.Udp.Loopback.{IsLoopback}
use bit_chat.Router.{
  Router, World, default_config, broadcast_message, forward_to_peers, receive_packet,
}
use bit_chat.Router.Cut.{receive_packet-take}
use bit_chat.Forward.{forward_with, forward_loop}
use bit_chat.Cli.{bytes_to_hex}
use bit_chat.Cli.Command.{
  Cli, send_text, msg_result, on_message_received, c_string, incoming, message_sent, printed, print,
  banner, public_key, cmd_info,
}
use bit_chat.Cli.Shown.{last_line}
use bit_chat.Cli.SetUp.{IsStarted, run-start}
use bit_chat.Cli.Loop.{codes, typed, signal, step, tick, run, dispatch, strip_newline}
use bit_chat.Cli.Arrive.{within, hearing, step-send_text}
use bit_chat.Cli.Offline.{step-step-send_text}
use bit_chat.Cli.Lost.{step-send_text_long}
use bit_chat.Tests.Data.{
  alice, bob, hello, hello-IsMessage, memcmp, sample_env, later_env, sample_env-IsAmple,
  later_env-IsAmple,
}
use bit_chat.Tests.Toys.{toy_sodium, toy_sodium-IsSodium, toy_engine, toy_engine-IsEngine}
use bit_chat.Tests.Apis.{hi}
use bit_chat.Tests.Clis.{terminal_of, identity_of, toy_system, saved_files, lookup}
use bit_chat.Cli.Start.{start, started, load_or_generate, assemble, add_found}
use bit_chat.Identity as Identity
use bit_chat.Sqlite as Sqlite
use bit_chat.Sqlite.{Row, vtable, set_up}
use bit_chat.Udp as Udp
use bit_chat.Udp.{udp_create, udp_discover_peers}
use bit_chat.Router as Router

-- A network of one receiving socket: 4, at port 9001.
abbrev Network : Type 0
Network = List (List ℕ)

toy_sendto : Network → ℕ → ℕ → List ℕ → Option ℕ × Network
toy_sendto net sockfd port packet =
    if port == 9001
    then (some (length packet), net ++ (packet ∷ []))
    else (some (length packet), net)

toy_recvfrom : Network → ℕ → ℕ → Option (List ℕ) × Network
toy_recvfrom [] sockfd n = (none, [])
toy_recvfrom (p ∷ ps) sockfd n = (some (take n p), ps)

unfoldable toy_sockets : Sockets Network
unfolding toy_sendto toy_recvfrom
toy_sockets = record {
  socket = λ net. (some 4, net);
  bind = λ net sockfd port. (true, net);
  close = λ net sockfd. net;
  sendto = toy_sendto;
  recvfrom = toy_recvfrom;
}

toy_sockets-IsLoopback : IsLoopback toy_sockets (λ net. net) 9001 4
unfolding toy_sockets toy_sendto toy_recvfrom
toy_sockets-IsLoopback = record {
  queued = λ net sockfd packet small. refl;
  elsewhere = λ net sockfd other packet differ. ground arith;
  taken = λ net n packet packets waits. rw waits (refl, refl);
  empty = λ net n waits. rw waits refl;
}

abbrev udp_transport : Transport (Udp Network)
udp_transport = record {
  init = none;
  send = some (udp_send toy_sockets);
  recv = some (udp_recv toy_sockets);
  discover_peers = none;
  destroy = λ self. self;
}

-- A program that `main` started, with the key and the socket given.
abbrev program_of : List ℕ → ℕ → List ℕ → List Peer → Cli (Unit {0}) Network
program_of key sockfd peer_ports peers = record {
  router = record {
    transport = some udp_transport;
    storage = none;
    config = default_config;
    local_pubkey = key;
    dedup_table = replicate 4 blank;
    dedup_cap = 4;
    peers = peers;
    on_message = some (on_message_received toy_sodium);
    last_sf_tick = 0;
  };
  world = record {
    store = tt;
    net = record { sockfd = sockfd; my_port = 9000; peer_ports = peer_ports; net = [] };
    user = terminal_of key;
  };
  is_running = true;
}

abbrev neighbour : Peer
neighbour = record { pubkey = bob; last_seen = 0; transport = wifi_direct; rssi = 0 }

abbrev first : Cli (Unit {0}) Network
first = program_of alice 3 (9001 ∷ []) (neighbour ∷ [])

abbrev second : Cli (Unit {0}) Network
second = program_of bob 4 [] []

first-IsStarted : IsStarted toy_sodium toy_sockets first
first-IsStarted = record {
  set_up = record {
    valid = record { sized = refl; pos = omega arith; few = omega arith; distinct = (tt, tt) };
    transport = udp_transport;
    has_transport = refl;
    udp = record { sends = refl; receives = refl };
    calls = refl;
  };
  config = refl;
  own = refl;
}

second-IsStarted : IsStarted toy_sodium toy_sockets second
second-IsStarted = record {
  set_up = record {
    valid = record { sized = refl; pos = omega arith; few = omega arith; distinct = tt };
    transport = udp_transport;
    has_transport = refl;
    udp = record { sends = refl; receives = refl };
    calls = refl;
  };
  config = refl;
  own = refl;
}

sample_env-IsTyped : IsTyped sample_env
sample_env-IsTyped = record { clock = omega arith; random_sized = λ n. length-replicate n 5 }

first_sends :
    last_line (send_text toy_sodium sample_env first bob hi).world.user.output ≡ some message_sent
unfolding send_text msg_result Message.create encrypt derive_shared toy_sodium broadcast_message
    serialize_into last_line forward_to_peers forward_with forward_loop udp_send send_all
    toy_sockets
first_sends = refl

first_arrives : (send_text toy_sodium sample_env first bob hi).world.net.net ≡ (
    replicate 1 (
      encode
        record hello { uuid = replicate 16 5; payload = replicate 24 5 ++ (hi ++ replicate 16 0) }))
unfolding send_text msg_result Message.create encrypt derive_shared toy_sodium broadcast_message
    serialize_into forward_to_peers forward_with forward_loop udp_send send_all toy_sockets encode
    write_u64_be write_u32_be big_endian
first_arrives = refl

-- A text that fills a line of the terminal.
abbrev long_text : List ℕ
long_text = replicate 4000 65

first_sends_long :
    last_line (send_text toy_sodium sample_env first bob long_text).world.user.output
    ≡ some message_sent
unfolding send_text msg_result Message.create encrypt derive_shared toy_sodium broadcast_message
    serialize_into last_line forward_to_peers forward_with forward_loop udp_send send_all
    toy_sockets
first_sends_long = refl

second-new : has_seen (evict_seen later_env second.router) (replicate 16 5) ≡ false
unfolding contains contains_from hash evict
second-new = refl

step-send_text_example :
    let c' = send_text toy_sodium sample_env first bob hi in
    (d' : Cli (Unit {0}) Network) × (step toy_sodium (tick 5 later_env) (hearing second c')
      ≡ returned d')
    × (d'.world.user.output ≡ incoming (bytes_to_hex alice) (c_string hi) ∷ [])
unfolding toy_sodium
step-send_text_example =
    step-send_text toy_sodium-IsSodium toy_sockets-IsLoopback sample_env later_env (1 ∷ []) (2 ∷ [])
      first hi 5 first-IsStarted second-IsStarted refl refl sample_env-IsTyped sample_env-IsAmple
      later_env-IsAmple (omega arith) (omega arith) (Memᴰ.head refl) refl second-new first_sends
      (omega (arith, ap length first_arrives))

step-send_text_long_example :
    let c' = send_text toy_sodium sample_env first bob long_text in
    (d' : Cli (Unit {0}) Network) × (step toy_sodium
        (tick (length c'.world.net.net + 1) later_env)
        (hearing second c')
      ≡ returned d')
    × (0 < length c'.world.net.net)
    × (d'.world.user.output ≡ [])
unfolding toy_sodium
step-send_text_long_example =
    let c' = send_text toy_sodium sample_env first bob long_text in
    step-send_text_long toy_sodium-IsSodium toy_sockets-IsLoopback sample_env later_env (1 ∷ [])
      (2 ∷ []) first long_text (length c'.world.net.net + 1) first-IsStarted second-IsStarted refl
      refl sample_env-IsTyped sample_env-IsAmple (omega (arith, length-replicate {A = ℕ} 4000 65))
      (omega (arith, length-replicate {A = ℕ} 4000 65)) (omega arith) (Memᴰ.head refl) refl
      first_sends_long (omega arith)

receive_packet-take_example :
    receive_packet sample_env second.router second.world (some (take 94 (encode hello)))
    ≡ returned (err_invalid, second.router, second.world)
receive_packet-take_example =
    receive_packet-take sample_env second.router second.world hello 94 hello-IsMessage
      (omega (arith, length-encode hello-IsMessage))

made :
    Message.create sample_env (some alice) (some bob) (some hi)
    ≡ some (record hello { uuid = replicate 16 5; payload = hi })
unfolding Message.create
made = refl

deserialize-create_example :
    (m : Message) × (Message.create sample_env (some alice) (some bob) (some hi) ≡ some m)
    × (let (rc, buf', out_len) = serialize_into m (replicate 100 0) in
        (rc ≡ ok)
        × (out_len ≡ 95)
        × (deserialize later_env (some buf')
            ≡ parsed record {
              uuid = replicate 16 5;
              ttl = 10;
              sender_pubkey = alice;
              receiver_pubkey = bob;
              timestamp = 1000;
              payload = hi;
            }))
deserialize-create_example =
    deserialize-create sample_env later_env alice bob hi (replicate 100 0) sample_env-IsTyped
      sample_env-IsAmple later_env-IsAmple (omega arith) (omega arith) (omega arith) (omega arith)

-- The first start of a program, which finds no file.
abbrev begun : Cli (List Row) Network
begun = record {
  router = record {
    transport = some (Udp.vtable toy_sockets);
    storage = some (vtable toy_engine);
    config = default_config;
    local_pubkey = replicate 32 5;
    dedup_table = replicate 10000 blank;
    dedup_cap = 10000;
    peers = [];
    on_message = some (on_message_received toy_sodium);
    last_sf_tick = 0;
  };
  world = record {
    store = [];
    net = record { sockfd = 4; my_port = 9000; peer_ports = []; net = [] };
    user =
        print
          (banner 9000 (bytes_to_hex (replicate 32 5)) (107 ∷ (9000 ∷ [])) (100 ∷ (9000 ∷ [])) 0)
          (terminal_of (replicate 32 5));
  };
  is_running = true;
}

begins :
    start toy_system toy_sodium toy_engine toy_sockets sample_env (identity_of []) [] [] ([] ∷ [])
    ≡ (started begun, saved_files)
unfolding Crypto.init start load_or_generate lookup toy_sodium Identity.generate assemble
    Sqlite.create set_up toy_engine udp_create toy_sockets Router.create add_found
    udp_discover_peers
begins = refl

abbrev ended : Cli (List Row) Network
ended = record (printed begun (public_key (bytes_to_hex (replicate 32 5)))) { is_running = false }

ends : run toy_sodium (typed sample_env (codes "/info") ∷ (signal ∷ [])) begun ≡ returned ended
unfolding run step dispatch cmd_info strip_newline c_string
ends = refl

run-start_example :
    IsStarted toy_sodium toy_sockets ended
    × (ended.router.storage ≡ some (vtable toy_engine))
    × (ended.world.user.identity ≡ begun.world.user.identity)
    × (ended.world.net.sockfd ≡ begun.world.net.sockfd)
    × (ended.world.net.peer_ports ≡ begun.world.net.peer_ports)
run-start_example =
    run-start toy_system toy_engine sample_env (identity_of []) [] saved_files [] ([] ∷ [])
      (typed sample_env (codes "/info") ∷ (signal ∷ [])) begins ends

-- A program with a database, and its neighbour.
abbrev keeping : Cli (List Row) Network
keeping = record {
  router = record {
    transport = some udp_transport;
    storage = some (vtable toy_engine);
    config = default_config;
    local_pubkey = alice;
    dedup_table = replicate 4 blank;
    dedup_cap = 4;
    peers = neighbour ∷ [];
    on_message = some (on_message_received toy_sodium);
    last_sf_tick = 0;
  };
  world = record { store = []; net = first.world.net; user = terminal_of alice };
  is_running = true;
}

keeping-IsStarted : IsStarted toy_sodium toy_sockets keeping
keeping-IsStarted = record {
  set_up = record {
    valid = record { sized = refl; pos = omega arith; few = omega arith; distinct = (tt, tt) };
    transport = udp_transport;
    has_transport = refl;
    udp = record { sends = refl; receives = refl };
    calls = refl;
  };
  config = refl;
  own = refl;
}

keeping_sends :
    last_line (send_text toy_sodium sample_env keeping bob hi).world.user.output ≡ some message_sent
unfolding send_text msg_result Message.create encrypt derive_shared toy_sodium broadcast_message
    serialize_into last_line forward_to_peers forward_with forward_loop udp_send send_all
    toy_sockets
keeping_sends = refl

step-step-send_text_example :
    let c' = send_text toy_sodium sample_env keeping bob hi in
    (c'' : Cli (List Row) Network) × (d' : Cli (Unit {0}) Network) × (step toy_sodium
        (tick 1 later_env)
        (within c' [])
      ≡ returned c'')
    × (step toy_sodium (tick (suc (length c''.world.net.net)) later_env) (hearing second c'')
        ≡ returned d')
    × (d'.world.user.output ≡ incoming (bytes_to_hex alice) (c_string hi) ∷ [])
unfolding toy_sodium toy_sockets toy_engine
step-step-send_text_example =
    step-step-send_text toy_sodium-IsSodium toy_sockets-IsLoopback toy_engine-IsEngine sample_env
      later_env later_env (1 ∷ []) (2 ∷ []) keeping hi [] 0 keeping-IsStarted second-IsStarted refl
      refl sample_env-IsTyped sample_env-IsAmple later_env-IsAmple later_env-IsAmple (omega arith)
      (omega arith) (Memᴰ.head refl) refl refl (λ row. refl) (omega arith) (omega arith) refl refl
      refl second-new keeping_sends
