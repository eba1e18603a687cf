-- ===== src/Lib.antt =====
-- BitChat: the C core of the mesh messenger.
--
-- The parts and how they interact. A message (src/domain/message.c) is written to a wire format and
-- read back. The mesh router (src/usecase/mesh_router.c) receives packets from a transport, drops the
-- UUIDs that its dedup cache knows, hands messages for the local key to a callback, and stores and
-- forwards all others; the transport and the storage are vtables (include/bitchat/port/). The bridge
-- (src/bridge/bitchat_ffi.c) holds one router, one identity and one storage, encrypts what it sends and
-- decrypts what it receives; the JNI bridge (src/bridge/bitchat_jni.c) gives its functions to a Java VM.
-- The command-line program (src/cli/main.c) has a router of its own, over the UDP transport and SQLite.
--
--   Status     include/bitchat/error.h; what a call reads from outside: clock, allocator, random bytes
--   Sodium     what is taken from libsodium, as parameters
--   Message    src/domain/message.c: the record, `create`; Wire (big-endian words), Serialize,
--              Deserialize; proofs in Format, RoundTrip, Bounds, Canonical, Typed, Truncated
--   Peer       src/domain/peer.c
--   Port       include/bitchat/port/storage.h and transport.h
--   Dedup      src/usecase/mesh_router.c, the dedup cache; proofs in Probe, Insert, Evict; Race: two
--              threads in dedup_insert; proofs in Race/Lost
--   Forward    src/usecase/mesh_router.c, forward_to_peers; proofs in Fanout
--   Router     src/usecase/mesh_router.c, the other operations, with Peers (bc_router_add_peer) and
--              Tick (bc_router_tick); proofs in PeerTable, Valid, Reach, Receive, Outcome, Alone,
--              Keeps, Drain, Redelivery, Path, Rebroadcast, Callbacks, Parts, Rounds, Copies, Cut,
--              Resend
--   Discovery  src/usecase/node_discovery.c; proofs in Scan
--   Identity   src/domain/identity.c; proofs in RoundTrip
--   Stub       src/infra/transport_ble.c and transport_wifi.c
--   Crypto     src/usecase/crypto_manager.c; proofs in Agree
--   Store      src/usecase/message_store.c; proofs in Retained
--   Cli        src/cli/main.c: the hexadecimal conversions, Command (the commands and the message
--              callback), Loop (the input loop, the tick thread, the signal, the end), Start (main up to the
--              prompt); proofs in Hex, Same, Shown, Restart, Program, Begin, SetUp, Sent, Arrive,
--              Lost, Offline
--   Udp        src/infra/transport_udp_sim.c; proofs in Ports, Slots; one receiving socket in Loopback
--   Sqlite     src/infra/storage_sqlite.c; what its statements do in Table; proofs in Retention, Pending
--   Ffi        src/bridge/bitchat_ffi.c: the state and the message callback, Api (the public functions),
--              Inbox (bitchat_poll_messages), Calls (its life as calls); proofs in Isolated, Locked,
--              Envelope, Sealed, Slots, Ring, Loaded
--   Jni        src/bridge/bitchat_jni.c: the listener and the callback, Calls (the methods of the Kotlin
--              class); proofs in Held, Stored, Polled
--   Tests      runs of the model and the theorems at concrete inputs
--
-- State. A byte array is a list of numbers, a pointer that may be NULL an option, a struct a record.
-- The contexts of the adapters and what `userdata` points to are shared between objects: they stand in
-- a `World` that each operation takes and returns. Words keep their wrap-around: `% 2 ^ 32` and
-- `% 2 ^ 64` are written out. One call sees one value of the clock. The allocator's answer is a
-- parameter for each request. A read outside a buffer ends a call as `overread` (`fault` in the parser).
--
-- Fuel. The loop of bc_router_tick that polls the transport runs as long as the transport has data, and
-- takes fuel; one more than the packets that wait is enough.
--
-- Threads. The functions of the bridge run under its lock as a whole. Locking the mutex where it is
-- not made or destroyed is undefined in the source; the model of a call then is what the function does
-- behind its LOCK(), and says nothing of that. The program of src/cli/main.c has no lock: its model
-- takes each command, each round of the tick thread and each signal as one event, and says nothing of
-- calls that overlap, except for two insertions into the dedup cache (Dedup/Race), where a round of
-- the probe and the write of an entry are one step each. A listener of the JNI bridge does not call
-- the bridge.
--
-- The network. The socket calls are parameters of the UDP transport. Where a theorem speaks of two
-- programs, both have the same state of the network, and what one of them sends to the port of the other
-- waits there in order, as long as there is room.
--
-- Not modelled: the memory that is given back (so that bc_router_destroy, bc_store_destroy and
-- bc_discovery_destroy do nothing), what a start of the program that fails leaves of the socket and the
-- database, and the code of libsodium, SQLite, the sockets, the file system and the Java VM, whose calls
-- are parameters.
pub mod Prelude
pub mod Status
pub mod Sodium
pub mod Message
pub mod Peer
pub mod Port
pub mod Dedup
pub mod Forward
pub mod Router
pub mod Discovery
pub mod Identity
pub mod Stub
pub mod Crypto
pub mod Store
pub mod Cli
pub mod Udp
pub mod Sqlite
pub mod Ffi
pub mod Jni
pub mod Tests
