-- ===== src/Router.antt =====
-- src/usecase/mesh_router.c: the gossip router. A router is a record; the contexts of its two adapters
-- and what `userdata` points to are shared with its owner, and stand in a world that each operation
-- takes and returns. A NULL router or argument is `none`.
pub mod Peers
pub mod Tick
pub mod PeerTable
pub mod Valid
pub mod Reach
pub mod Receive
pub mod Outcome
pub mod Alone
pub mod Keeps
pub mod Drain
pub mod Redelivery
pub mod Path
pub mod Rebroadcast
pub mod Copies
pub mod Cut
pub mod Resend
pub mod Callbacks
pub mod Parts
pub mod Rounds
use bit_chat.Prelude.{
  ℕ, zero, suc, ◌+◌, ◌-◌, ◌*◌, ◌%◌, ◌^◌, Bool, true, false, not, ◌&&◌, List, [], ◌∷◌, ◌++◌, map,
  ltb, leb, ◌==◌, if◌then◌else◌, Option, none, some, length, replicate, take,
}
use bit_chat.Status.{
  Status, ok, err_invalid, err_nomem, err_duplicate, err_ttl_expired, err_transport, is_ok, Env,
  Request, router_struct, dedup_entries, bytes, Run, returned, overread, unfinished, ◌>>=◌,
}
use bit_chat.Sodium.{Memcmp}
use bit_chat.Message.{Message, pubkey_size}
use bit_chat.Message.Serialize.{needed_size, serialize_into}
use bit_chat.Message.Deserialize.{Parsed, null, fault, parsed, deserialize}
use bit_chat.Peer.{Peer, max_peers, touch_peer}
use bit_chat.Forward.{forward_with, sender}
use bit_chat.Port.{Storage, Transport}
use bit_chat.Dedup.{Entry, blank}
use bit_chat.Dedup

-- `bc_router_config_t`
pub record Config : Type 0 where
  pub fanout : ℕ
  pub dedup_cap : ℕ
  pub dedup_max_age : ℕ

-- `BC_DEFAULT_FANOUT`, `BC_DEFAULT_DEDUP_CAP`, `BC_DEFAULT_DEDUP_AGE`
abbrev pub default_config : Config
default_config = record { fanout = 3; dedup_cap = 10000; dedup_max_age = 600 }

-- `BC_SF_REBROADCAST_SEC`
abbrev pub sf_rebroadcast_sec : ℕ
sf_rebroadcast_sec = 3

-- The contexts of the storage and transport adapters, and what `on_message_userdata` points to.
pub record World (S T U : Type 0) : Type 0 where
  pub store : S
  pub net : T
  pub user : U

-- `bc_router_t`; the first `peer_count` entries of `peers` are a list.
pub record Router (S T U : Type 0) : Type 0 where
  pub transport : Option (Transport T)
  pub storage : Option (Storage S)
  pub config : Config
  pub local_pubkey : List ℕ
  pub dedup_table : List Entry
  pub dedup_cap : ℕ
  pub peers : List Peer
  pub on_message : Option (Message → U → U)
  pub last_sf_tick : ℕ

-- `config ? *config : the defaults`
abbrev pub config_or_default : Option Config → Config
config_or_default none = default_config
config_or_default (some c) = c

module _ {S : Type 0} where
  persist_with : Env → Option (Env → S → Message → Status × S) → Message → S → S
  persist_with env none m s = s
  persist_with env (some store_message) m s = (store_message env s m).1

  -- `router->storage->store_message(router->storage, msg)`, where both pointers may be NULL; the code
  -- drops the result.
  unfoldable pub persist : Env → Option (Storage S) → Message → S → S
  unfolding persist_with
  persist env none m s = s
  persist env (some storage) m s = persist_with env storage.store_message m s

module _ {S T U : Type 0} where
  -- `bc_router_create`
  unfoldable pub create :
      Env
      → Option (Transport T)
      → Option (Storage S)
      → Option (List ℕ)
      → Option Config
      → Option (Router S T U)
  create env transport storage none config = none
  create env transport storage (some local_pubkey) config =
      let c = config_or_default config in
      if env.alloc router_struct && env.alloc dedup_entries
      then some record {
        transport = transport;
        storage = storage;
        config = c;
        local_pubkey = take pubkey_size local_pubkey;
        dedup_table = replicate c.dedup_cap blank;
        dedup_cap = c.dedup_cap;
        peers = [];
        on_message = none;
        last_sf_tick = 0;
      }
      else none

  -- `bc_router_set_on_message`
  unfoldable pub set_on_message :
      Option (Router S T U) → Option (Message → U → U) → Option (Router S T U)
  set_on_message none callback = none
  set_on_message (some r) callback = some (record r { on_message = callback })

  -- `dedup_insert(router, uuid)`
  abbrev pub mark_seen : Env → Router S T U → List ℕ → Router S T U
  mark_seen env r uuid = record r {
    dedup_table = Dedup.insert r.dedup_table r.dedup_cap r.config.dedup_max_age uuid env.now;
  }

  -- `forward_to_peers`
  unfoldable pub forward_to_peers : Router S T U → List ℕ → World S T U → Status × World S T U
  forward_to_peers r packet w =
      let (rc, net') = forward_with (sender r.transport) r.config.fanout packet r.peers w.net in
      (rc, record w { net = net' })

  -- `malloc`, `bc_message_serialize` and `forward_to_peers`, as `bc_router_receive` and
  -- `bc_router_tick` have them; the fresh buffer's content is overwritten.
  unfoldable pub serialize_and_forward : Env → Router S T U → Message → World S T U → World S T U
  serialize_and_forward env r m w =
      let (rc, buf, out_len) = serialize_into m (replicate (needed_size m) 0) in
      if env.alloc (bytes (needed_size m)) && is_ok rc
      then (forward_to_peers r (take out_len buf) w).1
      else w

  -- The body of `bc_router_broadcast`, behind its guard.
  unfoldable pub broadcast_message :
      Env → Router S T U → World S T U → Message → Status × Router S T U × World S T U
  broadcast_message env r w m =
      let r' = mark_seen env r m.uuid in
      let (rc, buf, out_len) = serialize_into m (replicate (needed_size m) 0) in
      let sent = (forward_to_peers r' (take out_len buf) w).1 in
      if not (env.alloc (bytes (needed_size m)))
      then (err_nomem, r', w)
      else if not (is_ok rc)
      then (rc, r', w)
      else (ok, r', record sent { store = persist env r'.storage m sent.store })

  -- `bc_router_broadcast`
  unfoldable pub broadcast :
      Env
      → Option (Router S T U)
      → World S T U
      → Option Message
      → Status × Option (Router S T U) × World S T U
  broadcast env (some r) w (some m) =
      let (rc, r', w') = broadcast_message env r w m in (rc, some r', w')
  broadcast env r w m = (err_invalid, r, w)

  -- `if (router->on_message) router->on_message(msg, userdata)`
  unfoldable pub deliver : Option (Message → U → U) → Message → World S T U → World S T U
  deliver none m w = w
  deliver (some callback) m w = record w { user = callback m w.user }

  -- The last part of `bc_router_receive`: store, then forward.
  unfoldable pub relay : Env → Router S T U → Message → World S T U → World S T U
  relay env r m w =
      serialize_and_forward env r m (record w { store = persist env r.storage m w.store })

module _ ⦃mem : Memcmp⦄ {S T U : Type 0} where
  -- `bc_router_receive`, from the dedup check on.
  unfoldable pub receive_message :
      Env → Router S T U → World S T U → Message → Status × Router S T U × World S T U
  receive_message env r w m =
      let r' = mark_seen env r m.uuid in
      let m' = record m { ttl = m.ttl - 1 } in
      if Dedup.contains r.dedup_table r.dedup_cap m.uuid
      then (err_duplicate, r, w)
      else if m.ttl == 0
      then (err_ttl_expired, r', w)
      else if mem.same m'.receiver_pubkey r'.local_pubkey
      then (ok, r', deliver r'.on_message m' w)
      else (ok, r', relay env r' m' w)

  unfoldable pub receive_parsed :
      Env → Router S T U → World S T U → Parsed → Run (Status × Router S T U × World S T U)
  receive_parsed env r w null = returned (err_invalid, r, w)
  receive_parsed env r w fault = overread
  receive_parsed env r w (parsed m) = returned (receive_message env r w m)

  -- `bc_router_receive`, for a router that is there; `len` is the packet's length.
  unfoldable pub receive_packet :
      Env → Router S T U → World S T U → Option (List ℕ) → Run (Status × Router S T U × World S T U)
  receive_packet env r w none = returned (err_invalid, r, w)
  receive_packet env r w (some packet) =
      if length packet == 0
      then returned (err_invalid, r, w)
      else receive_parsed env r w (deserialize env (some packet))

  -- `bc_router_receive`
  unfoldable pub receive :
      Env
      → Option (Router S T U)
      → World S T U
      → Option (List ℕ)
      → Run (Status × Option (Router S T U) × World S T U)
  receive env none w packet = returned (err_invalid, none, w)
  receive env (some r) w packet = do
    (rc, r', w') ← receive_packet env r w packet
    returned (rc, some r', w')
