-- ===== src/Peer.antt =====
-- src/domain/peer.c and include/bitchat/domain/peer.h: a peer and its contact time.
use bit_chat.Prelude.{ℕ, List, Option, none, some, take}
use bit_chat.Status.{Env}
use bit_chat.Message.{pubkey_size}

-- `BC_MAX_PEERS`
abbrev pub max_peers : ℕ
max_peers = 64

-- `bc_transport_type_t`
pub data TransportType : Type 0 where
  ble wifi_direct : TransportType

-- `bc_peer_t`; `rssi` is the bit pattern of an `int8_t`, only copied.
pub record Peer : Type 0 where
  pub pubkey : List ℕ
  pub last_seen : ℕ
  pub transport : TransportType
  pub rssi : ℕ

-- `bc_peer_init`. The first argument is what the struct held; a NULL pointer stays NULL.
unfoldable pub init : Env → Option Peer → Option (List ℕ) → TransportType → Option Peer
init env (some peer) (some pubkey) transport = some record {
  pubkey = take pubkey_size pubkey;
  last_seen = env.now;
  transport = transport;
  rssi = 0;
}
init env peer pubkey transport = peer

-- `bc_peer_touch`, at a peer that is there.
abbrev pub touch_peer : Env → Peer → Peer
touch_peer env peer = record peer { last_seen = env.now }

-- `bc_peer_touch`
unfoldable pub touch : Env → Option Peer → Option Peer
touch env none = none
touch env (some peer) = some (touch_peer env peer)
