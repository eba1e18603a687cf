-- ===== src/Stub.antt =====
-- src/infra/transport_ble.c and transport_wifi.c: the two transports that are not implemented yet.
use bit_chat.Prelude.{ℕ, List, [], Option, none, some, if◌then◌else◌}
use bit_chat.Status.{Status, err_not_implemented, Env, transport_struct}
use bit_chat.Peer.{Peer}
use bit_chat.Port.{Transport}

ble_init : Unit {0} → Status × Unit {0}
ble_init self = (err_not_implemented, self)

ble_send : Unit {0} → List ℕ → List ℕ → Status × Unit {0}
ble_send self peer_pubkey packet = (err_not_implemented, self)

ble_recv : Unit {0} → ℕ → Status × List ℕ × List ℕ × Unit {0}
ble_recv self buf_len = (err_not_implemented, [], [], self)

ble_discover : Unit {0} → ℕ → Status × List Peer × Unit {0}
ble_discover self max_peers = (err_not_implemented, [], self)

ble_destroy : Unit {0} → Unit {0}
ble_destroy self = self

-- `bc_transport_ble_create`; the context is NULL.
unfoldable pub ble_create : Env → Option (Transport (Unit {0}))
unfolding ble_init ble_send ble_recv ble_discover ble_destroy
ble_create env =
    if env.alloc transport_struct
    then some record {
      init = some ble_init;
      send = some ble_send;
      recv = some ble_recv;
      discover_peers = some ble_discover;
      destroy = ble_destroy;
    }
    else none

wifi_init : Unit {0} → Status × Unit {0}
wifi_init self = (err_not_implemented, self)

wifi_send : Unit {0} → List ℕ → List ℕ → Status × Unit {0}
wifi_send self peer_pubkey packet = (err_not_implemented, self)

wifi_recv : Unit {0} → ℕ → Status × List ℕ × List ℕ × Unit {0}
wifi_recv self buf_len = (err_not_implemented, [], [], self)

wifi_discover : Unit {0} → ℕ → Status × List Peer × Unit {0}
wifi_discover self max_peers = (err_not_implemented, [], self)

wifi_destroy : Unit {0} → Unit {0}
wifi_destroy self = self

-- `bc_transport_wifi_create`
unfoldable pub wifi_create : Env → Option (Transport (Unit {0}))
unfolding wifi_init wifi_send wifi_recv wifi_discover wifi_destroy
wifi_create env =
    if env.alloc transport_struct
    then some record {
      init = some wifi_init;
      send = some wifi_send;
      recv = some wifi_recv;
      discover_peers = some wifi_discover;
      destroy = wifi_destroy;
    }
    else none
