-- ===== src/Udp.antt =====
-- src/infra/transport_udp_sim.c: the transport of the simulation, over UDP sockets of the local host.
-- The sockets are a parameter.
pub mod Ports
pub mod Loopback
pub mod Slots
use bit_chat.Prelude.{
  ℕ, ◌+◌, ◌*◌, ◌/◌, ◌%◌, ◌^◌, Bool, true, false, ◌||◌, List, [], ◌∷◌, ◌++◌, Option, none, some, ltb,
  ◌==◌, if◌then◌else◌, length, take, map, replicate,
}
use bit_chat.Status.{
  Status, ok, err, err_invalid, err_transport, Env, Request, transport_struct, context_struct,
  bytes,
}
use bit_chat.Peer.{Peer, wifi_direct}
use bit_chat.Port.{Transport}

-- The socket calls, on the state `K` of the network. `none` is a negative result; a port is that of the
-- loopback address.
pub record Sockets (K : Type 0) : Type 0 where
  pub socket : K → Option ℕ × K
  pub bind : K → ℕ → ℕ → Bool × K
  pub close : K → ℕ → K
  pub sendto : K → ℕ → ℕ → List ℕ → Option ℕ × K
  -- `recvfrom(fd, buf, n, MSG_DONTWAIT)`: the bytes of one datagram that fit
  pub recvfrom : K → ℕ → ℕ → Option (List ℕ) × K

-- `udp_ctx_t`, and the network.
pub record Udp (K : Type 0) : Type 0 where
  pub sockfd : ℕ
  pub my_port : ℕ
  pub peer_ports : List ℕ
  pub net : K

-- `n == (ssize_t)len`
abbrev pub is_whole : Option ℕ → ℕ → Bool
is_whole none len = false
is_whole (some n) len = n == len

-- One entry of `udp_discover_peers`; a new struct is zeroed.
unfoldable pub synthetic_peer : ℕ → Peer
synthetic_peer port = record {
  pubkey = (port % 256) ∷ (((port / 256) % 256) ∷ replicate 30 0);
  last_seen = 0;
  transport = wifi_direct;
  rssi = 0;
}

module _ {K : Type 0} (sockets : Sockets K) where
  udp_init : Udp K → Status × Udp K
  udp_init self = (ok, self)

  -- The loop of `udp_send`: `sent_any`, and the network.
  unfoldable pub send_all : ℕ → List ℕ → List ℕ → Bool → K → Bool × K
  send_all sockfd packet [] sent_any net = (sent_any, net)
  send_all sockfd packet (port ∷ ports) sent_any net =
      let (n, net') = sockets.sendto net sockfd port packet in
      send_all sockfd packet ports (is_whole n (length packet) || sent_any) net'

  -- `udp_send`
  unfoldable pub udp_send : Udp K → List ℕ → List ℕ → Status × Udp K
  udp_send self peer_pubkey packet =
      let (sent_any, net') = send_all self.sockfd packet self.peer_ports false self.net in
      if length packet == 0
      then (err_invalid, self)
      else (if sent_any then ok else err_transport, record self { net = net' })

  -- What `recvfrom` gave.
  abbrev pub received : Udp K → Option (List ℕ) × K → Status × List ℕ × List ℕ × Udp K
  received self (none, net) = (err, [], [], record self { net = net })
  received self (some [], net) = (err, [], [], record self { net = net })
  received self (some (b ∷ bs), net) = (ok, b ∷ bs, replicate 32 0, record self { net = net })

  -- `udp_recv`
  unfoldable pub udp_recv : Udp K → ℕ → Status × List ℕ × List ℕ × Udp K
  udp_recv self buf_len = received self (sockets.recvfrom self.net self.sockfd buf_len)

  -- `udp_discover_peers`
  unfoldable pub udp_discover_peers : Udp K → ℕ → Status × List Peer × Udp K
  udp_discover_peers self max_peers =
      (ok, map synthetic_peer (take max_peers self.peer_ports), self)

  -- `udp_destroy`. A socket that was made is not negative.
  unfoldable pub udp_destroy : Udp K → Udp K
  udp_destroy self = record self { net = sockets.close self.net self.sockfd }

  abbrev pub vtable : Transport (Udp K)
  unfolding udp_init
  vtable = record {
    init = some udp_init;
    send = some udp_send;
    recv = some udp_recv;
    discover_peers = some udp_discover_peers;
    destroy = udp_destroy;
  }

  bind_socket : Env → ℕ → List ℕ → Option ℕ × K → Option (Transport (Udp K) × Udp K) × K
  unfolding vtable
  bind_socket env my_port ports (none, net) = (none, net)
  bind_socket env my_port ports (some sockfd, net) =
      let (bound, net') = sockets.bind net sockfd my_port in
      if bound
      then (if env.alloc transport_struct
          then (
            some (
              vtable,
              record { sockfd = sockfd; my_port = my_port; peer_ports = ports; net = net' },
            ),
            net',
          )
          else (none, sockets.close net' sockfd))
      else (none, sockets.close net' sockfd)

  -- The ports that are copied, if there are any.
  abbrev pub peer_list : Option (List ℕ) → List ℕ
  peer_list none = []
  peer_list (some ports) = ports

  -- `bc_transport_udp_create`: the transport with its context, and the network.
  unfoldable pub udp_create : Env → K → ℕ → Option (List ℕ) → Option (Transport (Udp K) × Udp K) × K
  unfolding bind_socket
  udp_create env net my_port peer_ports =
      let ports = peer_list peer_ports in
      let copied = if ltb 0 (length ports) then env.alloc (bytes (2 * length ports)) else true in
      if env.alloc context_struct
      then (if copied then bind_socket env my_port ports (sockets.socket net) else (none, net))
      else (none, net)
