-- ===== src/Discovery.antt =====
-- src/usecase/node_discovery.c: the list of known peers, and the scan that extends it. The context of
-- the transport and what `userdata` points to are shared, and taken and returned.
pub mod Scan
use bit_chat.Prelude.{
  ℕ, ◌++◌, Bool, true, false, List, [], ◌∷◌, ltb, ◌==◌, if◌then◌else◌, Option, none, some, length,
  take, drop,
}
use mathlib.Core.Option
use bit_chat.Status.{Status, ok, err_invalid, is_ok, Env, Request, discovery_struct}
use bit_chat.Sodium.{Memcmp}
use bit_chat.Peer.{Peer, max_peers, touch_peer}
use bit_chat.Port.{Transport}

-- `bc_discovery_t`; the first `peer_count` entries of `peers` are a list.
pub record Discovery (T U : Type 0) : Type 0 where
  pub transport : Option (Transport T)
  pub peers : List Peer
  pub on_found : Option (Peer → U → U)

module _ {T U : Type 0} where
  -- `bc_discovery_create`
  unfoldable pub create : Env → Option (Transport T) → Option (Discovery T U)
  create env transport =
      if env.alloc discovery_struct
      then some record { transport = transport; peers = []; on_found = none }
      else none

  -- `bc_discovery_on_peer_found`
  unfoldable pub on_peer_found :
      Option (Discovery T U) → Option (Peer → U → U) → Option (Discovery T U)
  on_peer_found none callback = none
  on_peer_found (some d) callback = some (record d { on_found = callback })

  -- `bc_discovery_get_peers`: the count, and the caller's array afterwards.
  unfoldable pub get_peers :
      Option (Discovery T U) → Option (List Peer) → ℕ → ℕ × Option (List Peer)
  get_peers (some d) (some out) max =
      let n = if ltb (length d.peers) max then length d.peers else max in
      if max == 0 then (0, some out) else (n, some (take n d.peers ++ drop n out))
  get_peers d out max = (0, out)

module _ {U : Type 0} where
  -- `if (disc->on_found) disc->on_found(&found[i], disc->userdata)`
  unfoldable pub notify : Option (Peer → U → U) → Peer → U → U
  notify none p user = user
  notify (some callback) p user = callback p user

module _ ⦃mem : Memcmp⦄ where
  -- The inner loop: the list with the known entry of that key touched, if there is one.
  unfoldable pub touch_known : Env → Peer → List Peer → Option (List Peer)
  touch_known env p [] = none
  touch_known env p (q ∷ qs) =
      let rest = Option.map (λ ps. q ∷ ps) (touch_known env p qs) in
      if mem.same q.pubkey p.pubkey
      then some (record (touch_peer env q) { rssi = p.rssi } ∷ qs)
      else rest

module _ ⦃mem : Memcmp⦄ {U : Type 0} where
  -- What follows the inner loop, for a known and for a new peer.
  unfoldable pub settle :
      Option (Peer → U → U) → Peer → List Peer → U → Option (List Peer) → List Peer × U
  settle on_found p peers user (some touched) = (touched, user)
  settle on_found p peers user none =
      if ltb (length peers) max_peers
      then (peers ++ (p ∷ []), notify on_found p user)
      else (peers, user)

  -- The loop over what the transport found.
  unfoldable pub scan_all : Env → Option (Peer → U → U) → List Peer → List Peer → U → List Peer × U
  scan_all env on_found [] peers user = (peers, user)
  scan_all env on_found (p ∷ found) peers user =
      let (peers', user') = settle on_found p peers user (touch_known env p peers) in
      scan_all env on_found found peers' user'

module _ ⦃mem : Memcmp⦄ {T U : Type 0} where
  scan_with :
      Env
      → Option (T → ℕ → Status × List Peer × T)
      → Discovery T U
      → T
      → U
      → Status × Discovery T U × T × U
  scan_with env none d net user = (err_invalid, d, net, user)
  scan_with env (some discover_peers) d net user =
      let (rc, found, net') = discover_peers net max_peers in
      let (peers', user') = scan_all env d.on_found found d.peers user in
      if is_ok rc then (ok, record d { peers = peers' }, net', user') else (rc, d, net', user)

  scan_transport :
      Env → Option (Transport T) → Discovery T U → T → U → Status × Discovery T U × T × U
  scan_transport env none d net user = (err_invalid, d, net, user)
  scan_transport env (some t) d net user = scan_with env t.discover_peers d net user

  -- `bc_discovery_scan`
  unfoldable pub scan :
      Env → Option (Discovery T U) → T → U → Status × Option (Discovery T U) × T × U
  unfolding scan_transport scan_with
  scan env none net user = (err_invalid, none, net, user)
  scan env (some d) net user =
      let (rc, d', net', user') = scan_transport env d.transport d net user in
      (rc, some d', net', user')
