-- ===== src/Router/Peers.antt =====
-- src/usecase/mesh_router.c, `bc_router_add_peer`: the table of neighbours.
use bit_chat.Prelude.{◌++◌, List, [], ◌∷◌, ltb, if◌then◌else◌, Option, none, some, length}
use mathlib.Core.Option
use bit_chat.Status.{Env}
use bit_chat.Sodium.{Memcmp}
use bit_chat.Peer.{Peer, max_peers, touch_peer}
use bit_chat.Router.{Router}

-- What stands behind the loop: a new peer is added while there is room.
unfoldable pub append_peer : Peer → List Peer → List Peer
append_peer peer peers = if ltb (length peers) max_peers then peers ++ (peer ∷ []) else peers

unfoldable pub place_peer : Peer → List Peer → Option (List Peer) → List Peer
place_peer peer peers none = append_peer peer peers
place_peer peer peers (some updated) = updated

module _ ⦃mem : Memcmp⦄ where
  -- The loop: the table with the entry of that key overwritten and touched, if there is one.
  unfoldable pub update_peer : Env → Peer → List Peer → Option (List Peer)
  update_peer env peer [] = none
  update_peer env peer (q ∷ qs) =
      let rest = Option.map (λ ps. q ∷ ps) (update_peer env peer qs) in
      if mem.same q.pubkey peer.pubkey then some (touch_peer env peer ∷ qs) else rest

  -- The table after `bc_router_add_peer`.
  unfoldable pub add_to : Env → Peer → List Peer → List Peer
  add_to env peer peers = place_peer peer peers (update_peer env peer peers)

module _ ⦃mem : Memcmp⦄ {S T U : Type 0} where
  -- `bc_router_add_peer`
  unfoldable pub add_peer : Env → Option (Router S T U) → Option Peer → Option (Router S T U)
  add_peer env (some r) (some peer) = some (record r { peers = add_to env peer r.peers })
  add_peer env r peer = r
