-- ===== src/Forward.antt =====
-- src/usecase/mesh_router.c, `forward_to_peers`: the loop over the neighbours.
pub mod Fanout
use bit_chat.Prelude.{ℕ, ◌+◌, Bool, List, [], ◌∷◌, ltb, if◌then◌else◌, Option, none, some}
use bit_chat.Status.{Status, ok, err_transport, is_ok}
use bit_chat.Peer.{Peer}
use bit_chat.Port.{Transport}

module _ {T : Type 0} where
  -- The loop: the messages sent so far, and the transport's context.
  unfoldable pub forward_loop :
      (T → List ℕ → List ℕ → Status × T) → ℕ → List ℕ → List Peer → ℕ → T → ℕ × T
  forward_loop send fanout packet [] sent net = (sent, net)
  forward_loop send fanout packet (p ∷ ps) sent net =
      let (rc, net') = send net p.pubkey packet in
      let rest = forward_loop send fanout packet ps (if is_ok rc then sent + 1 else sent) net' in
      if ltb sent fanout then rest else (sent, net)

  -- `router->transport->send`, where both pointers may be NULL.
  abbrev pub sender : Option (Transport T) → Option (T → List ℕ → List ℕ → Status × T)
  sender none = none
  sender (some t) = t.send

  unfoldable pub forward_with :
      Option (T → List ℕ → List ℕ → Status × T) → ℕ → List ℕ → List Peer → T → Status × T
  forward_with none fanout packet peers net = (err_transport, net)
  forward_with (some send) fanout packet peers net =
      let (sent, net') = forward_loop send fanout packet peers 0 net in
      (if ltb 0 sent then ok else err_transport, net')
