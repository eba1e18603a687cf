-- ===== src/Router/Reach.antt =====
-- The life of a router: any sequence of calls, with any arguments, clock and adapters.
use bit_chat.Prelude.{ℕ, ◌<◌, ◌≡◌, List, Option, some}
use bit_chat.Status.{Status, Env, returned}
use bit_chat.Sodium.{Memcmp}
use bit_chat.Message.{Message}
use bit_chat.Peer.{Peer}
use bit_chat.Port.{Storage, Transport}
use bit_chat.Router.{
  Router, World, Config, config_or_default, create, broadcast_message, receive_packet,
}
use bit_chat.Router.Peers.{add_to}
use bit_chat.Router.Tick.{tick_router}
use bit_chat.Router.Valid.{
  IsValid, create-IsValid, broadcast_message-IsValid, receive_packet-IsValid, add_to-IsValid,
  tick_router-IsValid,
}

module _ ⦃mem : Memcmp⦄ {S T U : Type 0} where
  -- One call that returns, in a world that the owner of the router may have changed before.
  pub data Step (r r' : Router S T U) : Type 0 where
    broadcast :
        (env : Env) (w : World S T U) (m : Message)
        → r' ≡ (broadcast_message env r w m).1
        → Step r r'
    receive :
        (env : Env) (w w' : World S T U) (packet : Option (List ℕ)) (rc : Status)
        → receive_packet env r w packet ≡ returned (rc, r', w')
        → Step r r'
    add_peer :
        (env : Env) (peer : Peer) → r' ≡ record r { peers = add_to env peer r.peers } → Step r r'
    tick :
        (fuel : ℕ) (env : Env) (w w' : World S T U)
        → tick_router fuel env r w ≡ returned (r', w')
        → Step r r'
    set_on_message :
        (callback : Option (Message → U → U)) → r' ≡ record r { on_message = callback } → Step r r'

  pub data Reach (r : Router S T U) : Router S T U → Type 0 where
    here : Reach r r
    next : {r' r'' : Router S T U} → Reach r r' → Step r' r'' → Reach r r''

  Step-IsValid : (r r' : Router S T U) → Step r r' → IsValid r → IsValid r'
  Step-IsValid r r' (broadcast env w m e) v = rw e (broadcast_message-IsValid env w m v)
  Step-IsValid r r' (receive env w w' packet rc e) v = receive_packet-IsValid env w w' packet rc v e
  Step-IsValid r r' (add_peer env peer e) v = rw e (add_to-IsValid env peer v)
  Step-IsValid r r' (tick fuel env w w' e) v = tick_router-IsValid fuel env w w' v e
  Step-IsValid r r' (set_on_message callback e) v =
      rw e record { sized = v.sized; pos = v.pos; few = v.few; distinct = v.distinct }

  Reach-keeps : {r r' : Router S T U} → IsValid r → Reach r r' → IsValid r'
  Reach-keeps v here = v
  Reach-keeps v (next {r'} {r''} reach step) = Step-IsValid r' r'' step (Reach-keeps v reach)

  -- A router that was created with room in its dedup cache keeps, through every sequence of calls
  -- that return, a dedup table of its capacity and at most 64 neighbours, each key once.
  pub Reach-IsValid :
      (env : Env) (transport : Option (Transport T)) (storage : Option (Storage S))
      (key : Option (List ℕ)) (config : Option Config) {r r' : Router S T U}
      → 0 < (config_or_default config).dedup_cap
      → create env transport storage key config ≡ some r
      → Reach r r'
      → IsValid r'
  Reach-IsValid env transport storage key config h e reach =
      Reach-keeps (create-IsValid env transport storage key config h e) reach
