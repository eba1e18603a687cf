-- ===== src/Udp/Ports.antt =====
-- The synthetic keys of the simulation stand for the ports.
use bit_chat.Prelude.{
  ℕ, ◌+◌, ◌*◌, ◌<◌, ◌^◌, ◌≡◌, ◌≢◌, sym, ap, ◌∙◌, List, [], ◌∷◌, arith, All, take, map, zero, suc,
  All-take, get_or,
}
use bit_chat.Router.PeerTable.{keys, IsNew, AreDistinct}
use bit_chat.Udp.{Udp, Sockets, synthetic_peer, udp_discover_peers}

-- The port that a synthetic key stands for.
port_of : List ℕ → ℕ
port_of key = get_or key 0 0 + 256 * get_or key 1 0

-- `uint16_t`
abbrev pub IsPort : ℕ → Type 0
IsPort port = port < 2 ^ 16

port_of-synthetic_peer : (port : ℕ) → IsPort port → port_of (synthetic_peer port).pubkey ≡ port
unfolding port_of synthetic_peer
port_of-synthetic_peer port h = omega arith

-- No port of a list is `port`.
abbrev pub IsUnused : ℕ → List ℕ → Type 0
IsUnused port [] = Unit
IsUnused port (q ∷ qs) = (port ≢ q) × IsUnused port qs

-- The ports of a list are different.
abbrev pub AreApart : List ℕ → Type 0
AreApart [] = Unit
AreApart (p ∷ ps) = IsUnused p ps × AreApart ps

IsUnused-take : (p : ℕ) (ps : List ℕ) (n : ℕ) → IsUnused p ps → IsUnused p (take n ps)
IsUnused-take p ps zero h = tt
IsUnused-take p [] (suc n) h = tt
IsUnused-take p (q ∷ qs) (suc n) h = (h.0, IsUnused-take p qs n h.1)

apart-IsNew :
    (p : ℕ) (ps : List ℕ)
    → IsPort p
    → All IsPort ps
    → IsUnused p ps
    → IsNew (synthetic_peer p).pubkey (keys (map synthetic_peer ps))
apart-IsNew p [] hp hs h = tt
apart-IsNew p (q ∷ qs) hp hs h = (
  λ same.
      h.0 (
        sym (port_of-synthetic_peer p hp)
        ∙ (ap port_of (sym same) ∙ port_of-synthetic_peer q hs.0)),
  apart-IsNew p qs hp hs.1 h.1,
)

-- Ports that are different give neighbours whose keys are distinct, whatever the number of entries that
-- is asked for.
udp_discover_peers-AreDistinct :
    {K : Type 0} (sockets : Sockets K) (self : Udp K) (n : ℕ)
    → All IsPort self.peer_ports
    → AreApart self.peer_ports
    → AreDistinct (keys (udp_discover_peers sockets self n).1)
unfolding udp_discover_peers
udp_discover_peers-AreDistinct sockets self n ports apart = distinct self.peer_ports n ports apart
  where
    distinct :
        (ps : List ℕ) (n : ℕ)
        → All IsPort ps
        → AreApart ps
        → AreDistinct (keys (map synthetic_peer (take n ps)))
    distinct ps zero h apart = tt
    distinct [] (suc n) h apart = tt
    distinct (p ∷ ps) (suc n) h apart = (
      apart-IsNew p (take n ps) h.0 (All-take IsPort n ps h.1) (IsUnused-take p ps n apart.0),
      distinct ps n h.1 apart.1,
    )
