-- ===== src/Router/PeerTable.antt =====
-- What `bc_router_add_peer` does to the table of neighbours.
use bit_chat.Prelude.{
  ℕ, suc, ◌≤◌, ◌<◌, ◌≡◌, ◌≢◌, ◌⊎◌, inl, inr, refl, sym, ap, true, List, [], ◌∷◌, ◌++◌, arith, ltb,
  if◌then◌else◌, Option, none, some, Bool-cases, Option-cases, tests, length, length-append, All,
  All-append, map,
}
use bit_chat.Status.{Env}
use bit_chat.Sodium.{Memcmp}
use bit_chat.Peer.{Peer, max_peers, touch_peer}
use bit_chat.Router.Peers.{update_peer, append_peer, place_peer, add_to}

-- The keys of a table of peers, in order.
abbrev pub keys : List Peer → List (List ℕ)
keys peers = map (λ p. p.pubkey) peers

-- No key of the list is this one.
abbrev pub IsNew : List ℕ → List (List ℕ) → Type 0
IsNew key ks = All (λ k. k ≢ key) ks

abbrev pub AreDistinct : List (List ℕ) → Type 0
AreDistinct [] = Unit
AreDistinct (k ∷ ks) = IsNew k ks × AreDistinct ks

pub AreDistinct-append :
    (ks : List (List ℕ)) (key : List ℕ)
    → AreDistinct ks
    → IsNew key ks
    → AreDistinct (ks ++ (key ∷ []))
AreDistinct-append [] key d n = (tt, tt)
AreDistinct-append (k ∷ ks) key d n = (
  All-append (λ j. j ≢ k) ks (key ∷ []) d.0 ((λ e. n.0 (sym e)), tt),
  AreDistinct-append ks key d.1 n.1,
)

pub keys-append : (ps : List Peer) (p : Peer) → keys (ps ++ (p ∷ [])) ≡ keys ps ++ (p.pubkey ∷ [])
keys-append [] p = refl
keys-append (q ∷ qs) p = ap (λ t. q.pubkey ∷ t) (keys-append qs p)

pub length-keys : (ps : List Peer) → length (keys ps) ≡ length ps
length-keys [] = refl
length-keys (p ∷ ps) = ap suc (length-keys ps)

module _ ⦃mem : Memcmp⦄ (env : Env) (peer : Peer) where
  -- Where the loop finds no entry, the key is new.
  update_peer-none :
      (peers : List Peer) → update_peer env peer peers ≡ none → IsNew peer.pubkey (keys peers)
  unfolding update_peer
  update_peer-none [] e = tt
  update_peer-none (q ∷ qs) e = elim (Bool-cases (mem.same q.pubkey peer.pubkey)) [
    | inl hit ↦ cc (rw hit at e)
    | inr miss ↦ elim (Option-cases (update_peer env peer qs)) [
      | inl more ↦ (
        (λ same. cc (miss, (mem.same_iff q.pubkey peer.pubkey).1 same)),
        update_peer-none qs more,
      )
      | inr (ps, found) ↦ cc (rw (miss, found) at e)
    ]
  ]

  -- Where it finds one, the keys stay as they are, in order.
  update_peer-some :
      (peers ps : List Peer) → update_peer env peer peers ≡ some ps → keys ps ≡ keys peers
  unfolding update_peer
  update_peer-some [] ps e = cc
  update_peer-some (q ∷ qs) ps e = elim (Bool-cases (mem.same q.pubkey peer.pubkey)) [
    | inl hit ↦
        let same : q.pubkey ≡ peer.pubkey = (mem.same_iff q.pubkey peer.pubkey).0 hit in
        ground (arith, same)
    | inr miss ↦ elim (Option-cases (update_peer env peer qs)) [
      | inl more ↦ cc (rw (miss, more) at e)
      | inr (rest, found) ↦ let ih = update_peer-some qs rest found in ground (arith, ih)
    ]
  ]

  -- Adding a peer keeps the keys of the table and their order; a new key is appended while there is
  -- room, and otherwise dropped.
  keys-add_to :
      (peers : List Peer)
      → (keys (add_to env peer peers) ≡ keys peers)
        ⊎ (IsNew peer.pubkey (keys peers)
            × (length peers < max_peers)
            × (keys (add_to env peer peers) ≡ keys peers ++ (peer.pubkey ∷ [])))
  unfolding add_to place_peer append_peer
  keys-add_to peers = elim (Option-cases (update_peer env peer peers)) [
    | inr (ps, found) ↦ inl (rw found (update_peer-some peers ps found))
    | inl new ↦ elim (Bool-cases (ltb (length peers) max_peers)) [
      | inr full ↦ inl (rw (new, full))
      | inl room ↦
          inr (
            update_peer-none peers new,
            omega (tests, room),
            rw (new, room) (keys-append peers peer),
          )
    ]
  ]

  -- Adding a peer keeps the keys distinct and within the array of 64.
  pub add_to-AreDistinct :
      (peers : List Peer)
      → AreDistinct (keys peers)
      → length peers ≤ max_peers
      → AreDistinct (keys (add_to env peer peers)) × (length (add_to env peer peers) ≤ max_peers)
  add_to-AreDistinct peers d few = elim (keys-add_to peers) [
    | inl e ↦
        (rw e d, omega (arith, ap length e, length-keys peers, length-keys (add_to env peer peers)))
    | inr (new, room, e) ↦ (
      rw e (AreDistinct-append (keys peers) peer.pubkey d new),
      omega (
        arith,
        ap length e,
        length-keys peers,
        length-keys (add_to env peer peers),
        length-append {0} (keys peers) (peer.pubkey ∷ []),
      ),
    )
  ]

-- The first entry of a table with this key.
unfoldable pub find_peer : ⦃mem : Memcmp⦄ → List ℕ → List Peer → Option Peer
find_peer key [] = none
find_peer ⦃mem⦄ key (p ∷ ps) = if mem.same p.pubkey key then some p else find_peer key ps

module _ ⦃mem : Memcmp⦄ (env : Env) (peer : Peer) (key : List ℕ) where
  find_peer-update_peer :
      (peers ps : List Peer)
      → update_peer env peer peers ≡ some ps
      → find_peer key ps
        ≡ (if mem.same peer.pubkey key then some (touch_peer env peer) else find_peer key peers)
  unfolding update_peer find_peer
  find_peer-update_peer [] ps e = cc
  find_peer-update_peer (q ∷ qs) ps e = elim (Bool-cases (mem.same q.pubkey peer.pubkey)) [
    | inl hit ↦
        let same : q.pubkey ≡ peer.pubkey = (mem.same_iff q.pubkey peer.pubkey).0 hit in
        ground (arith, same)
    | inr miss ↦ elim (Option-cases (update_peer env peer qs)) [
      | inl more ↦ cc (rw (miss, more) at e)
      | inr (rest, found) ↦
          let ih = find_peer-update_peer qs rest found in
          ground (
            arith,
            ih,
            mem.same_iff q.pubkey key,
            mem.same_iff peer.pubkey key,
            mem.same_iff q.pubkey peer.pubkey,
          )
    ]
  ]

  find_peer-append_new :
      (peers : List Peer)
      → IsNew peer.pubkey (keys peers)
      → find_peer key (peers ++ (peer ∷ []))
        ≡ (if mem.same peer.pubkey key then some peer else find_peer key peers)
  unfolding find_peer
  find_peer-append_new [] n = refl
  find_peer-append_new (q ∷ qs) n = ground (
    arith,
    find_peer-append_new qs n.1,
    mem.same_iff q.pubkey key,
    mem.same_iff peer.pubkey key,
    n.0,
  )

  find_peer-IsNew :
      (peers : List Peer)
      → IsNew peer.pubkey (keys peers)
      → mem.same peer.pubkey key ≡ true
      → find_peer key peers ≡ none
  unfolding find_peer
  find_peer-IsNew [] n same = refl
  find_peer-IsNew (q ∷ qs) n same = ground (
    arith,
    find_peer-IsNew qs n.1 same,
    mem.same_iff q.pubkey key,
    mem.same_iff peer.pubkey key,
    n.0,
  )

  -- What is added under a key: the given peer, with its contact time set to now where the key was
  -- known; nothing where the key is new and the table is full.
  abbrev pub added : List Peer → Option (List Peer) → Option Peer
  added peers (some ps) = some (touch_peer env peer)
  added peers none = if ltb (length peers) max_peers then some peer else none

  -- A lookup after `bc_router_add_peer` gives the added entry under its key, and under every other
  -- key what the table held.
  pub find_peer-add_to :
      (peers : List Peer)
      → find_peer key (add_to env peer peers) ≡ (
          if mem.same peer.pubkey key
          then added peers (update_peer env peer peers)
          else find_peer key peers)
  unfolding add_to place_peer append_peer
  find_peer-add_to peers = elim (Option-cases (update_peer env peer peers)) [
    | inr (ps, found) ↦ rw found (find_peer-update_peer peers ps found)
    | inl new ↦ elim (Bool-cases (ltb (length peers) max_peers)) [
      | inr full ↦ elim (Bool-cases (mem.same peer.pubkey key)) [
        | inl same ↦
            rw (new, full, same, find_peer-IsNew peers (update_peer-none env peer peers new) same)
        | inr other ↦ rw (new, full, other)
      ]
      | inl room ↦ rw (new, room) (find_peer-append_new peers (update_peer-none env peer peers new))
    ]
  ]
