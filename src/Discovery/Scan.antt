-- ===== src/Discovery/Scan.antt =====
-- What a scan does to the list of known peers, and whom it announces.
use bit_chat.Prelude.{
  ◌≤◌, ◌≡◌, inl, inr, refl, sym, ap, ◌∙◌, List, [], ◌∷◌, ◌++◌, arith, ltb, subst, ◌⊎◌, Option, none,
  some, Bool-cases, Option-cases, tests, length, length-append, append-nil, append_assoc,
}
use mathlib.Core.List.{Memᴰ, Sublistᴰ}
use mathlib.Core.List.Memᴰ
use bit_chat.Status.{Env}
use bit_chat.Sodium.{Memcmp}
use bit_chat.Peer.{Peer, max_peers}
use bit_chat.Discovery.{touch_known, settle, scan_all, notify}
use bit_chat.Router.PeerTable.{
  keys, IsNew, AreDistinct, AreDistinct-append, keys-append, length-keys,
}

module _ ⦃mem : Memcmp⦄ (env : Env) (p : Peer) where
  touch_known-none :
      (peers : List Peer) → touch_known env p peers ≡ none → IsNew p.pubkey (keys peers)
  unfolding touch_known
  touch_known-none [] e = tt
  touch_known-none (q ∷ qs) e = elim (Bool-cases (mem.same q.pubkey p.pubkey)) [
    | inl hit ↦ cc (rw hit at e)
    | inr miss ↦ elim (Option-cases (touch_known env p qs)) [
      | inl more ↦
          ((λ same. cc (miss, (mem.same_iff q.pubkey p.pubkey).1 same)), touch_known-none qs more)
      | inr (ps, found) ↦ cc (rw (miss, found) at e)
    ]
  ]

  touch_known-some :
      (peers ps : List Peer) → touch_known env p peers ≡ some ps → keys ps ≡ keys peers
  unfolding touch_known
  touch_known-some [] ps e = cc
  touch_known-some (q ∷ qs) ps e = elim (Bool-cases (mem.same q.pubkey p.pubkey)) [
    | inl hit ↦ ground arith
    | inr miss ↦ elim (Option-cases (touch_known env p qs)) [
      | inl more ↦ cc (rw (miss, more) at e)
      | inr (rest, found) ↦ let ih = touch_known-some qs rest found in ground (arith, ih)
    ]
  ]

  touch_known-Mem :
      (peers ps : List Peer) → touch_known env p peers ≡ some ps → Memᴰ p.pubkey (keys peers)
  unfolding touch_known
  touch_known-Mem [] ps e = cc
  touch_known-Mem (q ∷ qs) ps e = elim (Bool-cases (mem.same q.pubkey p.pubkey)) [
    | inl hit ↦ Memᴰ.head (sym ((mem.same_iff q.pubkey p.pubkey).0 hit))
    | inr miss ↦ elim (Option-cases (touch_known env p qs)) [
      | inl more ↦ cc (rw (miss, more) at e)
      | inr (rest, found) ↦ Memᴰ.tail (touch_known-Mem qs rest found)
    ]
  ]

module _ {U : Type 0} where
  -- The announcements, in order.
  unfoldable pub notify_all : Option (Peer → U → U) → List Peer → U → U
  notify_all on_found [] user = user
  notify_all on_found (p ∷ ps) user = notify_all on_found ps (notify on_found p user)

  -- What one scan has done: it kept the known keys in their order, added `news` behind them, which were
  -- found, and announced exactly those, in that order; every peer that was found is known then, unless
  -- the array is full; all keys are distinct and fit the array.
  pub record IsScan (on_found : Option (Peer → U → U)) (found peers : List Peer) (user : U)
      (out : List Peer × U) : Type 0 where
    pub news : List Peer
    pub were_found : Sublistᴰ news found
    pub none_missed :
        (p : Peer) → Memᴰ p found → Memᴰ p.pubkey (keys out.0) ⊎ (length out.0 ≡ max_peers)
    pub known : keys out.0 ≡ keys peers ++ keys news
    pub announced : out.1 ≡ notify_all on_found news user
    pub distinct : AreDistinct (keys out.0)
    pub few : length out.0 ≤ max_peers

module _ {U : Type 0} {on_found : Option (Peer → U → U)} {found : List Peer} {user : U}
    {out : List Peer × U} where
  -- A scan forgets no key.
  still_known :
      (p : Peer) (peers : List Peer)
      → IsScan on_found found peers user out
      → (q : Peer) → q ≡ p
      → Memᴰ p.pubkey (keys peers)
      → Memᴰ q.pubkey (keys out.0)
  still_known p peers s q e h =
      subst (λ k. Memᴰ k (keys out.0)) (sym (ap (λ x. x.pubkey) e))
        (subst (Memᴰ p.pubkey) (sym s.known) (Memᴰ.append_left (keys s.news) h))

  still_full :
      (peers : List Peer)
      → IsScan on_found found peers user out
      → max_peers ≤ length peers
      → length out.0 ≡ max_peers
  still_full peers s h = omega (
    arith,
    s.few,
    ap length s.known,
    length-keys out.0,
    length-keys peers,
    length-append {0} (keys peers) (keys s.news),
  )

module _ ⦃mem : Memcmp⦄ {U : Type 0} (env : Env) (on_found : Option (Peer → U → U)) where
  -- A scan keeps the known keys in their order and appends those of peers that the transport has found,
  -- in the order in which they were found, and announces these peers and no others, in that order; the
  -- key of every peer that was found is known then, unless 64 are known; the keys stay distinct, and at
  -- most 64.
  pub scan_all-IsScan :
      (found peers : List Peer) (user : U)
      → AreDistinct (keys peers)
      → length peers ≤ max_peers
      → IsScan on_found found peers user (scan_all env on_found found peers user)
  unfolding scan_all settle notify_all
  scan_all-IsScan [] peers user d few = record {
    news = [];
    were_found = Sublistᴰ.slnil;
    none_missed = λ p h. absurd (Memᴰ.not-nil h);
    known = sym (append-nil (keys peers));
    announced = refl;
    distinct = d;
    few = few;
  }
  scan_all-IsScan (p ∷ found) peers user d few = elim (Option-cases (touch_known env p peers)) [
    | inr (ps, hit) ↦
        let same = touch_known-some env p peers ps hit in
        let ih =
          scan_all-IsScan found ps user (rw same d)
            (omega (arith, ap length same, length-keys ps, length-keys peers)) in
        rw hit record {
          news = ih.news;
          were_found = Sublistᴰ.cons ih.were_found;
          none_missed = λ q h. elim (Memᴰ.cases_cons h) [
            | inl e ↦ inl (
                still_known p ps ih q e
                  (subst (Memᴰ p.pubkey) (sym same) (touch_known-Mem env p peers ps hit)))
            | inr deep ↦ ih.none_missed q deep
          ];
          known = ih.known ∙ ap (λ t. t ++ keys ih.news) same;
          announced = ih.announced;
          distinct = ih.distinct;
          few = ih.few;
        }
    | inl new ↦ elim (Bool-cases (ltb (length peers) max_peers)) [
      | inr full ↦
          let ih = scan_all-IsScan found peers user d few in
          rw (new, full)
            record {
              news = ih.news;
              were_found = Sublistᴰ.cons ih.were_found;
              none_missed = λ q h. inr (still_full peers ih (omega (tests, full)));
              known = ih.known;
              announced = ih.announced;
              distinct = ih.distinct;
              few = ih.few;
            }
      | inl room ↦
          let ih =
            scan_all-IsScan found (peers ++ (p ∷ [])) (notify on_found p user)
              (rw (keys-append peers p)
                (AreDistinct-append (keys peers) p.pubkey d (touch_known-none env p peers new)))
              (omega (tests, room, length-append {0} peers (p ∷ []))) in
          rw (new, room)
            record {
              news = p ∷ ih.news;
              were_found = Sublistᴰ.cons-cons refl ih.were_found;
              none_missed = λ q h. elim (Memᴰ.cases_cons h) [
                | inl e ↦ inl (
                    still_known p (peers ++ (p ∷ [])) ih q e (
                      subst (Memᴰ p.pubkey) (sym (keys-append peers p))
                        (Memᴰ.append_right (keys peers) (Memᴰ.head refl))))
                | inr deep ↦ ih.none_missed q deep
              ];
              known =
                  ih.known
                  ∙ rw (keys-append peers p)
                      (append_assoc (keys peers) (p.pubkey ∷ []) (keys ih.news));
              announced = ih.announced;
              distinct = ih.distinct;
              few = ih.few;
            }
    ]
  ]
