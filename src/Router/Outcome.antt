-- ===== src/Router/Outcome.antt =====
-- What the world sees of `bc_router_receive`: a packet has no effect, is delivered, or is passed on.
use bit_chat.Prelude.{
  ℕ, zero, suc, ◌-◌, ◌<◌, ◌≡◌, ◌≢◌, ◌⊎◌, inl, inr, refl, sym, ap, ◌∙◌, true, false, List, [], ◌∷◌,
  ◌++◌, arith, ◌==◌, some, Bool-cases, length, set,
}
use bit_chat.Status.{Status, ok, err_duplicate, err_ttl_expired, Env, returned, IsAmple}
use bit_chat.Sodium.{Memcmp}
use bit_chat.Message.{Message, IsMessage, uuid_size}
use bit_chat.Message.Format.{encode}
use bit_chat.Router.{
  Router, World, mark_seen, forward_to_peers, persist, relay, deliver, receive_message,
  receive_packet,
}
use bit_chat.Router.Receive.{has_seen, hop, receive_packet-encode, serialize_and_forward_lem}

pub hop-IsMessage : {m : Message} → IsMessage m → IsMessage (hop m)
hop-IsMessage v = ground arith

-- On the wire a hop lowers the byte behind the UUID by one, and changes no other.
pub encode-hop : (m : Message) → IsMessage m → encode (hop m) ≡ set (encode m) uuid_size (m.ttl - 1)
unfolding encode
encode-hop m v = sym (set-append m.uuid uuid_size m.ttl (m.ttl - 1) _ v.uuid_sized)
  where
    set-append :
        (xs : List ℕ) (n x y : ℕ) (ys : List ℕ)
        → length xs ≡ n
        → set (xs ++ (x ∷ ys)) n y ≡ xs ++ (y ∷ ys)
    set-append [] zero x y ys h = refl
    set-append [] (suc n) x y ys h = absurd (omega arith)
    set-append (z ∷ xs) zero x y ys h = absurd (omega arith)
    set-append (z ∷ xs) (suc n) x y ys h = ap (λ t. z ∷ t) (set-append xs n x y ys (omega arith))

module _ ⦃mem : Memcmp⦄ {S T U : Type 0} where
  -- The message reached its receiver: the callback, if there is one, gets it once, one hop older.
  pub record IsDelivery (env : Env) (r : Router S T U) (w : World S T U) (m : Message)
      (out : Status × Router S T U × World S T U) : Type 0 where
    pub own : m.receiver_pubkey ≡ r.local_pubkey
    pub new : has_seen r m.uuid ≡ false
    pub alive : 0 < m.ttl
    pub code : out.0 ≡ ok
    pub handed : out.2 ≡ deliver r.on_message (hop m) w

  -- The message goes on: it is stored, and its packet sent on, one hop older; nothing is delivered.
  pub record IsRelay (env : Env) (r : Router S T U) (w : World S T U) (m : Message)
      (out : Status × Router S T U × World S T U) : Type 0 where
    pub foreign : m.receiver_pubkey ≢ r.local_pubkey
    pub new : has_seen r m.uuid ≡ false
    pub alive : 0 < m.ttl
    pub code : out.0 ≡ ok
    pub stored : out.2.store ≡ persist env r.storage (hop m) w.store
    pub sent : out.2.net ≡ (forward_to_peers r (set (encode m) uuid_size (m.ttl - 1)) w).1.net
    pub quiet : out.2.user ≡ w.user

  -- The message is dropped: it is a duplicate, or its TTL is used up.
  pub record IsDrop (env : Env) (r : Router S T U) (w : World S T U) (m : Message)
      (out : Status × Router S T U × World S T U) : Type 0 where
    pub reason :
        ((has_seen r m.uuid ≡ true) × (out.0 ≡ err_duplicate))
        ⊎ ((has_seen r m.uuid ≡ false) × (m.ttl ≡ 0) × (out.0 ≡ err_ttl_expired))
    pub nothing : out.2 ≡ w

  -- The adapter contexts after a relay.
  relay_world :
      (env : Env) (r : Router S T U) (m : Message) (w : World S T U)
      → IsMessage m
      → IsAmple env
      → ((relay env r m w).store ≡ persist env r.storage m w.store)
        × ((relay env r m w).net ≡ (forward_to_peers r (encode m) w).1.net)
        × ((relay env r m w).user ≡ w.user)
  unfolding relay forward_to_peers
  relay_world env r m w v a =
      rw
        (serialize_and_forward_lem env r m (record w { store = persist env r.storage m w.store }) v
          a)
        (refl, refl, refl)

  receive_message-Outcome :
      (env : Env) (r : Router S T U) (w : World S T U) (m : Message)
      → IsMessage m
      → IsAmple env
      → let out = receive_message env r w m in
        IsDrop env r w m out ⊎ (IsDelivery env r w m out ⊎ IsRelay env r w m out)
  unfolding receive_message
  receive_message-Outcome env r w m v a = elim (Bool-cases (has_seen r m.uuid)) [
    | inl old ↦ inl (rw old record { reason = inl (old, refl); nothing = refl })
    | inr new ↦ elim (Bool-cases (m.ttl == 0)) [
      | inl spent ↦
          inl (rw (new, spent) record { reason = inr (new, ground arith, refl); nothing = refl })
      | inr alive ↦ elim (Bool-cases (mem.same m.receiver_pubkey r.local_pubkey)) [
        | inl own ↦ inr (
            inl (
              rw (new, alive, own)
                record {
                  own = (mem.same_iff m.receiver_pubkey r.local_pubkey).0 own;
                  new = new;
                  alive = ground arith;
                  code = refl;
                  handed = refl;
                }))
        | inr foreign ↦
            let (stored, sent, quiet) =
              relay_world env (mark_seen env r m.uuid) (hop m) w (hop-IsMessage v) a in
            inr (
              inr (
                rw (new, alive, foreign)
                  record {
                    foreign =
                        λ e. cc (foreign, (mem.same_iff m.receiver_pubkey r.local_pubkey).1 e);
                    new = new;
                    alive = ground arith;
                    code = refl;
                    stored = stored;
                    sent = rw (← encode-hop m v) (sent ∙ (unfold forward_to_peers in refl));
                    quiet = quiet;
                  }))
      ]
    ]
  ]

  -- Every packet that holds a message is dropped without effect on the world, if its UUID is known or
  -- its TTL used up; delivered to the callback alone, one hop older, if it is new, alive and ours; and
  -- otherwise stored one hop older and sent on as the same packet with its TTL byte lowered by one,
  -- the callback untouched; if memory is not exhausted.
  pub receive-Outcome :
      (env : Env) (r : Router S T U) (w : World S T U) (m : Message) (rest : List ℕ)
      → IsMessage m
      → IsAmple env
      → let out = receive_message env r w m in
        (receive_packet env r w (some (encode m ++ rest)) ≡ returned out)
        × (IsDrop env r w m out ⊎ (IsDelivery env r w m out ⊎ IsRelay env r w m out))
  receive-Outcome env r w m rest v a =
      (receive_packet-encode env r w m rest v a, receive_message-Outcome env r w m v a)
