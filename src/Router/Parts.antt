-- ===== src/Router/Parts.antt =====
-- What no operation of a router of src/usecase/mesh_router.c changes: its adapters, configuration, key and
-- callback; and what sends, receives and the callback keep.
use bit_chat.Prelude.{
  ℕ, ◌-◌, ◌≡◌, sym, subst, List, not, ◌==◌, Option, none, some, length, Bool-cases, inl, inr,
  if-keeps, replicate, take,
}
use bit_chat.Status.{Status, Env, is_ok, bytes, returned, returned-injective}
use bit_chat.Sodium.{Memcmp}
use bit_chat.Message.{Message}
use bit_chat.Message.Serialize.{needed_size, serialize_into}
use bit_chat.Message.Deserialize.{Parsed, null, fault, parsed, deserialize}
use bit_chat.Port.{Transport}
use bit_chat.Forward.{sender}
use bit_chat.Dedup
use bit_chat.Router.{
  Router, World, mark_seen, persist, deliver, relay, broadcast_message, receive_message,
  receive_parsed, receive_packet, serialize_and_forward, forward_to_peers,
}
use bit_chat.Router.Keeps.{IsKept, serialize_and_forward-keeps, forward_to_peers-keeps}
use bit_chat.Router.Callbacks.{serialize_and_forward-user}

pub record IsFixed {S T U : Type 0} (r r' : Router S T U) : Type 0 where
  pub transport : r'.transport ≡ r.transport
  pub storage : r'.storage ≡ r.storage
  pub config : r'.config ≡ r.config
  pub local_pubkey : r'.local_pubkey ≡ r.local_pubkey
  pub on_message : r'.on_message ≡ r.on_message

-- The transport's receive keeps a property of its context.
abbrev pub IsReceived : {T : Type 0} → (T → Type 0) → Option (Transport T) → Type 0
IsReceived {T = T} P none = Unit
IsReceived {T = T} P (some t) =
    (recv : T → ℕ → Status × List ℕ × List ℕ × T)
    → t.recv ≡ some recv
    → (net : T) (n : ℕ) → P net
    → P (recv net n).3

-- The callback keeps a property of the user's data.
abbrev pub IsCalled : {U : Type 0} → (U → Type 0) → Option (Message → U → U) → Type 0
IsCalled {U = U} Q none = Unit
IsCalled {U = U} Q (some callback) = (m : Message) (user : U) → Q user → Q (callback m user)

module _ {S T U : Type 0} (P : T → Type 0) (Q : U → Type 0) (r₀ : Router S T U) where
  -- The state of a router beside the one that it was.
  abbrev pub Beside : Router S T U → World S T U → Type 0
  Beside r w = IsFixed r₀ r × P w.net × Q w.user

  -- What is known of its adapters and its callback.
  pub record IsClosed : Type 0 where
    pub sends : IsKept P (sender r₀.transport)
    pub receives : IsReceived P r₀.transport
    pub calls : IsCalled Q r₀.on_message

  deliver-keeps :
      (callback : Option (Message → U → U)) (m : Message) (w : World S T U)
      → IsCalled Q callback
      → P w.net
      → Q w.user
      → P (deliver callback m w).net × Q (deliver callback m w).user
  unfolding deliver
  deliver-keeps none m w k p q = (p, q)
  deliver-keeps (some callback) m w k p q = (p, k m w.user q)

  module _ (k : IsClosed) {r : Router S T U} (f : IsFixed r₀ r) where
    pub sends-at : IsKept P (sender r.transport)
    sends-at = subst (λ t. IsKept P (sender t)) (sym f.transport) k.sends

    calls-at : IsCalled Q r.on_message
    calls-at = subst (IsCalled Q) (sym f.on_message) k.calls

    mark_seen-IsFixed : (env : Env) (uuid : List ℕ) → IsFixed r₀ (mark_seen env r uuid)
    mark_seen-IsFixed env uuid = record {
      transport = f.transport;
      storage = f.storage;
      config = f.config;
      local_pubkey = f.local_pubkey;
      on_message = f.on_message;
    }

    serialize_and_forward-Beside :
        (env : Env) (m : Message) (w : World S T U)
        → P w.net
        → Q w.user
        → P (serialize_and_forward env r m w).net × Q (serialize_and_forward env r m w).user
    serialize_and_forward-Beside env m w p q = (
      serialize_and_forward-keeps P env r m w sends-at p,
      subst Q (sym (serialize_and_forward-user env r m w)) q,
    )

  -- `bc_router_broadcast`, whatever its result.
  pub broadcast_message-Beside :
      IsClosed
      → {r : Router S T U} (env : Env) (w : World S T U) (m : Message) → Beside r w
      → let (rc, r', w') = broadcast_message env r w m in Beside r' w'
  unfolding broadcast_message forward_to_peers
  broadcast_message-Beside k {r} env w m (f, p, q) =
      let r' = mark_seen env r m.uuid in
      let f' = mark_seen-IsFixed k f env m.uuid in
      let (rc, buf, out_len) = serialize_into m (replicate (needed_size m) 0) in
      let J : Status × Router S T U × World S T U → Type 0 = λ (rc, r', w'). Beside r' w' in
      if-keeps J (not (env.alloc (bytes (needed_size m)))) (f', p, q)
        (if-keeps J (not (is_ok rc)) (f', p, q)
          (f', forward_to_peers-keeps P r' (take out_len buf) w (sends-at k f') p, q))

  module _ ⦃mem : Memcmp⦄ where
    abbrev Left : Status × Router S T U × World S T U → Type 0
    Left (rc, r', w') = Beside r' w'

    receive_message-Beside :
        IsClosed
        → {r : Router S T U} (env : Env) (w : World S T U) (m : Message) → Beside r w
        → Left (receive_message env r w m)
    unfolding receive_message relay
    receive_message-Beside k {r} env w m (f, p, q) =
        let r' = mark_seen env r m.uuid in
        let m' = record m { ttl = m.ttl - 1 } in
        let f' = mark_seen-IsFixed k f env m.uuid in
        let stored : World S T U = record w { store = persist env r'.storage m' w.store } in
        let (p₁, q₁) = deliver-keeps r'.on_message m' w (calls-at k f') p q in
        let (p₂, q₂) = serialize_and_forward-Beside k f' env m' stored p q in
        if-keeps Left (Dedup.contains r.dedup_table r.dedup_cap m.uuid) (f, p, q)
          (if-keeps Left (m.ttl == 0) (f', p, q)
            (if-keeps Left (mem.same m'.receiver_pubkey r'.local_pubkey) (f', p₁, q₁) (f', p₂, q₂)))

    -- `bc_router_receive`, whatever the packet.
    pub receive_packet-Beside :
        IsClosed
        → {r : Router S T U} (env : Env) (w : World S T U) (packet : Option (List ℕ))
          {out : Status × Router S T U × World S T U}
        → Beside r w
        → receive_packet env r w packet ≡ returned out
        → Left out
    unfolding receive_packet receive_parsed
    receive_packet-Beside k env w none b e = subst Left (returned-injective e) b
    receive_packet-Beside k {r} env w (some packet) {out} b e =
        elim (Bool-cases (length packet == 0)) [
          | inl empty ↦ subst Left (returned-injective (rw empty at e)) b
          | inr more ↦ by_parse (deserialize env (some packet)) (rw more at e)
        ]
      where
        by_parse : (p : Parsed) → receive_parsed env r w p ≡ returned out → Left out
        by_parse null g = subst Left (returned-injective g) b
        by_parse fault g = cc
        by_parse (parsed m) g =
            subst Left (returned-injective g) (receive_message-Beside k env w m b)
