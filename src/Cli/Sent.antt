-- ===== src/Cli/Sent.antt =====
-- What a program of src/cli/main.c did when it says that a message is sent.
use bit_chat.Prelude.{
  ℕ, ◌+◌, ◌^◌, ◌≤◌, ◌<◌, ◌≡◌, sym, ap, ◌∙◌, subst, List, [], ◌++◌, arith, some, length,
}
use mathlib.Core.List.{Memᴰ}
use bit_chat.Status.{Env, IsAmple}
use bit_chat.Sodium.{Sodium, IsSodium, Memcmp}
use bit_chat.Message.{Message, IsMessage, header_size, uuid_size, default_ttl}
use bit_chat.Message.Typed.{IsTyped, create-IsMessage, create-fields}
use bit_chat.Message.Format.{encode, length-encode}
use bit_chat.Identity.{Identity}
use bit_chat.Crypto.{nonce_size, tag_size}
use bit_chat.Forward.{forward_with, sender}
use bit_chat.Udp.{Sockets}
use bit_chat.Udp.Loopback.{IsLoopback, AreCopies, IsOpen, HasArrived, max_datagram}
use bit_chat.Router.{mark_seen, persist}
use bit_chat.Router.Receive.{hop}
use bit_chat.Router.Resend.{IsSending, broadcast_message_lem, forward_with-HasArrived}
use bit_chat.Ffi.Envelope.{IsGenerated, IsSealed, IsOpened, IsSealed-IsOpened, create-inv}
use bit_chat.Cli.Command.{Cli, send_text, message_sent}
use bit_chat.Cli.Shown.{last_line, send_text-inv}
use bit_chat.Cli.SetUp.{IsStarted}

-- A message that two generated identities exchange is in the ranges of its types.
IsSealed-IsMessage :
    {sodium : Sodium} (laws : IsSodium sodium) (env : Env) (seed seed' : List ℕ) (a b : Identity)
    (text : List ℕ) (m : Message)
    → IsGenerated sodium seed a
    → IsGenerated sodium seed' b
    → IsTyped env
    → header_size + (nonce_size + (length text + tag_size)) < 2 ^ 32
    → IsSealed sodium env a b.pubkey text m
    → IsMessage m × IsOpened sodium a b text m
IsSealed-IsMessage laws env seed seed' a b text m ha hb typed small sealed =
    let opened =
      IsSealed-IsOpened laws env seed seed' a b text m ha hb (typed.random_sized nonce_size)
        sealed in
    let payload : List ℕ = sealed.iv ++ sealed.cipher in
    let (same, _, _) = create-inv env a.pubkey b.pubkey payload m sealed.made in
    let (from_sized, _) = laws.keypair_sized seed a.pubkey a.secret_key ha in
    let (to_sized, _) = laws.keypair_sized seed' b.pubkey b.secret_key hb in
    let total = opened.sized in
    (
      create-IsMessage env a.pubkey b.pubkey payload m typed (omega (arith, from_sized))
          (omega (arith, to_sized)) (omega (arith, ap length same, total, small)) sealed.made,
      opened,
    )

-- The TTL is not encrypted.
pub IsOpened-hop :
    (sodium : Sodium) (a b : Identity) (text : List ℕ) (m : Message)
    → IsOpened sodium a b text m
    → IsOpened sodium a b text (hop m)
IsOpened-hop sodium a b text m h = record {
  sized = h.sized;
  from = h.from;
  to = h.to;
  key = h.key;
  derived = h.derived;
  opened = h.opened;
}

-- A program that `main` started sends over UDP, if it has a neighbour.
pub IsStarted-IsSending :
    {D K : Type 0} {sodium : Sodium} {sockets : Sockets K} {c : Cli D K}
    → IsStarted sodium sockets c
    → 0 < length c.router.peers
    → IsSending sockets c.router
IsStarted-IsSending s some_peer = record {
  sends = ap sender s.set_up.has_transport ∙ s.set_up.udp.sends;
  fans = subst (λ k. 0 < k.fanout) (sym s.config) (omega arith);
  some_peer = some_peer;
}

-- The message that a program says it sent, and what it did with it.
pub record IsSent {D K : Type 0} (sodium : Sodium) (env : Env) (c c' : Cli D K) (b : Identity)
    (text : List ℕ) (m : Message) : Type 0 where
  pub valid : IsMessage m
  pub opened : IsOpened sodium c.world.user.identity b text m
  pub uuid : m.uuid ≡ env.random uuid_size
  pub ttl : m.ttl ≡ default_ttl
  pub marked : c'.router ≡ mark_seen env c.router m.uuid
  pub stored : c'.world.store ≡ persist env c.router.storage m c.world.store
  pub passed :
      c'.world.net
      ≡ (forward_with
          (sender c.router.transport)
          c.router.config.fanout
          (encode m)
          c.router.peers
          c.world.net).1

module _ {D K : Type 0} {sodium : Sodium} (laws : IsSodium sodium) where
  pub send_text-IsSent :
      (env : Env) (seed seed' : List ℕ) (c : Cli D K) (id' : Identity) (text : List ℕ)
      → IsGenerated sodium seed c.world.user.identity
      → IsGenerated sodium seed' id'
      → IsTyped env
      → IsAmple env
      → header_size + (nonce_size + (length text + tag_size)) < 2 ^ 32
      → last_line (send_text sodium env c id'.pubkey text).world.user.output ≡ some message_sent
      → (m : Message) × IsSent sodium env c (send_text sodium env c id'.pubkey text) id' text m
  send_text-IsSent env seed seed' c id' text ha hb typed a small sent =
      let id = c.world.user.identity in
      let (m, sealed, good, told) = send_text-inv sodium env c id'.pubkey text sent in
      let (v, opened) =
        IsSealed-IsMessage laws env seed seed' id id' text m ha hb typed small sealed in
      let (uuid, ttl) =
        create-fields env id.pubkey id'.pubkey (sealed.iv ++ sealed.cipher) m sealed.made in
      let done = broadcast_message_lem env c.router c.world m v a in
      (
        m,
        record {
          valid = v;
          opened = opened;
          uuid = uuid;
          ttl = ttl;
          marked = ap (λ c'. c'.router) told ∙ ap (λ o. o.1) done;
          stored = ap (λ c'. c'.world.store) told ∙ ap (λ o. o.2.store) done;
          passed = ap (λ c'. c'.world.net) told ∙ ap (λ o. o.2.net) done;
        },
      )

  -- It comes to the port of a socket that listens.
  pub send_text-HasArrived :
      ⦃mem : Memcmp⦄ {sockets : Sockets K} {queue : K → List (List ℕ)} {port fd : ℕ}
      (net : IsLoopback sockets queue port fd) {env : Env} {c c' : Cli D K} {b : Identity}
      {text : List ℕ} {m : Message}
      → IsStarted sodium sockets c
      → header_size + (nonce_size + (length text + tag_size)) ≤ max_datagram
      → 0 < length c.router.peers
      → Memᴰ port c.world.net.peer_ports
      → queue c.world.net.net ≡ []
      → IsSent sodium env c c' b text m
      → HasArrived net (encode m) c'.world.net
  send_text-HasArrived net {c} {m} sc small some_peer here idle h =
      let fits : length (encode m) ≤ max_datagram =
        omega (arith, length-encode h.valid, h.opened.sized, small) in
      let opens : IsOpen net (encode m) c.world.net =
        (subst (AreCopies (encode m)) (sym idle) tt, here) in
      subst (HasArrived net (encode m)) (sym h.passed) (
        forward_with-HasArrived net (IsStarted-IsSending sc some_peer) m h.valid fits c.world.net
          opens)
