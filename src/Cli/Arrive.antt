-- ===== src/Cli/Arrive.antt =====
-- Two programs of src/cli/main.c on one host: what is typed into one is printed by the other.
use bit_chat.Prelude.{
  ℕ, ◌+◌, ◌≤◌, ◌<◌, ◌≡◌, refl, sym, ap, ◌∙◌, subst, List, [], ◌∷◌, ◌++◌, arith, false, some, length,
  take-length,
}
use mathlib.Core.List.{Memᴰ}
use bit_chat.Status.{Env, bytes, IsAmple, returned, ◌>>=◌}
use bit_chat.Sodium.{Sodium, IsSodium, Memcmp}
use bit_chat.Message.{Message, IsMessage, header_size, uuid_size, pubkey_size}
use bit_chat.Message.Typed.{IsTyped}
use bit_chat.Message.Format.{encode, length-encode}
use bit_chat.Identity.{Identity}
use bit_chat.Crypto.{nonce_size, tag_size}
use bit_chat.Udp.{Udp, Sockets}
use bit_chat.Udp.Loopback.{IsLoopback, AreCopies}
use bit_chat.Router.{World}
use bit_chat.Router.Receive.{has_seen, hop}
use bit_chat.Router.Tick.{poll_buffer_size, evict_seen}
use bit_chat.Router.Copies.{tick_router-delivers}
use bit_chat.Ffi.Envelope.{IsGenerated, IsOpened}
use bit_chat.Cli.{bytes_to_hex}
use bit_chat.Cli.Command.{
  Cli, Terminal, send_text, on_message_received, c_string, incoming, message_sent,
}
use bit_chat.Cli.Shown.{last_line, on_message_received-IsOpened}
use bit_chat.Cli.SetUp.{IsStarted}
use bit_chat.Cli.Loop.{tick, step, ticked}
use bit_chat.Cli.Sent.{IsOpened-hop, send_text-IsSent, send_text-HasArrived}

-- A program in a state of the network, and in the one that another program left.
abbrev pub within : {D K : Type 0} → Cli D K → K → Cli D K
within d k = record d { world = record d.world { net = record d.world.net { net = k } } }

abbrev pub hearing : {D D' K : Type 0} → Cli D' K → Cli D K → Cli D' K
hearing d c = within d c.world.net.net

module _ ⦃mem : Memcmp⦄ {D' K : Type 0} {sodium : Sodium} (laws : IsSodium sodium)
    {sockets : Sockets K} {queue : K → List (List ℕ)} {port : ℕ} {d : Cli D' K}
    (net : IsLoopback sockets queue port d.world.net.sockfd) where
  -- A message for a program that waits at its socket is printed once by the next tick.
  pub step-HasArrived :
      (env : Env) (seed : List ℕ) (a : Identity) (text : List ℕ) (m : Message) (k : K) (fuel : ℕ)
      → IsStarted sodium sockets d
      → IsGenerated sodium seed d.world.user.identity
      → IsAmple env
      → IsMessage m
      → IsOpened sodium a d.world.user.identity text m
      → 0 < m.ttl
      → length (encode m) ≤ poll_buffer_size
      → has_seen (evict_seen env d.router) m.uuid ≡ false
      → AreCopies (encode m) (queue k)
      → 0 < length (queue k)
      → length (queue k) < fuel
      → (d' : Cli D' K) × (step sodium (tick fuel env) (within d k) ≡ returned d')
        × (d'.world.user.output
            ≡ d.world.user.output ++ (incoming (bytes_to_hex a.pubkey) (c_string text) ∷ []))
  unfolding step
  step-HasArrived env seed a text m k fuel sd hb ample v opened alive fits new copies waiting
        enough =
      let id = d.world.user.identity in
      let (sized, _) = laws.keypair_sized seed id.pubkey id.secret_key hb in
      let here = opened.to ∙ sym (sd.own ∙ take-length id.pubkey pubkey_size sized) in
      let t : Terminal = record d.world.user { env = env } in
      let w : World D' (Udp K) Terminal = record (within d k).world { user = t } in
      let (out, ticks, user) =
        tick_router-delivers net fuel env m d.router w sd.set_up.transport
          (on_message_received sodium) v ample fits sd.set_up.valid sd.set_up.has_transport
          sd.set_up.udp.receives sd.set_up.calls new here alive refl copies waiting enough in
      let shown =
        on_message_received-IsOpened sodium a t text (hop m)
          (IsOpened-hop sodium a id text m opened) (ample.granted (bytes (length text + 1))) in
      (
        ticked (within d k) out,
        ap (λ s. s >>= λ out. returned (ticked (within d k) out)) ticks,
        ap (λ t. t.output) (user ∙ shown),
      )

module _ ⦃mem : Memcmp⦄ {D D' K : Type 0} {sodium : Sodium} (laws : IsSodium sodium)
    {sockets : Sockets K} {queue : K → List (List ℕ)} {port : ℕ} {d : Cli D' K}
    (net : IsLoopback sockets queue port d.world.net.sockfd) where
  -- A text typed into one program, where it says that the message is sent, is printed by the next tick of
  -- the other, once, up to its first NUL, with the sender's key: between programs that `main` started with
  -- keypairs of libsodium, where the sender has a neighbour and the receiver's port, the packet fits the
  -- receiver's buffer of 4096 bytes, nothing else waits there, memory is not exhausted, the sender's clock
  -- and random bytes have their sizes, the random UUID is not in the receiver's cache, and the tick has
  -- fuel for the packets that wait.
  pub step-send_text :
      (env env' : Env) (seed seed' : List ℕ) (c : Cli D K) (text : List ℕ) (fuel : ℕ)
      → IsStarted sodium sockets c
      → IsStarted sodium sockets d
      → IsGenerated sodium seed c.world.user.identity
      → IsGenerated sodium seed' d.world.user.identity
      → IsTyped env
      → IsAmple env
      → IsAmple env'
      → header_size + (nonce_size + (length text + tag_size)) ≤ poll_buffer_size
      → 0 < length c.router.peers
      → Memᴰ port c.world.net.peer_ports
      → queue c.world.net.net ≡ []
      → has_seen (evict_seen env' d.router) (env.random uuid_size) ≡ false
      → last_line (send_text sodium env c d.world.user.identity.pubkey text).world.user.output
        ≡ some message_sent
      → length (queue (send_text sodium env c d.world.user.identity.pubkey text).world.net.net)
        < fuel
      → let c' = send_text sodium env c d.world.user.identity.pubkey text in
        (d' : Cli D' K) × (step sodium (tick fuel env') (hearing d c') ≡ returned d')
        × (d'.world.user.output
            ≡ d.world.user.output
              ++ (incoming (bytes_to_hex c.world.user.identity.pubkey) (c_string text) ∷ []))
  step-send_text env env' seed seed' c text fuel sc sd ha hb typed a a' small some_peer at_port idle
        new sent enough =
      let id' = d.world.user.identity in
      let c' = send_text sodium env c id'.pubkey text in
      let (m, h) =
        send_text-IsSent laws env seed seed' c id' text ha hb typed a (omega (arith, small)) sent in
      let ((copies, _), waiting) =
        send_text-HasArrived laws net sc (omega (arith, small)) some_peer at_port idle h in
      step-HasArrived laws net env' seed' c.world.user.identity text m c'.world.net.net fuel sd hb
        a' h.valid h.opened (omega (arith, h.ttl))
        (omega (arith, length-encode h.valid, h.opened.sized, small))
        (subst (λ u. has_seen (evict_seen env' d.router) u ≡ false) (sym h.uuid) new) copies waiting
        enough
