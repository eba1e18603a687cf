-- ===== src/Cli/Lost.antt =====
-- Two programs of src/cli/main.c on one host, and a text that is too long for the buffer of
-- `bc_router_tick`.
use bit_chat.Prelude.{ℕ, ◌+◌, ◌≤◌, ◌<◌, ◌≡◌, refl, ap, List, [], arith, some, length}
use mathlib.Core.List.{Memᴰ}
use bit_chat.Status.{Env, IsAmple, returned, ◌>>=◌}
use bit_chat.Sodium.{Sodium, IsSodium, Memcmp}
use bit_chat.Message.{header_size}
use bit_chat.Message.Typed.{IsTyped}
use bit_chat.Message.Format.{length-encode}
use bit_chat.Crypto.{nonce_size, tag_size}
use bit_chat.Udp.{Udp, Sockets}
use bit_chat.Udp.Loopback.{IsLoopback, max_datagram}
use bit_chat.Router.{World}
use bit_chat.Router.Tick.{poll_buffer_size}
use bit_chat.Router.Cut.{tick_router-cut}
use bit_chat.Ffi.Envelope.{IsGenerated}
use bit_chat.Cli.Command.{Cli, Terminal, send_text, message_sent}
use bit_chat.Cli.Shown.{last_line}
use bit_chat.Cli.SetUp.{IsStarted}
use bit_chat.Cli.Loop.{tick, step, ticked}
use bit_chat.Cli.Sent.{send_text-IsSent, send_text-HasArrived}
use bit_chat.Cli.Arrive.{hearing}

module _ ⦃mem : Memcmp⦄ {D D' K : Type 0} {sodium : Sodium} (laws : IsSodium sodium)
    {sockets : Sockets K} {queue : K → List (List ℕ)} {port : ℕ} {d : Cli D' K}
    (net : IsLoopback sockets queue port d.world.net.sockfd) where
  -- A text whose packet is longer than 4096 bytes, and fits a datagram, is not printed by the next tick of
  -- the receiver, which returns and prints nothing, although the packet waits for it and the program that
  -- it is typed into says that the message is sent. The programs are as `main` started them, with keypairs of libsodium, the sender has a
  -- neighbour and the receiver's port, nothing else waits there, the sender's memory is not exhausted, its
  -- clock and random bytes have their sizes, and the tick has fuel for the packets that wait.
  pub step-send_text_long :
      (env env' : Env) (seed seed' : List ℕ) (c : Cli D K) (text : List ℕ) (fuel : ℕ)
      → IsStarted sodium sockets c
      → IsStarted sodium sockets d
      → IsGenerated sodium seed c.world.user.identity
      → IsGenerated sodium seed' d.world.user.identity
      → IsTyped env
      → IsAmple env
      → poll_buffer_size < header_size + (nonce_size + (length text + tag_size))
      → header_size + (nonce_size + (length text + tag_size)) ≤ max_datagram
      → 0 < length c.router.peers
      → Memᴰ port c.world.net.peer_ports
      → queue c.world.net.net ≡ []
      → last_line (send_text sodium env c d.world.user.identity.pubkey text).world.user.output
        ≡ some message_sent
      → length (queue (send_text sodium env c d.world.user.identity.pubkey text).world.net.net)
        < fuel
      → let c' = send_text sodium env c d.world.user.identity.pubkey text in
        (d' : Cli D' K) × (step sodium (tick fuel env') (hearing d c') ≡ returned d')
        × (0 < length (queue c'.world.net.net))
        × (d'.world.user.output ≡ d.world.user.output)
  unfolding step
  step-send_text_long env env' seed seed' c text fuel sc sd ha hb typed a long small some_peer
        at_port idle sent enough =
      let id' = d.world.user.identity in
      let c' = send_text sodium env c id'.pubkey text in
      let (m, h) =
        send_text-IsSent laws env seed seed' c id' text ha hb typed a (omega (arith, small)) sent in
      let ((copies, _), waiting) =
        send_text-HasArrived laws net sc small some_peer at_port idle h in
      let t : Terminal = record d.world.user { env = env' } in
      let w : World D' (Udp K) Terminal = record (hearing d c').world { user = t } in
      let (out, ticks, user) =
        tick_router-cut net env' m h.valid
          (omega (arith, length-encode h.valid, h.opened.sized, long)) fuel d.router w
          sd.set_up.transport sd.set_up.has_transport sd.set_up.udp.receives refl copies enough in
      (
        ticked (hearing d c') out,
        ap (λ s. s >>= λ out. returned (ticked (hearing d c') out)) ticks,
        waiting,
        ap (λ t. t.output) user,
      )
