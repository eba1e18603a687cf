-- ===== src/Cli/Program.antt =====
-- src/cli/main.c: what holds of a program from its first prompt on.
use bit_chat.Prelude.{
  ℕ, ◌+◌, ◌-◌, ◌*◌, ◌≡◌, refl, sym, ◌∙◌, subst, List, [], ◌∷◌, Bool, not, ltb, ◌==◌, Option, none,
  some, length, if-keeps, if-true, if-false, Bool-cases, inl, inr, replicate, drop, take,
}
use bit_chat.Status.{
  Status, is_ok, Env, bytes, returned, ◌>>=◌, >>=-eq-returned, returned-injective,
}
use bit_chat.Sodium.{Sodium, Memcmp}
use bit_chat.Message.{Message, pubkey_size}
use bit_chat.Identity.{Identity}
use bit_chat.Crypto.{nonce_size, tag_size, derive_shared, decrypt}
use bit_chat.Peer.{Peer}
use bit_chat.Port.{Transport}
use bit_chat.Udp.{Udp, Sockets, udp_send, udp_recv, received}
use bit_chat.Udp.Slots.{IsUdp}
use bit_chat.Router.Valid.{IsValid, broadcast_message-IsValid, tick_router-IsValid}
use bit_chat.Forward.{sender}
use bit_chat.Router.Keeps.{IsKept}
use bit_chat.Router.Parts.{IsClosed, IsReceived, IsCalled, Beside, broadcast_message-Beside}
use bit_chat.Router.Rounds.{tick_router-Beside}
use bit_chat.Router.Tick.{tick_router}
use bit_chat.Cli.{bytes_to_hex}
use bit_chat.Cli.Command.{
  Cli, Terminal, Output, peer_line, print, printed, show_text, on_message_received, cmd_info,
  cmd_peers, cmd_msg, print_peers, msg_to, msg_result, cast, send_text, unknown_command, usage,
  invalid_key, empty_text, no_peers, derive_error, encrypt_error, out_of_memory,
}
use bit_chat.Cli.Loop.{
  codes, starts_with, is_text, dispatch, Event, typed, tick, signal, step, run, ticked,
}

-- The program has the identity `id` and the context of the transport: its socket and its peers' ports.
abbrev Owns : Identity → Terminal → Type 0
Owns id t = t.identity ≡ id

show_text-Owns :
    (id : Identity) (sender : List ℕ) (pt_len : ℕ) (out : Status × Option (List ℕ)) (t : Terminal)
    → Owns id t
    → Owns id (show_text sender pt_len out t)
show_text-Owns id sender pt_len (rc, plaintext) t h = if-keeps (Owns id) (is_ok rc) h h

on_message_received-Owns :
    (sodium : Sodium) (id : Identity) (m : Message) (t : Terminal)
    → Owns id t
    → Owns id (on_message_received sodium m t)
unfolding on_message_received
on_message_received-Owns sodium id m t h =
    let (rc, key) =
      derive_shared sodium (some t.identity.secret_key) (some m.sender_pubkey)
        (some (replicate 32 0)) in
    let ct = drop nonce_size m.payload in
    let pt_len = length ct - tag_size in
    let plain =
      decrypt sodium (some ct) key (some (take nonce_size m.payload))
        (some (replicate (pt_len + 1) 0)) in
    if-keeps (Owns id) (ltb (length m.payload) (nonce_size + tag_size)) h (
      if-keeps (Owns id) (not (is_ok rc)) h (
        if-keeps (Owns id) (not (t.env.alloc (bytes (pt_len + 1)))) h
          (show_text-Owns id m.sender_pubkey pt_len plain t h)))

print_peers-Owns :
    (id : Identity) (i : ℕ) (ps : List Peer) (t : Terminal)
    → Owns id t
    → Owns id (print_peers i ps t)
unfolding print_peers
print_peers-Owns id i [] t h = h
print_peers-Owns id i (p ∷ ps) t h =
    print_peers-Owns id (i + 1) ps (print (peer_line i (bytes_to_hex p.pubkey)) t) h

abbrev Sits : {K : Type 0} → Udp K → Udp K → Type 0
Sits at self = (self.sockfd ≡ at.sockfd) × (self.peer_ports ≡ at.peer_ports)

module _ {K : Type 0} (sockets : Sockets K) (at : Udp K) where
  udp_send-Sits :
      (self : Udp K) (key packet : List ℕ)
      → Sits at self
      → Sits at (udp_send sockets self key packet).1
  unfolding udp_send
  udp_send-Sits self key packet h =
      if-keeps (λ (o : Status × Udp K). Sits at o.1) (length packet == 0) h h

  udp_recv-Sits : (self : Udp K) (n : ℕ) → Sits at self → Sits at (udp_recv sockets self n).3
  unfolding udp_recv
  udp_recv-Sits self n h = by_result (sockets.recvfrom self.net self.sockfd n)
    where
      by_result : (out : Option (List ℕ) × K) → Sits at (received sockets self out).3
      by_result (none, net) = h
      by_result (some [], net) = h
      by_result (some (b ∷ bs), net) = h

some-injective : {A : Type 0} {a b : A} → some a ≡ some b → a ≡ b
some-injective h = cc

-- What `main` makes before its loop: a valid router over UDP, with the callback of the program.
pub record IsSetUp {D K : Type 0} (sodium : Sodium) (sockets : Sockets K) (c : Cli D K)
    : Type 0 where
  pub valid : IsValid c.router
  pub transport : Transport (Udp K)
  pub has_transport : c.router.transport ≡ some transport
  pub udp : IsUdp sockets transport
  pub calls : c.router.on_message ≡ some (on_message_received sodium)

-- A later state of the program: its router is valid, with the adapters, the configuration, the key and
-- the callback that it had, and the socket, the ports and the identity are the same.
pub record IsLater {D K : Type 0} (c₀ c : Cli D K) : Type 0 where
  pub valid : IsValid c.router
  pub beside : Beside (Sits c₀.world.net) (Owns c₀.world.user.identity) c₀.router c.router c.world

IsSetUp-IsClosed :
    {D K : Type 0} {sodium : Sodium} {sockets : Sockets K} {c : Cli D K}
    → IsSetUp sodium sockets c
    → IsClosed (Sits c.world.net) (Owns c.world.user.identity) c.router
IsSetUp-IsClosed {sodium} {sockets} {c} h = record {
  sends =
      subst (λ t. IsKept (Sits c.world.net) (sender t)) (sym h.has_transport)
        (subst (IsKept (Sits c.world.net)) (sym h.udp.sends) (udp_send-Sits sockets c.world.net));
  receives = subst (IsReceived (Sits c.world.net)) (sym h.has_transport) (λ recv e net n kept.
      subst (λ f. Sits c.world.net (f net n).3) (some-injective (sym h.udp.receives ∙ e))
        (udp_recv-Sits sockets c.world.net net n kept));
  calls =
      subst (IsCalled (Owns c.world.user.identity)) (sym h.calls)
        (on_message_received-Owns sodium c.world.user.identity);
}

module _ {D K : Type 0} {sodium : Sodium} {sockets : Sockets K} {c₀ : Cli D K}
    (h : IsSetUp sodium sockets c₀) where
  pub here-IsLater : IsLater c₀ c₀
  here-IsLater = record {
    valid = h.valid;
    beside = (
      record {
        transport = refl;
        storage = refl;
        config = refl;
        local_pubkey = refl;
        on_message = refl;
      },
      (refl, refl),
      refl,
    );
  }

  cast-IsLater :
      {c : Cli D K} (env : Env) (m : Option Message) → IsLater c₀ c → IsLater c₀ (cast env c m)
  cast-IsLater env none l = record { valid = l.valid; beside = l.beside }
  cast-IsLater {c} env (some m) l = record {
    valid = broadcast_message-IsValid env c.world m l.valid;
    beside =
        broadcast_message-Beside (Sits c₀.world.net) (Owns c₀.world.user.identity) c₀.router
          (IsSetUp-IsClosed h) env c.world m l.beside;
  }

  printed-IsLater : {c : Cli D K} (line : Output) → IsLater c₀ c → IsLater c₀ (printed c line)
  printed-IsLater line l = record { valid = l.valid; beside = l.beside }

  msg_result-IsLater :
      {c : Cli D K} (env : Env) (derived : Status) (granted : Bool) (sealed : Status)
      (m : Option Message)
      → IsLater c₀ c
      → IsLater c₀ (msg_result env c derived granted sealed m)
  unfolding msg_result
  msg_result-IsLater env derived granted sealed m l =
      if-keeps (IsLater c₀) (not (is_ok derived)) (printed-IsLater (derive_error derived) l) (
        if-keeps (IsLater c₀) (not granted) (printed-IsLater out_of_memory l) (
          if-keeps (IsLater c₀) (not (is_ok sealed)) (printed-IsLater (encrypt_error sealed) l)
            (cast-IsLater env m l)))

  pub send_text-IsLater :
      {c : Cli D K} (env : Env) (recipient text : List ℕ)
      → IsLater c₀ c
      → IsLater c₀ (send_text sodium env c recipient text)
  unfolding send_text
  send_text-IsLater env recipient text l = msg_result-IsLater env _ _ _ _ l

  msg_to-IsLater :
      {c : Cli D K} (env : Env) (recipient : Option (List ℕ)) (text : List ℕ)
      → IsLater c₀ c
      → IsLater c₀ (msg_to sodium env c recipient text)
  msg_to-IsLater env none text l = printed-IsLater invalid_key l
  msg_to-IsLater env (some recipient) [] l = printed-IsLater empty_text l
  msg_to-IsLater env (some recipient) (t ∷ ts) l = send_text-IsLater env recipient (t ∷ ts) l

  cmd_msg-IsLater :
      {c : Cli D K} (env : Env) (args : List ℕ)
      → IsLater c₀ c
      → IsLater c₀ (cmd_msg sodium env c args)
  unfolding cmd_msg
  cmd_msg-IsLater env args l =
      if-keeps (IsLater c₀) (ltb (length args) (pubkey_size * 2 + 2)) (printed-IsLater usage l)
        (msg_to-IsLater env _ _ l)

  cmd_peers-IsLater : {c : Cli D K} → IsLater c₀ c → IsLater c₀ (cmd_peers c)
  unfolding cmd_peers
  cmd_peers-IsLater {c} l =
      let (fixed, sits, owns) = l.beside in
      if-keeps (IsLater c₀) (length c.router.peers == 0) (printed-IsLater no_peers l) record {
        valid = l.valid;
        beside = (
          fixed,
          sits,
          print_peers-Owns c₀.world.user.identity 0 c.router.peers c.world.user owns,
        );
      }

  dispatch-IsLater :
      {c : Cli D K} (env : Env) (line : List ℕ)
      → IsLater c₀ c
      → IsLater c₀ (dispatch sodium env c line)
  unfolding dispatch cmd_info
  dispatch-IsLater {c} env line l = if-keeps (IsLater c₀) (length line == 0) l (
      if-keeps (IsLater c₀) (is_text (codes "/info") line) (printed-IsLater _ l) (
        if-keeps (IsLater c₀) (is_text (codes "/peers") line) (cmd_peers-IsLater l) (
          if-keeps (IsLater c₀) (starts_with (codes "/msg ") line)
            (cmd_msg-IsLater env (drop 5 line) l)
            (if-keeps (IsLater c₀) (is_text (codes "/quit") line)
              (record { valid = l.valid; beside = l.beside })
              (printed-IsLater unknown_command l)))))

  module _ ⦃mem : Memcmp⦄ where
    step-IsLater :
        {c c' : Cli D K} (e : Event) → IsLater c₀ c → step sodium e c ≡ returned c' → IsLater c₀ c'
    unfolding step
    step-IsLater {c} (typed env text) l eq =
        subst (IsLater c₀) (returned-injective eq) (dispatch-IsLater env _ l)
    step-IsLater {c} (tick fuel env) l eq =
        let w = record c.world { user = record c.world.user { env = env } } in
        let ((r', w'), one, more) =
          >>=-eq-returned (tick_router fuel env c.router w) (λ out. returned (ticked c out)) eq in
        subst (IsLater c₀) (returned-injective more) record {
          valid = tick_router-IsValid fuel env w w' l.valid one;
          beside =
              tick_router-Beside (Sits c₀.world.net) (Owns c₀.world.user.identity) c₀.router
                (IsSetUp-IsClosed h) fuel env w w' l.beside one;
        }
    step-IsLater {c} signal l eq =
        subst (IsLater c₀) (returned-injective eq) (record { valid = l.valid; beside = l.beside })

    run-keeps :
        (es : List Event) {c c' : Cli D K}
        → IsLater c₀ c
        → run sodium es c ≡ returned c'
        → IsLater c₀ c'
    unfolding run
    run-keeps [] l eq = subst (IsLater c₀) (returned-injective eq) l
    run-keeps (e ∷ es) {c} l eq =
        let rest = step sodium e c >>= run sodium es in
        elim (Bool-cases c.is_running) [
          | inr over ↦ subst (IsLater c₀) (returned-injective (if-false over rest eq)) l
          | inl going ↦
              let (c₁, one, more) =
                >>=-eq-returned (step sodium e c) (run sodium es) (if-true going (returned c) eq) in
              run-keeps es (step-IsLater e l one) more
        ]

    -- Every state that the program comes to, in whatever order lines are typed, ticks run and signals
    -- arrive, is a later one.
    pub run-IsLater : {c : Cli D K} (es : List Event) → run sodium es c₀ ≡ returned c → IsLater c₀ c
    run-IsLater es eq = run-keeps es here-IsLater eq
