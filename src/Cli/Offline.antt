-- ===== src/Cli/Offline.antt =====
-- Two programs of src/cli/main.c on one host, one of which is started late: store and forward, from the
-- typed text to the printed line.
use bit_chat.Prelude.{
  ℕ, suc, ◌+◌, ◌^◌, ◌≤◌, ◌<◌, ◌≡◌, refl, sym, ap, ◌∙◌, subst, inl, inr, true, List, [], ◌∷◌, ◌++◌,
  arith, false, none, some, length, All,
}
use mathlib.Core.List.{Memᴰ}
use mathlib.Core.List.Memᴰ
use bit_chat.Status.{Env, IsAmple, returned, ◌>>=◌}
use bit_chat.Sodium.{Sodium, IsSodium, Memcmp}
use bit_chat.Message.{Message, IsMessage, header_size, uuid_size}
use bit_chat.Message.Typed.{IsTyped}
use bit_chat.Message.Format.{encode, length-encode}
use bit_chat.Identity.{Identity}
use bit_chat.Crypto.{nonce_size, tag_size}
use bit_chat.Udp.{Udp, Sockets}
use bit_chat.Udp.Loopback.{IsLoopback, AreCopies}
use bit_chat.Sqlite.{
  Engine, Row, insert, bindings, bound_row, row_message, retention, vtable, get_pending_messages,
}
use bit_chat.Sqlite.Table.{max_blob, store_message_lem, IsEngine}
use bit_chat.Sqlite.Pending.{get_pending_messages-IsPending}
use bit_chat.Sqlite.Retention.{restamped, row_message-bound_row}
use bit_chat.Router.{World, persist}
use bit_chat.Router.Receive.{has_seen}
use bit_chat.Router.Tick.{poll_buffer_size, evict_seen, is_due}
use bit_chat.Router.Resend.{IsKeeping, tick_router-HasArrived}
use bit_chat.Ffi.Envelope.{IsGenerated, IsOpened}
use bit_chat.Cli.{bytes_to_hex}
use bit_chat.Cli.Command.{Cli, Terminal, send_text, c_string, incoming, message_sent}
use bit_chat.Cli.Shown.{last_line}
use bit_chat.Cli.Program.{here-IsLater, send_text-IsLater}
use bit_chat.Cli.SetUp.{IsStarted, IsLater-IsStarted}
use bit_chat.Cli.Loop.{tick, step, ticked}
use bit_chat.Cli.Sent.{send_text-IsSent, IsStarted-IsSending}
use bit_chat.Cli.Arrive.{within, hearing, step-HasArrived}

All-Mem : {A : Type 0} (P : A → Type 0) (xs : List A) → ((x : A) → Memᴰ x xs → P x) → All P xs
All-Mem P [] h = tt
All-Mem P (x ∷ xs) h = (h x (Memᴰ.head refl), All-Mem P xs (λ y mem. h y (Memᴰ.tail mem)))

length-Mem : {A : Type 0} (x : A) (xs : List A) → Memᴰ x xs → 0 < length xs
length-Mem x [] mem = absurd (Memᴰ.not-nil mem)
length-Mem x (y ∷ ys) mem = omega arith

-- A database that holds one row, which is pending, gives its message.
one_row-IsKeeping :
    {D : Type 0} {engine : Engine D} {table : D → List Row} (laws : IsEngine engine table)
    (env : Env) (db : D) (row : Row)
    → IsAmple env
    → Memᴰ row (table db)
    → ((r : Row) → Memᴰ r (table db) → r ≡ row)
    → env.now ≤ row.expires_at
    → IsKeeping env (vtable engine) db (row_message row)
one_row-IsKeeping {engine} laws env db row a mem only young =
    let (good, listed) = get_pending_messages-IsPending laws env db none a in
    let ms = (get_pending_messages engine env db none).1 in
    record {
      get_pending = get_pending_messages engine;
      has_get_pending = refl;
      good = good;
      same =
          All-Mem (λ m. m ≡ row_message row) ms
            (λ m found.
              let (r, pending, made) = (listed m).0 found in
              sym made ∙ ap row_message (only r pending.stored));
      filled = length-Mem (row_message row) ms (
          (listed (row_message row)).1
            (row, record { stored = mem; for_receiver = tt; young = young }, refl));
    }

-- The message comes back with the time of its storage.
restamped-IsMessage :
    (now : ℕ) {m : Message} → now < 2 ^ 64 → IsMessage m → IsMessage (restamped now m)
restamped-IsMessage now clock v = record {
  uuid_sized = v.uuid_sized;
  ttl_byte = v.ttl_byte;
  sender_sized = v.sender_sized;
  receiver_sized = v.receiver_sized;
  timestamp_word = clock;
  payload_sized = v.payload_sized;
}

restamped-IsOpened :
    (sodium : Sodium) (a b : Identity) (text : List ℕ) (m : Message) (now : ℕ)
    → IsOpened sodium a b text m
    → IsOpened sodium a b text (restamped now m)
restamped-IsOpened sodium a b text m now h = record {
  sized = h.sized;
  from = h.from;
  to = h.to;
  key = h.key;
  derived = h.derived;
  opened = h.opened;
}

-- A message that is stored in an empty database.
stored-IsKeeping :
    {D : Type 0} {engine : Engine D} {table : D → List Row} (laws : IsEngine engine table)
    (env env' : Env) (db : D) (m : Message)
    → IsMessage m
    → length m.payload ≤ max_blob
    → IsAmple env'
    → env.now < 2 ^ 63
    → env'.now ≤ env.now + retention
    → table db ≡ []
    → ((row : Row) → (engine.step db insert (bindings row)).0 ≡ true)
    → IsKeeping env' (vtable engine) (persist env (some (vtable engine)) m db) (restamped env.now m)
unfolding persist
stored-IsKeeping {engine} {table} laws env env' db m v small a early young none_yet writes =
    let row = bound_row env.now m in
    let db' = (engine.step db insert (bindings row)).1 in
    let stepped : engine.step db insert (bindings row) ≡ (true, db') =
      ap (λ b. (b, db')) (writes row) in
    let kept =
      laws.inserted db db' row
        (λ r mem. absurd (Memᴰ.not-nil (subst (λ rs. Memᴰ r rs) none_yet mem))) stepped in
    let only : (r : Row) → Memᴰ r (table db') → r ≡ row = λ r mem.
      elim (laws.inserted_only db db' row r stepped mem) [
        | inl old ↦ absurd (Memᴰ.not-nil (subst (λ rs. Memᴰ r rs) none_yet old))
        | inr same ↦ same
      ] in
    subst (λ s. IsKeeping env' (vtable engine) s (restamped env.now m))
      (sym (ap (λ o. o.1) (store_message_lem laws env db m small)))
      (subst (IsKeeping env' (vtable engine) db') (row_message-bound_row env.now m v early)
        (one_row-IsKeeping laws env' db' row a kept only young))

module _ ⦃mem : Memcmp⦄ {D D' K : Type 0} {sodium : Sodium} (laws : IsSodium sodium)
    {sockets : Sockets K} {queue : K → List (List ℕ)} {port : ℕ} {d : Cli D' K}
    (net : IsLoopback sockets queue port d.world.net.sockfd) {engine : Engine D}
    {table : D → List Row} (sql : IsEngine engine table) where
  -- A text typed into one program, where it says that the message is sent, is printed by another one
  -- also if what was sent at first is lost: at any time in the 72 hours after, in a network where nothing
  -- waits, a due tick of the sender sends the message again from its database, and the next tick of the
  -- receiver prints the text, once, up to its first NUL, with the sender's key. The programs are as `main`
  -- started them, with keypairs of libsodium, the sender has a neighbour, the receiver's port and an empty
  -- database that takes rows, the packet fits the receiver's buffer of 4096 bytes, memory is not
  -- exhausted, the sender's random bytes have their sizes and its clock is below 2^63, and the random
  -- UUID is not in the receiver's cache.
  pub step-step-send_text :
      (env env' env'' : Env) (seed seed' : List ℕ) (c : Cli D K) (text : List ℕ) (k : K) (fuel : ℕ)
      → IsStarted sodium sockets c
      → IsStarted sodium sockets d
      → IsGenerated sodium seed c.world.user.identity
      → IsGenerated sodium seed' d.world.user.identity
      → IsTyped env
      → IsAmple env
      → IsAmple env'
      → IsAmple env''
      → header_size + (nonce_size + (length text + tag_size)) ≤ poll_buffer_size
      → 0 < length c.router.peers
      → Memᴰ port c.world.net.peer_ports
      → c.router.storage ≡ some (vtable engine)
      → table c.world.store ≡ []
      → ((row : Row) → (engine.step c.world.store insert (bindings row)).0 ≡ true)
      → env.now < 2 ^ 63
      → env'.now ≤ env.now + retention
      → is_due env' c.router ≡ true
      → queue k ≡ []
      → sockets.recvfrom k c.world.net.sockfd poll_buffer_size ≡ (none, k)
      → has_seen (evict_seen env'' d.router) (env.random uuid_size) ≡ false
      → last_line (send_text sodium env c d.world.user.identity.pubkey text).world.user.output
        ≡ some message_sent
      → let c' = send_text sodium env c d.world.user.identity.pubkey text in
        (c'' : Cli D K) × (d' : Cli D' K) × (step sodium (tick (suc fuel) env') (within c' k)
          ≡ returned c'')
        × (step sodium (tick (suc (length (queue c''.world.net.net))) env'') (hearing d c'')
            ≡ returned d')
        × (d'.world.user.output
            ≡ d.world.user.output
              ++ (incoming (bytes_to_hex c.world.user.identity.pubkey) (c_string text) ∷ []))
  unfolding step
  step-step-send_text env env' env'' seed seed' c text k fuel sc sd ha hb typed a a' a'' small
        some_peer at_port stores none_yet writes early young due idle silent new sent =
      let id' = d.world.user.identity in
      let c' = send_text sodium env c id'.pubkey text in
      let (m, h) =
        send_text-IsSent laws env seed seed' c id' text ha hb typed a (omega (arith, small)) sent in
      let m' = restamped env.now m in
      let v' = restamped-IsMessage env.now typed.clock h.valid in
      let fits : length (encode m') ≤ poll_buffer_size =
        omega (arith, length-encode v', h.opened.sized, small) in
      let l = send_text-IsLater sc.set_up env id'.pubkey text (here-IsLater sc.set_up) in
      let sc' = IsLater-IsStarted sc l in
      let (fixed, (same_fd, same_ports), _) = l.beside in
      let peers : 0 < length c'.router.peers =
        subst (λ r. 0 < length r.peers) (sym h.marked) some_peer in
      let w : World D (Udp K) Terminal = record (within c' k).world {
        user = record c'.world.user { env = env' };
      } in
      let keeping =
        subst (λ s. IsKeeping env' (vtable engine) s m')
          (sym (h.stored ∙ ap (λ st. persist env st m c.world.store) stores))
          (stored-IsKeeping sql env env' c.world.store m h.valid
            (omega (arith, length-encode h.valid, h.opened.sized, small)) a' early young none_yet
            writes) in
      let (out, ticks, arrived) =
        tick_router-HasArrived net fuel env' m' c'.router w sc'.set_up.transport (vtable engine) v'
          a' (omega (arith, fits)) (IsStarted-IsSending sc' peers) sc'.set_up.has_transport
          sc'.set_up.udp.receives (fixed.storage ∙ stores) keeping
          (subst (λ r. is_due env' r ≡ true) (sym h.marked) due)
          (subst (λ fd. sockets.recvfrom k fd poll_buffer_size ≡ (none, k)) (sym same_fd) silent)
          (
            subst (AreCopies (encode m')) (sym idle) tt,
            subst (Memᴰ port) (sym same_ports) at_port,
          ) in
      let ((copies, _), waiting) = arrived in
      let c'' = ticked (within c' k) out in
      let opened = restamped-IsOpened sodium c.world.user.identity id' text m env.now h.opened in
      let (d', heard, shown) =
        step-HasArrived laws net env'' seed' c.world.user.identity text m' c''.world.net.net
          (suc (length (queue c''.world.net.net))) sd hb a'' v' opened (omega (arith, h.ttl)) fits
          (subst (λ u. has_seen (evict_seen env'' d.router) u ≡ false) (sym h.uuid) new) copies
          waiting (omega arith) in
      (c'', d', ap (λ s. s >>= λ out. returned (ticked (within c' k) out)) ticks, heard, shown)
