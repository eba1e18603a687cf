-- ===== src/Router/Rebroadcast.antt =====
-- Store and forward: what a router keeps in SQLite for a receiver that is away is sent again.
use bit_chat.Prelude.{
  ℕ, suc, ap, ◌∙◌, Bool-cases, ◌<◌, ◌≡◌, refl, sym, Bool, true, false, ◌&&◌, inl, inr, List, [],
  ◌∷◌, ltb, none, some, length, subst,
}
use mathlib.Core.List.{Memᴰ}
use mathlib.Core.List.Memᴰ
use bit_chat.Status.{Status, Env, IsAmple, is_ok, returned, ◌>>=◌}
use bit_chat.Port.{Transport}
use bit_chat.Sodium.{Memcmp}
use bit_chat.Message.{Message, IsMessage}
use bit_chat.Message.Format.{encode}
use bit_chat.Forward.{sender}
use bit_chat.Sqlite.{Engine, Row, row_message, vtable, get_pending_messages}
use bit_chat.Sqlite.Table.{IsEngine}
use bit_chat.Sqlite.Pending.{IsPending, get_pending_messages-IsPending}
use bit_chat.Router.{Router, World, forward_to_peers, serialize_and_forward}
use bit_chat.Router.Keeps.{IsKept, forward_with-reaches, serialize_and_forward-keeps}
use bit_chat.Router.Receive.{serialize_and_forward_lem}
use bit_chat.Router.Path.{Air, air_send}
use bit_chat.Router.Copies.{poll-recv}
use bit_chat.Router.Tick.{
  is_due, rebroadcast_all, rebroadcast, evict_seen, evict_stored, tick_router, poll_loop,
  poll_buffer_size,
}

-- A packet that was sent.
abbrev IsSent : List ℕ → Air → Type 0
IsSent packet net = Memᴰ packet net

module _ ⦃mem : Memcmp⦄ {S U : Type 0} (r : Router S Air U)
    (sends : sender r.transport ≡ some air_send) (fans : 0 < r.config.fanout)
    (some_peer : ltb 0 (length r.peers) ≡ true) where
  serialize_and_forward-IsSent :
      (env : Env) (m : Message) (w : World S Air U)
      → IsMessage m
      → IsAmple env
      → IsSent (encode m) (serialize_and_forward env r m w).net
  unfolding forward_to_peers
  serialize_and_forward-IsSent env m w v ample =
      rw (serialize_and_forward_lem env r m w v ample, sends)
        (forward_with-reaches (IsSent (encode m)) air_send r.config.fanout (encode m) r.peers w.net
          fans some_peer (λ key. Memᴰ.head refl) (λ net key mem. Memᴰ.tail mem))

  rebroadcast_all-keeps :
      (env : Env) (packet : List ℕ) (ms : List Message) (w : World S Air U)
      → IsSent packet w.net
      → IsSent packet (rebroadcast_all env r ms w).net
  unfolding rebroadcast_all
  rebroadcast_all-keeps env packet [] w h = h
  rebroadcast_all-keeps env packet (m ∷ ms) w h =
      rebroadcast_all-keeps env packet ms (serialize_and_forward env r m w) (
        serialize_and_forward-keeps (IsSent packet) env r m w
          (subst (IsKept (IsSent packet)) (sym sends) (λ net key other mem. Memᴰ.tail mem)) h)

  rebroadcast_all-IsSent :
      (env : Env) (m : Message) (ms : List Message) (w : World S Air U)
      → Memᴰ m ms
      → IsMessage m
      → IsAmple env
      → IsSent (encode m) (rebroadcast_all env r ms w).net
  unfolding rebroadcast_all
  rebroadcast_all-IsSent env m [] w mem v ample = absurd (Memᴰ.not-nil mem)
  rebroadcast_all-IsSent env m (m' ∷ ms) w mem v ample = elim (Memᴰ.cases_cons mem) [
    | inl same ↦ rebroadcast_all-keeps env (encode m) ms (serialize_and_forward env r m' w) (
        subst (λ o. IsSent (encode m) (serialize_and_forward env r o w).net) same
          (serialize_and_forward-IsSent env m w v ample))
    | inr deep ↦ rebroadcast_all-IsSent env m ms (serialize_and_forward env r m' w) deep v ample
  ]

module _ ⦃mem : Memcmp⦄ {S T U : Type 0} where
  poll_loop-silent :
      (fuel : ℕ) (env : Env) (recv : T → ℕ → Status × List ℕ × List ℕ × T) (r : Router S T U)
      (w : World S T U) (rc : Status) (from : List ℕ)
      → recv w.net poll_buffer_size ≡ (rc, [], from, w.net)
      → poll_loop (suc fuel) env recv r w ≡ returned (r, w)
  unfolding poll_loop
  poll_loop-silent fuel env recv r w rc from silent = elim (Bool-cases (is_ok rc)) [
    | inl good ↦ rw (silent, good) refl
    | inr bad ↦ rw (silent, bad) refl
  ]

and-inv : (a b : Bool) → (a && b) ≡ true → a ≡ true
and-inv true b h = refl
and-inv false b h = cc

module _ ⦃mem : Memcmp⦄ {D U : Type 0} {engine : Engine D} {table : D → List Row}
    (laws : IsEngine engine table) where
  rebroadcast-IsSent :
      (env : Env) (r : Router D Air U) (w : World D Air U) (row : Row)
      → IsPending (table w.store) env.now none row
      → IsMessage (row_message row)
      → IsAmple env
      → is_due env r ≡ true
      → sender r.transport ≡ some air_send
      → 0 < r.config.fanout
      → IsSent (encode (row_message row)) (rebroadcast env (some (vtable engine)) r w).1.net
  unfolding rebroadcast
  rebroadcast-IsSent env r w row pending v ample due sends fans =
      let (rc, ms, store') = get_pending_messages engine env w.store none in
      let r' : Router D Air U = record r { last_sf_tick = env.now } in
      let w' : World D Air U = record w { store = store' } in
      let (good, listed) = get_pending_messages-IsPending laws env w.store none ample in
      let some_peer = and-inv (ltb 0 (length r.peers)) _ due in
      rw (due, good)
        (rebroadcast_all-IsSent r' sends fans some_peer env (row_message row) ms w'
          ((listed (row_message row)).1 (row, pending, refl)) v ample)

  -- A tick that is due, with memory, of a router whose storage is the SQLite adapter, sends the packet of
  -- each message whose row is pending and whose fields are in the ranges of their C types to a
  -- neighbour, where nothing comes in and sends have success.
  pub tick_router-IsSent :
      (fuel : ℕ) (env : Env) (r : Router D Air U) (w : World D Air U) (t : Transport Air)
      (recv : Air → ℕ → Status × List ℕ × List ℕ × Air) (rc : Status) (from : List ℕ) (row : Row)
      → r.storage ≡ some (vtable engine)
      → r.transport ≡ some t
      → t.recv ≡ some recv
      → recv w.net poll_buffer_size ≡ (rc, [], from, w.net)
      → t.send ≡ some air_send
      → IsPending (table w.store) env.now none row
      → IsMessage (row_message row)
      → IsAmple env
      → is_due env r ≡ true
      → 0 < r.config.fanout
      → (out : Router D Air U × World D Air U) × (tick_router (suc fuel) env r w ≡ returned out)
        × IsSent (encode (row_message row)) out.1.net
  unfolding tick_router
  tick_router-IsSent fuel env r w t recv rc from row has_storage has_transport has_recv silent sends
        pending v ample due fans =
      let r₁ = evict_seen env r in
      let polled =
        poll-recv (suc fuel) env r₁.transport r₁ w t recv has_transport has_recv
        ∙ poll_loop-silent fuel env recv r₁ w rc from silent in
      let (r₃, w₃) = rebroadcast env r₁.storage r₁ w in
      (
        (r₃, record w₃ { store = evict_stored env r₃.storage w₃.store }),
        ap
            (λ s. s >>= λ (p, w₂).
              let (r₃, w₃) = rebroadcast env p.storage p w₂ in
              returned (r₃, record w₃ { store = evict_stored env r₃.storage w₃.store }))
            polled,
        subst (λ o. IsSent (encode (row_message row)) (rebroadcast env o r₁ w).1.net)
            (sym has_storage)
            (rebroadcast-IsSent env r₁ w row pending v ample due (ap sender has_transport ∙ sends)
              fans),
      )
