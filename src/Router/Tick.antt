-- ===== src/Router/Tick.antt =====
-- src/usecase/mesh_router.c, `bc_router_tick`: one round of maintenance. The loop that polls the
-- transport runs as long as the transport has data, and takes fuel.
use bit_chat.Prelude.{
  ℕ, zero, suc, ◌+◌, ◌-◌, ◌*◌, ◌%◌, ◌^◌, Bool, ◌&&◌, List, [], ◌∷◌, ltb, leb, if◌then◌else◌, Option,
  none, some, length,
}
use bit_chat.Status.{Status, is_ok, Env, Run, returned, unfinished, ◌>>=◌}
use bit_chat.Sodium.{Memcmp}
use bit_chat.Message.{Message}
use bit_chat.Port.{Storage, Transport}
use bit_chat.Dedup
use bit_chat.Router.{Router, World, sf_rebroadcast_sec, receive_packet, serialize_and_forward}

-- `sizeof(buf)`
abbrev pub poll_buffer_size : ℕ
poll_buffer_size = 4096

-- The age that step 4 passes on, 72 hours.
abbrev pub retention_sec : ℕ
retention_sec = 72 * 3600

module _ {S T U : Type 0} where
  -- `dedup_evict(router)`
  abbrev pub evict_seen : Env → Router S T U → Router S T U
  evict_seen env r = record r {
    dedup_table = Dedup.evict r.dedup_table r.config.dedup_max_age env.now;
  }

  -- The loop of step 3 over the pending messages.
  unfoldable pub rebroadcast_all : Env → Router S T U → List Message → World S T U → World S T U
  rebroadcast_all env r [] w = w
  rebroadcast_all env r (m ∷ ms) w = rebroadcast_all env r ms (serialize_and_forward env r m w)

  -- The guard of step 3, on the clock and the peers.
  abbrev pub is_due : Env → Router S T U → Bool
  is_due env r =
      ltb 0 (length r.peers)
      && leb sf_rebroadcast_sec ((env.now + 2 ^ 64 - r.last_sf_tick) % 2 ^ 64)

  rebroadcast_with :
      Env
      → Option (Env → S → Option (List ℕ) → Status × List Message × S)
      → Router S T U
      → World S T U
      → Router S T U × World S T U
  rebroadcast_with env none r w = (r, w)
  rebroadcast_with env (some get_pending) r w =
      let r' = record r { last_sf_tick = env.now } in
      let (rc, msgs, s') = get_pending env w.store none in
      let w' = record w { store = s' } in
      if is_due env r then (r', if is_ok rc then rebroadcast_all env r' msgs w' else w') else (r, w)

  -- Step 3.
  unfoldable pub rebroadcast :
      Env → Option (Storage S) → Router S T U → World S T U → Router S T U × World S T U
  unfolding rebroadcast_with
  rebroadcast env none r w = (r, w)
  rebroadcast env (some storage) r w = rebroadcast_with env storage.get_pending r w

module _ {S : Type 0} where
  evict_with : Env → Option (Env → S → ℕ → Status × S) → S → S
  evict_with env none s = s
  evict_with env (some evict_expired) s = (evict_expired env s retention_sec).1

  -- Step 4.
  unfoldable pub evict_stored : Env → Option (Storage S) → S → S
  unfolding evict_with
  evict_stored env none s = s
  evict_stored env (some storage) s = evict_with env storage.evict_expired s

module _ ⦃mem : Memcmp⦄ {S T U : Type 0} where
  -- The loop of step 2.
  unfoldable pub poll_loop :
      ℕ
      → Env
      → (T → ℕ → Status × List ℕ × List ℕ × T)
      → Router S T U
      → World S T U
      → Run (Router S T U × World S T U)
  poll_loop zero env recv r w = unfinished
  poll_loop (suc fuel) env recv r w =
      let (rc, packet, sender_pubkey, net') = recv w.net poll_buffer_size in
      let w' = record w { net = net' } in
      let rest : Run (Router S T U × World S T U) =
        receive_packet env r w' (some packet) >>= λ (_, r'', w'').
        poll_loop fuel env recv r'' w'' in
      if is_ok rc && ltb 0 (length packet) then rest else returned (r, w')

  poll_with :
      ℕ
      → Env
      → Option (T → ℕ → Status × List ℕ × List ℕ × T)
      → Router S T U
      → World S T U
      → Run (Router S T U × World S T U)
  poll_with fuel env none r w = returned (r, w)
  poll_with fuel env (some recv) r w = poll_loop fuel env recv r w

  -- Step 2.
  unfoldable pub poll :
      ℕ → Env → Option (Transport T) → Router S T U → World S T U → Run (Router S T U × World S T U)
  unfolding poll_with
  poll fuel env none r w = returned (r, w)
  poll fuel env (some t) r w = poll_with fuel env t.recv r w

  -- `bc_router_tick`, for a router that is there.
  unfoldable pub tick_router :
      ℕ → Env → Router S T U → World S T U → Run (Router S T U × World S T U)
  tick_router fuel env r w = do
    let evicted = evict_seen env r
    (polled, w₂) ← poll fuel env evicted.transport evicted w
    let (r₃, w₃) = rebroadcast env polled.storage polled w₂
    returned (r₃, record w₃ { store = evict_stored env r₃.storage w₃.store })

  -- `bc_router_tick`
  unfoldable pub tick :
      ℕ → Env → Option (Router S T U) → World S T U → Run (Option (Router S T U) × World S T U)
  tick fuel env none w = returned (none, w)
  tick fuel env (some r) w = do (r', w') ← tick_router fuel env r w; returned (some r', w')
