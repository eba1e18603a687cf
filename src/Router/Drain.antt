-- ===== src/Router/Drain.antt =====
-- `bc_router_tick` ends: the loop that polls the transport has as many rounds as packets wait.
use bit_chat.Prelude.{
  Bool, true, false, ℕ, zero, suc, ◌+◌, ◌<◌, ◌≤◌, ◌^◌, ◌≡◌, ◌≢◌, ◌⊎◌, refl, inl, inr, ◌∙◌, ◌&&◌,
  List, arith, ltb, ◌==◌, Option, some, Bool-cases, length,
}
use bit_chat.Status.{Status, err_invalid, Env, returned, is_ok}
use bit_chat.Sodium.{Memcmp}
use bit_chat.Message.{Message, header_size}
use bit_chat.Message.Deserialize.{Parsed, null, fault, parsed, deserialize}
use bit_chat.Message.Bounds.{claimed_length, deserialize-ne-fault}
use bit_chat.Port.{Transport}
use bit_chat.Router.{Router, World, receive_message, receive_parsed, receive_packet}
use bit_chat.Router.Keeps.{IsKept, receive_packet-keeps}
use bit_chat.Router.Tick.{
  evict_seen, rebroadcast, poll_buffer_size, poll_loop, poll, tick_router, evict_stored,
}

-- The sum of header and claimed payload length fits 32 bits.
abbrev pub IsHonest : List ℕ → Type 0
IsHonest packet = header_size + claimed_length packet < 2 ^ 32

-- A transport that holds finitely many packets, counted by `waiting`: a receive that gives one takes
-- it out, a send adds none of them. `Honest` is what is assumed of a context; each packet from it is
-- honest.
pub record IsQueue {T : Type 0} (t : Transport T) (waiting : T → ℕ) (Honest : T → Type 0)
    : Type 0 where
  pub recv : T → ℕ → Status × List ℕ × List ℕ × T
  pub has_recv : t.recv ≡ some recv
  pub taken :
      (net : T) (n : ℕ)
      → Honest net
      → is_ok (recv net n).0 ≡ true
      → (waiting (recv net n).3 < waiting net) × Honest (recv net n).3 × IsHonest (recv net n).1
  pub sends : (k : ℕ) → IsKept (λ net. Honest net × (waiting net ≤ k)) t.send

and_left : (a b : Bool) → (a && b) ≡ true → a ≡ true
and_left true b h = refl
and_left false b h = cc

parse-cases : (p : Parsed) → p ≢ fault → (p ≡ null) ⊎ ((m : Message) × (p ≡ parsed m))
parse-cases null h = inl refl
parse-cases fault h = absurd (h refl)
parse-cases (parsed m) h = inr (m, refl)

module _ ⦃mem : Memcmp⦄ {S T U : Type 0} where
  -- An honest packet is handled without a read outside of it.
  receive_packet-returns :
      (env : Env) (r : Router S T U) (w : World S T U) (packet : List ℕ)
      → IsHonest packet
      → (out : Status × Router S T U × World S T U) × (receive_packet env r w (some packet)
          ≡ returned out)
  unfolding receive_packet receive_parsed
  receive_packet-returns env r w packet h = elim (Bool-cases (length packet == 0)) [
    | inl empty ↦ ((err_invalid, r, w), rw empty refl)
    | inr more ↦
        elim (parse-cases (deserialize env (some packet)) (deserialize-ne-fault env packet h)) [
          | inl bad ↦ ((err_invalid, r, w), rw (more, bad) refl)
          | inr (m, good) ↦ (receive_message env r w m, rw (more, good) refl)
        ]
  ]

  module _ {t : Transport T} {waiting : T → ℕ} {Honest : T → Type 0}
      (q : IsQueue t waiting Honest) where
    poll_loop-returns :
        (fuel : ℕ) (env : Env) (r : Router S T U) (w : World S T U)
        → r.transport ≡ some t
        → Honest w.net
        → waiting w.net < fuel
        → (out : Router S T U × World S T U) × (poll_loop fuel env q.recv r w ≡ returned out)
    unfolding poll_loop
    poll_loop-returns zero env r w e h l = absurd (omega arith)
    poll_loop-returns (suc fuel) env r w e h l =
        let (rc, packet, key, net') = q.recv w.net poll_buffer_size in
        let w₁ : World S T U = record w { net = net' } in
        elim (Bool-cases (is_ok rc && ltb 0 (length packet))) [
          | inr idle ↦ ((r, w₁), rw idle refl)
          | inl busy ↦
              let (less, safe, honest) =
                q.taken w.net poll_buffer_size h
                  (and_left (is_ok rc) (ltb 0 (length packet)) busy) in
              let ((rc', r'', w''), one) = receive_packet-returns env r w₁ packet honest in
              let (kept, (safe', few)) =
                receive_packet-keeps (λ net. Honest net × (waiting net ≤ waiting net')) env r r'' w₁
                  w'' (some packet) rc' (rw e (q.sends (waiting net'))) (safe, omega arith) one in
              let (out, rest) =
                poll_loop-returns fuel env r'' w'' (kept ∙ e) safe' (omega (arith, few, less, l)) in
              (out, rw (busy, one) rest)
        ]

    poll-returns :
        (fuel : ℕ) (env : Env) (transport : Option (Transport T)) (r : Router S T U)
        (w : World S T U) (out : Router S T U × World S T U)
        → transport ≡ some t
        → poll_loop fuel env q.recv r w ≡ returned out
        → poll fuel env transport r w ≡ returned out
    unfolding poll
    poll-returns fuel env transport r w out e h = rw (e, q.has_recv) h

    -- With fuel for the packets that wait in a transport that holds finitely many, all honest about
    -- their length, `bc_router_tick` returns: its polling loop ends, and reads inside its buffer.
    pub tick_router-returns :
        (fuel : ℕ) (env : Env) (r : Router S T U) (w : World S T U)
        → r.transport ≡ some t
        → Honest w.net
        → waiting w.net < fuel
        → (out : Router S T U × World S T U) × (tick_router fuel env r w ≡ returned out)
    unfolding tick_router
    tick_router-returns fuel env r w e h l =
        let ((r', w'), polled) = poll_loop-returns fuel env (evict_seen env r) w e h l in
        let (r₃, w₃) = rebroadcast env r'.storage r' w' in
        (
          (r₃, record w₃ { store = evict_stored env r₃.storage w₃.store }),
          rw (poll-returns fuel env r.transport (evict_seen env r) w (r', w') e polled) refl,
        )
