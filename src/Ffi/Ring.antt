-- ===== src/Ffi/Ring.antt =====
-- The inbox ring is a queue of at most 255 messages: `on_message_received` enters at its end, and
-- `bitchat_poll_messages` takes from its front.
use bit_chat.Prelude.{
  ℕ, suc, ◌≤◌, ◌<◌, ◌≡◌, ◌≢◌, refl, ◌∙◌, inl, inr, List, [], ◌∷◌, ◌++◌, arith, Option, some, length,
  length-set, ltb, ◌==◌, if◌then◌else◌, Bool-cases, ==_iff, lt→ltb, ltb-ge,
}
use bit_chat.Status.{ok, IsAmple}
use bit_chat.Message.{Message, IsMessage}
use bit_chat.Sodium.{Sodium}
use bit_chat.Ffi.Inbox.{Polled, read_message, poll_inbox}
use bit_chat.Ffi.{Shared, next_index, inbox_size, keep_copy}
use bit_chat.Ffi.Slots.{
  length-read_ring, read_ring-zero, read_ring-front, read_ring-put, copy-made, read_ring, distance,
}

module _ {V : Type 0} where
  -- The ring has its length, and the indices are inside.
  pub record IsInbox (s : Shared V) : Type 0 where
    pub sized : length s.inbox ≡ inbox_size
    pub head_inside : s.inbox_head < inbox_size
    pub tail_inside : s.inbox_tail < inbox_size

  -- The messages that wait, the oldest first.
  abbrev pub queue : Shared V → List (Option Message)
  queue s = read_ring s.inbox s.inbox_tail (distance s.inbox_tail s.inbox_head)

  -- A message that is delivered, with memory for its copy, waits at the end of the inbox, if fewer than
  -- 255 messages wait there; else it is dropped. The ring keeps its length, and the indices stay inside.
  pub keep_copy-queue :
      (s : Shared V) (m : Message)
      → IsInbox s
      → IsAmple s.env
      → IsMessage m
      → IsInbox (keep_copy s m)
        × (queue (keep_copy s m)
            ≡ (if ltb (length (queue s)) 255 then queue s ++ (some m ∷ []) else queue s))
  unfolding keep_copy
  keep_copy-queue s m v ample vm =
      let d = distance s.inbox_tail s.inbox_head in
      let measured : length (queue s) ≡ d = length-read_ring s.inbox s.inbox_tail d in
      let head_in = v.head_inside in
      let tail_in = v.tail_inside in
      let (copy, made, same) = copy-made s.env m ample vm in
      elim (Bool-cases (next_index s.inbox_head == s.inbox_tail)) [
        | inl full ↦
            let met = (==_iff (next_index s.inbox_head) s.inbox_tail).0 full in
            let many : 255 ≤ length (queue s) = omega (arith, measured, met, head_in, tail_in) in
            rw (full, ltb-ge (length (queue s)) 255 many) (v, refl)
        | inr free ↦
            let apart : next_index s.inbox_head ≢ s.inbox_tail =
              λ e. cc (free, (==_iff (next_index s.inbox_head) s.inbox_tail).1 e) in
            let few : length (queue s) < 255 = omega (arith, measured, apart, head_in, tail_in) in
            rw (free, made, same, lt→ltb (length (queue s)) 255 few)
              (
                record {
                  sized = length-set s.inbox s.inbox_head (some m) ∙ v.sized;
                  head_inside = omega arith;
                  tail_inside = tail_in;
                },
                read_ring-put s.inbox s.inbox_tail s.inbox_head (some m) v.sized tail_in head_in
                    apart,
              )
      ]

  -- What a poll makes of the queue: its result, and what still waits.
  abbrev pub take_front :
      Sodium
      → Shared V
      → List ℕ
      → Option (List ℕ)
      → List (Option Message)
      → Polled × List (Option Message)
  take_front sodium s buf sender [] =
      (record { rc = ok; buf = buf; msg_len = 0; sender_pubkey = sender }, [])
  take_front sodium s buf sender (m ∷ ms) = (read_message sodium s buf sender m, ms)

  -- A poll of an inbox with its length, and its indices inside, reports no message where none waits;
  -- else it takes the oldest out, and its result is what that message gives. The ring keeps its length,
  -- and the indices stay inside.
  pub poll_inbox-queue :
      (sodium : Sodium) (s : Shared V) (buf : List ℕ) (sender : Option (List ℕ))
      → IsInbox s
      → let (p, s') = poll_inbox sodium s buf sender in
        IsInbox s' × ((p, queue s') ≡ take_front sodium s buf sender (queue s))
  unfolding poll_inbox
  poll_inbox-queue sodium s buf sender v =
      let head_in = v.head_inside in
      let tail_in = v.tail_inside in
      elim (Bool-cases (s.inbox_tail == s.inbox_head)) [
        | inl empty ↦
            let met = (==_iff s.inbox_tail s.inbox_head).0 empty in
            let none_left : distance s.inbox_tail s.inbox_head ≡ 0 = omega (arith, met, tail_in) in
            rw
              (
                empty,
                read_ring-zero s.inbox s.inbox_tail (distance s.inbox_tail s.inbox_head) none_left,
              )
              (v, refl)
        | inr waiting ↦
            let apart : s.inbox_tail ≢ s.inbox_head =
              λ e. cc (waiting, (==_iff s.inbox_tail s.inbox_head).1 e) in
            let one_less : distance s.inbox_tail s.inbox_head
                ≡ suc (distance (next_index s.inbox_tail) s.inbox_head) =
              omega (arith, apart, head_in, tail_in) in
            rw
              (
                waiting,
                read_ring-front s.inbox s.inbox_tail (distance s.inbox_tail s.inbox_head)
                    (distance (next_index s.inbox_tail) s.inbox_head) one_less,
              )
              (record { sized = v.sized; head_inside = head_in; tail_inside = omega arith }, refl)
      ]
