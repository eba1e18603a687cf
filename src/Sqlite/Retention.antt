-- ===== src/Sqlite/Retention.antt =====
-- What is stored is found again until its retention ends, under the semantics of SQL.
use bit_chat.Prelude.{
  map, subst, ℕ, ◌+◌, ◌-◌, ◌%◌, ◌^◌, ◌≤◌, ◌<◌, ◌≡◌, ◌≢◌, refl, sym, ◌∙◌, true, List, [], ◌∷◌, some,
  arith, length, take-length,
}
use mathlib.Core.List.{Memᴰ}
use mathlib.Core.List.Memᴰ
use bit_chat.Status.{ok, Env, IsAmple}
use bit_chat.Message.{Message, IsMessage, uuid_size, pubkey_size}
use bit_chat.Sqlite.{
  read_blob, row_message, Engine, blob, integer, insert, get_pending, Row, bound_row, bindings,
  retention, store_message, get_pending_messages,
}
use bit_chat.Sqlite.Table.{IsEngine, max_blob, store_message_lem, done-inv, read_rows_lem}

-- The message as it comes back: stamped with the time at which it was stored.
abbrev pub restamped : ℕ → Message → Message
restamped now m = record m { timestamp = now }

read_blob-sized : (n : ℕ) (bs : List ℕ) → length bs ≡ n → 0 < n → read_blob n bs ≡ bs
read_blob-sized n [] h pos = absurd (omega (arith, h, pos))
read_blob-sized n (b ∷ bs) h pos = take-length (b ∷ bs) n h

-- A row gives back the message that was stored in it.
pub row_message-bound_row :
    (now : ℕ) (m : Message)
    → IsMessage m
    → now < 2 ^ 63
    → row_message (bound_row now m) ≡ restamped now m
row_message-bound_row now m v early =
    let back : (now + retention + 2 ^ 64 - retention) % 2 ^ 64 ≡ now = omega arith in
    let ttl : m.ttl % 256 ≡ m.ttl = let b = v.ttl_byte in omega (arith, b) in
    rw
      (
        back,
        ttl,
        read_blob-sized uuid_size m.uuid v.uuid_sized (omega arith),
        read_blob-sized pubkey_size m.sender_pubkey v.sender_sized (omega arith),
        read_blob-sized pubkey_size m.receiver_pubkey v.receiver_sized (omega arith),
      )
      refl

-- A message that is stored where no row has its UUID is among the pending messages of its receiver for
-- 72 hours, stamped with the time at which it was stored, and the call that reads them has success.
pub get_pending-store_message :
    {D : Type 0} (engine : Engine D) (table : D → List Row) (env env' : Env) (db db' : D)
    (m : Message)
    → IsEngine engine table
    → IsMessage m
    → length m.payload ≤ max_blob
    → IsAmple env'
    → env.now < 2 ^ 63
    → env'.now ≤ env.now + retention
    → ((r : Row) → Memᴰ r (table db) → r.uuid ≢ m.uuid)
    → store_message engine env db m ≡ (ok, db')
    → let (rc, ms, _) = get_pending_messages engine env' db' (some m.receiver_pubkey) in
      (rc ≡ ok) × Memᴰ (restamped env.now m) ms
unfolding get_pending_messages
get_pending-store_message engine table env env' db db' m laws v small ample early young new stored =
    let row = bound_row env.now m in
    let finished : engine.step db insert (bindings row) ≡ (true, db') =
      done-inv _ db' (sym (store_message_lem laws env db m small) ∙ stored) in
    let kept = laws.inserted db db' row new finished in
    let found = (laws.selected db' row m.receiver_pubkey env'.now).1 (kept, refl, young) in
    let rs = (engine.rows db' get_pending (blob m.receiver_pubkey ∷ (integer env'.now ∷ []))).0 in
    rw (read_rows_lem env' 0 0 rs ample) (
      refl,
      subst (λ m'. Memᴰ m' (map row_message rs)) (row_message-bound_row env.now m v early)
          (Memᴰ.map row_message found),
    )
