-- ===== src/Tests/Adapters.antt =====
-- The theorems on discovery, identity, encryption, storage, the simulation and the CLI at concrete
-- inputs.
use bit_chat.Prelude.{◌≡◌, ◌≢◌, ◌↔◌, refl, List, [], ◌∷◌, ◌++◌, arith, Option, none, some}
use mathlib.Core.List.{Memᴰ}
use mathlib.Core.List.Memᴰ
use bit_chat.Status.{ok}
use bit_chat.Message.{Message}
use bit_chat.Peer.{Peer}
use bit_chat.Discovery.{scan_all}
use bit_chat.Discovery.Scan.{IsScan, scan_all-IsScan}
use bit_chat.Sqlite.{
  Row, store_message, get_pending_messages, delete_message, evict_expired, row_message, bound_row,
}
use bit_chat.Sqlite.Pending.{
  IsPending, get_pending_messages-IsPending, get_pending_messages-delete_message,
}
use bit_chat.Sqlite.Retention.{restamped}
use bit_chat.Tests.Data.{
  bob, carol, hello, hello-IsMessage, sample_env, later_env, later_env-IsAmple, memcmp,
}
use bit_chat.Store.{save, cleanup, get_for_peer}
use bit_chat.Store.Retained.{store_of, get_for_peer-save}
use bit_chat.Tests.Routers.{peer_of}
use bit_chat.Tests.Toys.{toy_engine, toy_engine-IsEngine}

-- The user's data are the peers that were announced.
abbrev announce : Option (Peer → List Peer → List Peer)
announce = some (λ p seen. seen ++ (p ∷ []))

scan_all-IsScan_example :
    IsScan announce (peer_of bob ∷ (peer_of carol ∷ (peer_of carol ∷ []))) (peer_of bob ∷ []) [] (
      scan_all sample_env announce
        (peer_of bob ∷ (peer_of carol ∷ (peer_of carol ∷ [])))
        (peer_of bob ∷ [])
        [])
scan_all-IsScan_example =
    scan_all-IsScan sample_env announce (peer_of bob ∷ (peer_of carol ∷ (peer_of carol ∷ [])))
      (peer_of bob ∷ []) [] (tt, tt) (omega arith)

-- A database with one message.
abbrev one_row : List Row
one_row = bound_row 1000 hello ∷ []

get_pending_messages-IsPending_example :
    let (rc, ms, _) = get_pending_messages toy_engine later_env one_row none in
    (rc ≡ ok)
    × ((m : Message)
        → Memᴰ m ms ↔ ((r : Row) × IsPending one_row 5000 none r × (row_message r ≡ m)))
get_pending_messages-IsPending_example =
    get_pending_messages-IsPending toy_engine-IsEngine later_env one_row none later_env-IsAmple

get_pending_messages-delete_message_example :
    let (rc, ms, _) =
      get_pending_messages toy_engine later_env
        (delete_message toy_engine sample_env one_row hello.uuid).1
        none in
    (rc ≡ ok)
    × ((m : Message)
        → Memᴰ m ms ↔ (
            (r : Row) × IsPending one_row 5000 none r
            × (r.uuid ≢ hello.uuid)
            × (row_message r ≡ m)))
unfolding toy_engine delete_message
get_pending_messages-delete_message_example =
    get_pending_messages-delete_message toy_engine-IsEngine sample_env later_env one_row
      (delete_message toy_engine sample_env one_row hello.uuid).1 hello.uuid none later_env-IsAmple
      refl

get_for_peer-save_example :
    let store = store_of toy_engine 60 in
    let db = (cleanup sample_env (some store) (save sample_env (some store) [] (some hello)).1).1 in
    let (rc, msgs, _) = get_for_peer later_env (some store) db (some bob) (some []) in
    (rc ≡ ok) × (ms : List Message) × (msgs ≡ some ms) × Memᴰ (restamped 1000 hello) ms
unfolding toy_engine store_message evict_expired save cleanup
get_for_peer-save_example =
    let store = store_of toy_engine 60 in
    let db = (save sample_env (some store) [] (some hello)).1 in
    get_for_peer-save toy_engine (λ db. db) sample_env sample_env later_env 60 [] db
      (cleanup sample_env (some store) db).1 hello [] toy_engine-IsEngine hello-IsMessage
      (omega arith) later_env-IsAmple (omega arith) (omega arith) (omega arith)
      (λ r mem. absurd (Memᴰ.not-nil mem)) refl refl
