-- ===== src/Tests/Apis.antt =====
-- The theorems on the API at concrete states.
use bit_chat.Prelude.{
  ◌++◌, ltb, if◌then◌else◌, length, arith, ℕ, ◌≡◌, refl, true, false, List, [], ◌∷◌, arith, none,
  some, replicate,
}
use bit_chat.Status.{ok}
use bit_chat.Message.{Message}
use bit_chat.Identity.{Identity}
use bit_chat.Crypto.{overwrite, encrypt, derive_shared}
use bit_chat.Router.{Router, broadcast_message}
use bit_chat.Dedup.{blank}
use bit_chat.Message as Message
use bit_chat.Message.Serialize.{serialize_into}
use bit_chat.Sqlite.{Row}
use bit_chat.Ffi.{Shared, State, keep_copy}
use bit_chat.Ffi.Ring.{IsInbox, queue, take_front, keep_copy-queue, poll_inbox-queue}
use bit_chat.Ffi.Api.{broadcast_made, send_plaintext, send_result}
use bit_chat.Ffi.Api as Api
use bit_chat.Crypto as Crypto
use bit_chat.Sqlite as Sqlite
use bit_chat.Ffi.Inbox.{read_message, poll_inbox}
use bit_chat.Ffi.Calls.{here, next, init, generate_identity, start_discovery}
use bit_chat.Ffi.Isolated.{HasNoPeers, Calls-HasNoPeers}
use bit_chat.Ffi.Sealed.{read_message-send_plaintext}
use bit_chat.Tests.Data.{alice, bob, memcmp, sample_env, sample_env-IsAmple, hello, hello-IsMessage}
use bit_chat.Tests.Toys.{toy_sodium, toy_sodium-IsSodium, toy_engine}

abbrev identity_of : List ℕ → Identity
identity_of key = record { pubkey = key; secret_key = key }

abbrev pub shared_of : List ℕ → Shared (List (List ℕ))
shared_of key = record {
  env = sample_env;
  identity = identity_of key;
  inbox = replicate 256 none;
  inbox_head = 0;
  inbox_tail = 0;
  user_callback = none;
  user = [];
}

-- The state of a program that starts.
abbrev started : State (List Row) (List (List ℕ))
started = record {
  initialized = false;
  mutex_initialized = false;
  transport = none;
  storage = none;
  router = none;
  discovery = none;
  world = record { store = []; net = tt; user = shared_of (replicate 32 0) };
}

abbrev opened : State (List Row) (List (List ℕ))
opened = (Api.init true toy_sodium toy_engine sample_env (some []) started).1

abbrev identified : State (List Row) (List (List ℕ))
identified = (Api.generate_identity toy_sodium sample_env none none opened).3

abbrev scanned : State (List Row) (List (List ℕ))
scanned = (Api.start_discovery sample_env identified).1

Calls-HasNoPeers_example : HasNoPeers scanned.router
Calls-HasNoPeers_example = Calls-HasNoPeers toy_sodium toy_engine started scanned refl (
    next
      (next (next here (init true sample_env (some []) refl))
        (generate_identity sample_env none none refl))
      (start_discovery sample_env refl))

-- A node that is ready to send.
abbrev pub sender_router : Router (List Row) (Unit {0}) (Shared (List (List ℕ)))
sender_router = record {
  transport = none;
  storage = none;
  config = record { fanout = 3; dedup_cap = 4; dedup_max_age = 600 };
  local_pubkey = alice;
  dedup_table = replicate 4 blank;
  dedup_cap = 4;
  peers = [];
  on_message = none;
  last_sf_tick = 0;
}

abbrev pub sender : State (List Row) (List (List ℕ))
sender = record started {
  initialized = true;
  router = some sender_router;
  world = record { store = []; net = tt; user = shared_of alice };
}

abbrev pub hi : List ℕ
hi = 104 ∷ (105 ∷ [])

abbrev sent : State (List Row) (List (List ℕ))
sent = (send_plaintext toy_sodium sample_env sender sender_router bob hi).1

sent_ok : send_plaintext toy_sodium sample_env sender sender_router bob hi ≡ (ok, sent)
unfolding send_plaintext send_result Message.create encrypt derive_shared toy_sodium
    broadcast_message serialize_into
sent_ok = refl

read_message-send_plaintext_example :
    (m : Message) × (broadcast_made sample_env sender sender_router (some m) ≡ (ok, sent))
    × (m.receiver_pubkey ≡ bob)
    × (read_message toy_sodium (shared_of bob) (replicate 5 0) none (some m)
        ≡ record { rc = ok; buf = overwrite hi (replicate 5 0); msg_len = 2; sender_pubkey = none })
unfolding toy_sodium
read_message-send_plaintext_example =
    read_message-send_plaintext toy_sodium-IsSodium sample_env (1 ∷ []) (2 ∷ []) sender sent
      sender_router (shared_of bob) hi (replicate 5 0) none refl refl refl (omega arith) sent_ok

shared_of-IsInbox : IsInbox (shared_of bob)
shared_of-IsInbox = record { sized = refl; head_inside = omega arith; tail_inside = omega arith }

keep_copy-queue_example :
    IsInbox (keep_copy (shared_of bob) hello)
    × (queue (keep_copy (shared_of bob) hello) ≡ (
        if ltb (length (queue (shared_of bob))) 255
        then queue (shared_of bob) ++ (some hello ∷ [])
        else queue (shared_of bob)))
keep_copy-queue_example =
    keep_copy-queue (shared_of bob) hello shared_of-IsInbox sample_env-IsAmple hello-IsMessage

poll_inbox-queue_example :
    let (p, s') = poll_inbox toy_sodium (keep_copy (shared_of bob) hello) (replicate 5 0) none in
    IsInbox s'
    × ((p, queue s')
        ≡ take_front toy_sodium
            (keep_copy (shared_of bob) hello)
            (replicate 5 0)
            none
            (queue (keep_copy (shared_of bob) hello)))
poll_inbox-queue_example =
    poll_inbox-queue toy_sodium (keep_copy (shared_of bob) hello) (replicate 5 0) none
      (keep_copy-queue (shared_of bob) hello shared_of-IsInbox sample_env-IsAmple hello-IsMessage).0
