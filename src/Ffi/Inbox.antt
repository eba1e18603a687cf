-- ===== src/Ffi/Inbox.antt =====
-- src/bridge/bitchat_ffi.c, `bitchat_poll_messages`: the oldest message of the inbox is taken out and
-- decrypted.
use bit_chat.Prelude.{
  ℕ, ◌++◌, Bool, not, List, Option, none, some, ltb, ◌==◌, if◌then◌else◌, length, drop, get_or,
}
use bit_chat.Status.{Status, ok, err_invalid, err_buffer_too_small, is_ok}
use bit_chat.Sodium.{Sodium}
use bit_chat.Message.{Message}
use bit_chat.Ffi.{Shared, next_index, plain_length, is_short, shared_key, decrypt_payload}

-- The status, `buf`, `*msg_len` and `sender_pubkey_out`, as the call leaves them.
pub record Polled : Type 0 where
  pub rc : Status
  pub buf : List ℕ
  pub msg_len : ℕ
  pub sender_pubkey : Option (List ℕ)

-- `if (sender_pubkey_out) memcpy(…)`
abbrev pub sender_out : Option (List ℕ) → List ℕ → Option (List ℕ)
sender_out none key = none
sender_out (some out) key = some (key ++ drop (length key) out)

-- The buffer after a call of `bc_crypto_decrypt`.
abbrev pub buf_out : List ℕ → Option (List ℕ) → List ℕ
buf_out buf none = buf
buf_out buf (some out) = out

module _ {V : Type 0} where
  -- What `bitchat_poll_messages` makes of the message that it takes out.
  unfoldable pub read_message :
      Sodium → Shared V → List ℕ → Option (List ℕ) → Option Message → Polled
  read_message sodium s buf sender none = record {
    rc = ok;
    buf = buf;
    msg_len = 0;
    sender_pubkey = sender;
  }
  read_message sodium s buf sender (some m) =
      let (rc, key) = shared_key sodium s.identity m.sender_pubkey in
      let (rc', out) = decrypt_payload sodium key m buf in
      if is_short m
      then record { rc = ok; buf = buf; msg_len = 0; sender_pubkey = sender }
      else if not (is_ok rc)
      then record { rc = rc; buf = buf; msg_len = 0; sender_pubkey = sender }
      else if ltb (length buf) (plain_length m)
      then record {
        rc = err_buffer_too_small;
        buf = buf;
        msg_len = plain_length m;
        sender_pubkey = sender;
      }
      else if is_ok rc'
      then record {
        rc = rc';
        buf = buf_out buf out;
        msg_len = plain_length m;
        sender_pubkey = sender_out sender m.sender_pubkey;
      }
      else record { rc = rc'; buf = buf_out buf out; msg_len = 0; sender_pubkey = sender }

  -- `bitchat_poll_messages`, for a state that is initialized and pointers that are there.
  unfoldable pub poll_inbox : Sodium → Shared V → List ℕ → Option (List ℕ) → Polled × Shared V
  poll_inbox sodium s buf sender =
      let taken = record s { inbox_tail = next_index s.inbox_tail } in
      if s.inbox_tail == s.inbox_head
      then (record { rc = ok; buf = buf; msg_len = 0; sender_pubkey = sender }, s)
      else (read_message sodium s buf sender (get_or s.inbox s.inbox_tail none), taken)

  -- `bitchat_poll_messages`; the flag is `g_state.initialized`. Where a pointer is NULL, no output is
  -- written.
  unfoldable pub poll_messages :
      Bool
      → Sodium
      → Shared V
      → Option (List ℕ)
      → Option ℕ
      → Option (List ℕ)
      → Status × Option Polled × Shared V
  poll_messages initialized sodium s (some buf) (some msg_len) sender =
      let (p, s') = poll_inbox sodium s buf sender in
      if initialized then (p.rc, some p, s') else (err_invalid, none, s)
  poll_messages initialized sodium s buf msg_len sender = (err_invalid, none, s)
