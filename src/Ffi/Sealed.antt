-- ===== src/Ffi/Sealed.antt =====
-- A text that one node sends is what the node of its receiver reads.
use bit_chat.Prelude.{
  ℕ, ◌+◌, ◌≤◌, ◌≡◌, refl, ap, Bool, false, inl, inr, List, ◌++◌, arith, Option, none, some,
  Bool-cases, not, length, replicate, ltb-ge, if◌then◌else◌, ltb,
}
use bit_chat.Status.{is_ok, ok_of_is_ok, err_nomem, Status, ok, Env, bytes}
use bit_chat.Sodium.{Sodium, IsSodium}
use bit_chat.Message.{Message, pubkey_size}
use bit_chat.Message as Message
use bit_chat.Identity.{Identity}
use bit_chat.Router.{Router}
use bit_chat.Crypto.{nonce_size, tag_size, content, encrypt, overwrite}
use bit_chat.Ffi.{Shared, State, shared_key, plain_length, is_short}
use bit_chat.Ffi.Api.{shared, broadcast_made, send_plaintext, send_result}
use bit_chat.Ffi.Inbox.{read_message, sender_out}
use bit_chat.Ffi.Envelope.{IsGenerated, IsSealed, IsOpened, calls-IsSealed, IsSealed-IsOpened}

-- A chain of guards that ends with success was passed as a whole.
guards-ok :
    {X : Type 0} (derived : Status) (granted : Bool) (sealed : Status) (g g' : X)
    (last : Status × X)
    → (if not (is_ok derived)
        then (derived, g)
        else if not granted
        then (err_nomem, g)
        else if not (is_ok sealed)
        then (sealed, g)
        else last)
      ≡ (ok, g')
    → (derived ≡ ok) × (sealed ≡ ok) × (last ≡ (ok, g'))
guards-ok derived granted sealed g g' last h = elim (Bool-cases (is_ok derived)) [
  | inr bad ↦ cc (ap (λ p. is_ok p.0) (rw bad at h), bad)
  | inl good ↦ elim (Bool-cases granted) [
    | inr denied ↦ cc (ap (λ p. p.0) (rw (good, denied) at h))
    | inl given ↦ elim (Bool-cases (is_ok sealed)) [
      | inr bad ↦ cc (ap (λ p. is_ok p.0) (rw (good, given, bad) at h), bad)
      | inl fine ↦ (ok_of_is_ok derived good, ok_of_is_ok sealed fine, rw (good, given, fine) at h)
    ]
  ]
]

module _ {D V : Type 0} (env : Env) (g g' : State D V) (r : Router D (Unit {0}) (Shared V)) where
  broadcast_made-ok :
      (m : Option Message)
      → broadcast_made env g r m ≡ (ok, g')
      → (m₀ : Message) × (m ≡ some m₀) × (broadcast_made env g r (some m₀) ≡ (ok, g'))
  broadcast_made-ok none h = cc (ap (λ p. p.0) h)
  broadcast_made-ok (some m) h = (m, refl, h)

  -- `bitchat_send_message` has success only where all of its calls have.
  send_result-ok :
      (derived : Status) (granted : Bool) (sealed : Status) (m : Option Message)
      → send_result env g r derived granted sealed m ≡ (ok, g')
      → (derived ≡ ok)
        × (sealed ≡ ok)
        × (m₀ : Message) × (m ≡ some m₀)
        × (broadcast_made env g r (some m₀) ≡ (ok, g'))
  unfolding send_result
  send_result-ok derived granted sealed m h =
      let (good, fine, last) = guards-ok derived granted sealed g g' (broadcast_made env g r m) h in
      let (m₀, made, cast) = broadcast_made-ok m last in (good, fine, m₀, made, cast)

module _ {V : Type 0} {sodium : Sodium} (laws : IsSodium sodium) where
  -- What `bitchat_poll_messages` makes of a message that opens.
  pub read_message-IsOpened :
      (a : Identity) (s : Shared V) (m : Message) (text buf : List ℕ) (sender : Option (List ℕ))
      → IsOpened sodium a s.identity text m
      → length text ≤ length buf
      → read_message sodium s buf sender (some m) ≡ record {
        rc = ok;
        buf = overwrite text buf;
        msg_len = length text;
        sender_pubkey = sender_out sender a.pubkey;
      }
  unfolding read_message
  read_message-IsOpened a s m text buf sender h room =
      let total = h.sized in
      let plain : plain_length m ≡ length text = omega (arith, total) in
      let long_enough : is_short m ≡ false =
        ltb-ge (length m.payload) (nonce_size + tag_size) (omega (arith, total)) in
      let fits : ltb (length buf) (plain_length m) ≡ false =
        ltb-ge (length buf) (plain_length m) (omega (arith, plain, room)) in
      rw (h.derived, h.opened buf, long_enough, fits, plain, h.from) refl

  -- What a successful `bitchat_send_message` broadcast: the encrypted text, under the sender's key.
  send_plaintext-IsSealed :
      {D : Type 0} (env : Env) (g g' : State D V) (r : Router D (Unit {0}) (Shared V))
      (recipient text : List ℕ)
      → send_plaintext sodium env g r recipient text ≡ (ok, g')
      → (m : Message) × IsSealed sodium env (shared g).identity recipient text m
        × (broadcast_made env g r (some m) ≡ (ok, g'))
  unfolding send_plaintext
  send_plaintext-IsSealed env g g' r recipient text h =
      let id = (shared g).identity in
      let ct_len = length text + tag_size in
      let (rc, key) = shared_key sodium id recipient in
      let (rc', ct, iv) =
        encrypt sodium env (some text) key (some (replicate ct_len 0))
          (some (replicate nonce_size 0)) in
      let (derived, sealed, m, made, cast) =
        send_result-ok env g g' r rc (env.alloc (bytes (nonce_size + ct_len))) rc'
          (Message.create env (some id.pubkey) (some recipient) (some (content iv ++ content ct)))
          h in
      (m, calls-IsSealed sodium env id recipient text m derived sealed made, cast)

  -- A text that `bitchat_send_message` sends with success, between two keypairs of libsodium, is
  -- broadcast in a message to the receiver's key which `bitchat_poll_messages` of the receiver turns
  -- into the text again, at the front of a buffer that has room for it, with its length and its sender.
  pub read_message-send_plaintext :
      {D : Type 0} (env : Env) (seed seed' : List ℕ) (g g' : State D V)
      (r : Router D (Unit {0}) (Shared V)) (s : Shared V) (text buf : List ℕ)
      (sender : Option (List ℕ))
      → IsGenerated sodium seed (shared g).identity
      → IsGenerated sodium seed' s.identity
      → length (env.random nonce_size) ≡ nonce_size
      → length text ≤ length buf
      → send_plaintext sodium env g r s.identity.pubkey text ≡ (ok, g')
      → (m : Message) × (broadcast_made env g r (some m) ≡ (ok, g'))
        × (m.receiver_pubkey ≡ s.identity.pubkey)
        × (read_message sodium s buf sender (some m) ≡ record {
          rc = ok;
          buf = overwrite text buf;
          msg_len = length text;
          sender_pubkey = sender_out sender (shared g).identity.pubkey;
        })
  read_message-send_plaintext env seed seed' g g' r s text buf sender ha hb sized room sent =
      let a = (shared g).identity in
      let (m, sealed, cast) = send_plaintext-IsSealed env g g' r s.identity.pubkey text sent in
      let opened = IsSealed-IsOpened laws env seed seed' a s.identity text m ha hb sized sealed in
      (m, cast, opened.to, read_message-IsOpened a s m text buf sender opened room)
