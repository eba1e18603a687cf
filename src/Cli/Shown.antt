-- ===== src/Cli/Shown.antt =====
-- A text that one program sends with `/msg` is the text that the callback of another prints.
use bit_chat.Prelude.{
  ℕ, ◌+◌, ◌-◌, ◌≡◌, refl, sym, ap, ◌∙◌, true, false, inl, inr, List, [], ◌∷◌, ◌++◌, arith, Option,
  none, some, Bool-cases, length, replicate, drop, ltb, ltb-ge, length-drop, take-append_of_length,
  if◌then◌else◌,
}
use bit_chat.Status.{is_ok, ok_of_is_ok, err_nomem, Status, ok, Env, bytes}
use bit_chat.Sodium.{Sodium, IsSodium}
use bit_chat.Message.{Message}
use bit_chat.Identity.{Identity}
use bit_chat.Router.{broadcast_message}
use bit_chat.Crypto.{nonce_size, tag_size}
use bit_chat.Ffi.Envelope.{IsGenerated, IsSealed, IsOpened, IsSealed-IsOpened}
use bit_chat.Cli.{bytes_to_hex}
use bit_chat.Cli.Command.{
  Cli, Output, Terminal, print, cast, send_text, on_message_received, c_string, incoming,
  message_sent, broadcast_error,
}
use bit_chat.Cli.Same.{IsSame, is_sent, calls-same}

-- The last line that is printed.
unfoldable pub last_line : List Output → Option Output
last_line [] = none
last_line (line ∷ []) = some line
last_line (line ∷ (next ∷ lines)) = last_line (next ∷ lines)

last_line-append :
    (lines : List Output) (line : Output) → last_line (lines ++ (line ∷ [])) ≡ some line
unfolding last_line
last_line-append [] line = refl
last_line-append (o ∷ []) line = refl
last_line-append (o ∷ (p ∷ lines)) line = last_line-append (p ∷ lines) line

is_sent-last_line :
    (lines : List Output) (line : Output)
    → last_line (lines ++ (line ∷ [])) ≡ some message_sent
    → is_sent line ≡ true
unfolding is_sent
is_sent-last_line lines line h =
    let e : some line ≡ some message_sent = sym (last_line-append lines line) ∙ h in
    let e' : line ≡ message_sent = cc in rw e' refl

-- The line behind the broadcast.
is_ok-is_sent :
    (rc : Status) → is_sent (if is_ok rc then message_sent else broadcast_error rc) ≡ true → rc ≡ ok
unfolding is_sent
is_ok-is_sent rc h = elim (Bool-cases (is_ok rc)) [
  | inl good ↦ ok_of_is_ok rc good
  | inr bad ↦ cc (rw bad at h)
]

module _ {D K : Type 0} (sodium : Sodium) (env : Env) (c : Cli D K) (recipient text : List ℕ) where
  -- Where the program says that a message is sent, a sealed message was broadcast.
  pub send_text-inv :
      last_line (send_text sodium env c recipient text).world.user.output ≡ some message_sent
      → (m : Message) × IsSealed sodium env c.world.user.identity recipient text m
        × ((broadcast_message env c.router c.world m).0 ≡ ok)
        × (send_text sodium env c recipient text ≡ cast env c (some m))
  unfolding IsSame
  send_text-inv h = elim (calls-same (λ rc. rc) (λ m. err_nomem) env c sodium recipient text refl) [
    | inr (rc, line, bad, silent, by_api, told) ↦ cc (
      is_sent-last_line c.world.user.output line
          (sym (ap (λ c'. last_line c'.world.user.output) told) ∙ h),
      silent,
    )
    | inl (m, sealed, by_api, told) ↦
        let (rc, r, w) = broadcast_message env c.router c.world m in
        (
          m,
          sealed,
          is_ok-is_sent rc (
              is_sent-last_line w.user.output _
                (sym (ap (λ c'. last_line c'.world.user.output) told) ∙ h)),
          told,
        )
  ]

-- The callback prints the text of a message that opens.
pub on_message_received-IsOpened :
    (sodium : Sodium) (a : Identity) (t : Terminal) (text : List ℕ) (m : Message)
    → IsOpened sodium a t.identity text m
    → t.env.alloc (bytes (length text + 1)) ≡ true
    → on_message_received sodium m t ≡ print (incoming (bytes_to_hex a.pubkey) (c_string text)) t
unfolding on_message_received
on_message_received-IsOpened sodium a t text m h granted =
    let total = h.sized in
    let plain : length (drop nonce_size m.payload) - tag_size ≡ length text =
      omega (arith, total, length-drop nonce_size m.payload) in
    let long_enough : ltb (length m.payload) (nonce_size + tag_size) ≡ false =
      ltb-ge (length m.payload) (nonce_size + tag_size) (omega (arith, total)) in
    rw
      (
        h.derived,
        plain,
        h.opened (replicate (length text + 1) 0),
        long_enough,
        granted,
        h.from,
        take-append_of_length (length text) text
            (drop (length text) (replicate (length text + 1) 0)) refl,
      )
      refl

module _ {sodium : Sodium} (laws : IsSodium sodium) where
  -- Where the program says last that a message is sent, for a text that is sent between two keypairs
  -- of libsodium with a nonce of 24 bytes, the router broadcast with success a message to the
  -- receiver's key for which the callback of the receiver prints the text, up to its first NUL, with
  -- the sender's key, where it has memory for the text.
  on_message_received-send_text :
      {D K : Type 0} (env : Env) (seed seed' : List ℕ) (c : Cli D K) (t : Terminal) (text : List ℕ)
      → IsGenerated sodium seed c.world.user.identity
      → IsGenerated sodium seed' t.identity
      → length (env.random nonce_size) ≡ nonce_size
      → t.env.alloc (bytes (length text + 1)) ≡ true
      → last_line (send_text sodium env c t.identity.pubkey text).world.user.output
        ≡ some message_sent
      → (m : Message) × ((broadcast_message env c.router c.world m).0 ≡ ok)
        × (send_text sodium env c t.identity.pubkey text ≡ cast env c (some m))
        × (m.receiver_pubkey ≡ t.identity.pubkey)
        × (on_message_received sodium m t
            ≡ print (incoming (bytes_to_hex c.world.user.identity.pubkey) (c_string text)) t)
  on_message_received-send_text env seed seed' c t text ha hb sized granted sent =
      let (m, sealed, done, told) = send_text-inv sodium env c t.identity.pubkey text sent in
      let opened =
        IsSealed-IsOpened laws env seed seed' c.world.user.identity t.identity text m ha hb sized
          sealed in
      (
        m,
        done,
        told,
        opened.to,
        on_message_received-IsOpened sodium c.world.user.identity t text m opened granted,
      )
