-- ===== src/Cli/Same.antt =====
-- What the command `/msg` of src/cli/main.c does with a key and a text, beside what
-- `bitchat_send_message` of src/bridge/bitchat_ffi.c does behind its guard.
use bit_chat.Prelude.{
  ℕ, ◌+◌, ◌*◌, ◌≤◌, ◌∷◌, take, drop, ltb-ge, ◌≡◌, refl, sym, ap, ◌∙◌, subst, Bool, true, false, not,
  ◌⊎◌, inl, inr, List, ◌++◌, Option, none, some, Bool-cases, length, replicate, if◌then◌else◌,
}
use bit_chat.Status.{is_ok, ok_of_is_ok, err_nomem, Status, ok, Env, bytes}
use bit_chat.Sodium.{Sodium}
use bit_chat.Message.{Message}
use bit_chat.Message as Message
use bit_chat.Identity.{Identity}
use bit_chat.Router.{Router}
use bit_chat.Crypto.{nonce_size, tag_size, content, encrypt}
use bit_chat.Ffi.{Shared, State, shared_key}
use bit_chat.Message.{pubkey_size}
use bit_chat.Cli.{hex_to_bytes}
use bit_chat.Ffi.Api.{send_message, send_with, shared, broadcast_made, send_plaintext, send_result}
use bit_chat.Ffi.Envelope.{IsSealed, calls-IsSealed}
use bit_chat.Cli.Command.{
  cmd_msg, skip_spaces, Cli, Output, printed, cast, msg_result, send_text, derive_error,
  encrypt_error, out_of_memory, create_error, message_sent,
}

-- The line that says that a message is sent.
unfoldable pub is_sent : Output → Bool
is_sent message_sent = true
is_sent _ = false

-- The returns of `bitchat_send_message`, `x` of an error.
abbrev chain : {X : Type 0} → (Status → X) → Status → Bool → Status → X → X
chain x derived granted sealed last =
    if not (is_ok derived)
    then x derived
    else if not granted
    then x err_nomem
    else if not (is_ok sealed)
    then x sealed
    else last

-- `/msg` has the same guards: both chains end with their last step, or both with an error.
guards-same :
    {X D K : Type 0} (x : Status → X) (last : X) (env : Env) (c : Cli D K) (derived : Status)
    (granted : Bool) (sealed : Status) (m : Option Message)
    → ((derived ≡ ok)
        × (sealed ≡ ok)
        × (chain x derived granted sealed last ≡ last)
        × (msg_result env c derived granted sealed m ≡ cast env c m))
      ⊎ ((rc : Status) × (line : Output) × (is_ok rc ≡ false)
          × (is_sent line ≡ false)
          × (chain x derived granted sealed last ≡ x rc)
          × (msg_result env c derived granted sealed m ≡ printed c line))
unfolding is_sent msg_result
guards-same x last env c derived granted sealed m = elim (Bool-cases (is_ok derived)) [
  | inr bad ↦ inr (derived, derive_error derived, bad, refl, rw bad refl, rw bad refl)
  | inl good ↦ elim (Bool-cases granted) [
    | inr denied ↦
        inr (err_nomem, out_of_memory, refl, refl, rw (good, denied) refl, rw (good, denied) refl)
    | inl given ↦ elim (Bool-cases (is_ok sealed)) [
      | inr bad ↦ inr (
        sealed,
        encrypt_error sealed,
        bad,
        refl,
        rw (good, given, bad) refl,
        rw (good, given, bad) refl,
      )
      | inl fine ↦ inl (
        ok_of_is_ok derived good,
        ok_of_is_ok sealed fine,
        rw (good, given, fine) refl,
        rw (good, given, fine) refl,
      )
    ]
  ]
]

-- What `bc_message_create` gave, and what follows.
made-same :
    {X D K : Type 0} (x : Status → X) (last : Option Message → X) (env : Env) (c : Cli D K)
    (m : Option Message)
    → last none ≡ x err_nomem
    → ((m₀ : Message) × (m ≡ some m₀))
      ⊎ ((last m ≡ x err_nomem) × (cast env c m ≡ printed c create_error))
made-same x last env c none h = inr (h, refl)
made-same x last env c (some m) h = inl (m, refl)

module _ {X D K : Type 0} (x : Status → X) (last : Option Message → X) (env : Env) (c : Cli D K)
    (sodium : Sodium) (id : Identity) (recipient text : List ℕ) where
  -- The calls of `bitchat_send_message`.
  unfoldable pub called : X
  called =
      let ct_len = length text + tag_size in
      let (rc, key) = shared_key sodium id recipient in
      let (rc', ct, iv) =
        encrypt sodium env (some text) key (some (replicate ct_len 0))
          (some (replicate nonce_size 0)) in
      chain x rc (env.alloc (bytes (nonce_size + ct_len))) rc' (
        last
          (Message.create env (some id.pubkey) (some recipient) (some (content iv ++ content ct))))

  -- Both make one message and broadcast it, or both fail.
  unfoldable pub IsSame : Type 0
  IsSame =
      ((m : Message) × IsSealed sodium env id recipient text m
        × (called ≡ last (some m))
        × (send_text sodium env c recipient text ≡ cast env c (some m)))
      ⊎ ((rc : Status) × (line : Output) × (is_ok rc ≡ false)
          × (is_sent line ≡ false)
          × (called ≡ x rc)
          × (send_text sodium env c recipient text ≡ printed c line))

module _ {X D K : Type 0} (x : Status → X) (last : Option Message → X) (env : Env) (c : Cli D K)
    (sodium : Sodium) (recipient text : List ℕ) where
  pub calls-same :
      last none ≡ x err_nomem → IsSame x last env c sodium c.world.user.identity recipient text
  unfolding IsSame called send_text is_sent
  calls-same h =
      let id = c.world.user.identity in
      let ct_len = length text + tag_size in
      let (rc, key) = shared_key sodium id recipient in
      let (rc', ct, iv) =
        encrypt sodium env (some text) key (some (replicate ct_len 0))
          (some (replicate nonce_size 0)) in
      let m =
        Message.create env (some id.pubkey) (some recipient) (some (content iv ++ content ct)) in
      elim (guards-same x (last m) env c rc (env.alloc (bytes (nonce_size + ct_len))) rc' m) [
        | inr failed ↦ inr failed
        | inl (derived, sealed, by_api, told) ↦ elim (made-same x last env c m h) [
          | inr (by_api', told') ↦
              inr (err_nomem, create_error, refl, refl, by_api ∙ by_api', told ∙ told')
          | inl (m₀, made) ↦ inl (
            m₀,
            calls-IsSealed sodium env id recipient text m₀ derived sealed made,
            by_api ∙ ap last made,
            told ∙ ap (cast env c) made,
          )
        ]
      ]

guarded : {A : Type 0} {b : Bool} (x y : A) → b ≡ true → (if b then x else y) ≡ x
guarded x y e = rw e refl

module _ {D E K V : Type 0} (env : Env) (c : Cli D K) (g : State E V)
    (r : Router E (Unit {0}) (Shared V)) where
  send_text-send_plaintext :
      (sodium : Sodium) (recipient text : List ℕ)
      → c.world.user.identity ≡ (shared g).identity
      → ((m : Message) × IsSealed sodium env (shared g).identity recipient text m
          × (send_plaintext sodium env g r recipient text ≡ broadcast_made env g r (some m))
          × (send_text sodium env c recipient text ≡ cast env c (some m)))
        ⊎ ((rc : Status) × (line : Output) × (is_ok rc ≡ false)
            × (is_sent line ≡ false)
            × (send_plaintext sodium env g r recipient text ≡ (rc, g))
            × (send_text sodium env c recipient text ≡ printed c line))
  unfolding IsSame called send_plaintext send_result
  send_text-send_plaintext sodium recipient text same =
      subst (λ id. IsSame (λ rc. (rc, g)) (broadcast_made env g r) env c sodium id recipient text)
        same (calls-same (λ rc. (rc, g)) (broadcast_made env g r) env c sodium recipient text refl)

  -- What the two calls come to.
  abbrev Outcome : Sodium → List ℕ → List ℕ → Status × State E V → Cli D K → Type 0
  Outcome sodium recipient text by_api told =
      ((m : Message) × IsSealed sodium env (shared g).identity recipient text m
        × (by_api ≡ broadcast_made env g r (some m))
        × (told ≡ cast env c (some m)))
      ⊎ ((rc : Status) × (line : Output) × (is_ok rc ≡ false)
          × (is_sent line ≡ false)
          × (by_api ≡ (rc, g))
          × (told ≡ printed c line))

  send_message-guarded :
      (sodium : Sodium) (recipient text : List ℕ)
      → g.initialized ≡ true
      → g.router ≡ some r
      → send_message sodium env (some recipient) (some text) g
        ≡ send_plaintext sodium env g r recipient text
  unfolding send_message
  send_message-guarded sodium recipient text ready routed =
      ap (λ o. send_with sodium env o (some recipient) (some text) g) routed ∙ guarded _ _ ready

  cmd_msg-parsed :
      (sodium : Sodium) (args recipient text : List ℕ) (t : ℕ)
      → pubkey_size * 2 + 2 ≤ length args
      → hex_to_bytes (take (pubkey_size * 2) args) pubkey_size ≡ some recipient
      → skip_spaces (drop (pubkey_size * 2) args) ≡ t ∷ text
      → cmd_msg sodium env c args ≡ send_text sodium env c recipient (t ∷ text)
  unfolding cmd_msg
  cmd_msg-parsed sodium args recipient text t long key behind =
      rw (ltb-ge (length args) (pubkey_size * 2 + 2) long, key, behind) refl

  -- The command `/msg`, on a line of a valid key and a text that is not empty behind its leading spaces,
  -- and `bitchat_send_message`, initialized and with a router, on that key and that text: with the
  -- identity of the program they make the same message of the text, which holds it encrypted, and
  -- broadcast it; or both leave their router and its world as they are, the API with an error, and the
  -- command with a line that does not say the message is sent.
  pub cmd_msg-send_message :
      (sodium : Sodium) (args recipient text : List ℕ) (t : ℕ)
      → pubkey_size * 2 + 2 ≤ length args
      → hex_to_bytes (take (pubkey_size * 2) args) pubkey_size ≡ some recipient
      → skip_spaces (drop (pubkey_size * 2) args) ≡ t ∷ text
      → g.initialized ≡ true
      → g.router ≡ some r
      → c.world.user.identity ≡ (shared g).identity
      → ((m : Message) × IsSealed sodium env (shared g).identity recipient (t ∷ text) m
          × (send_message sodium env (some recipient) (some (t ∷ text)) g
              ≡ broadcast_made env g r (some m))
          × (cmd_msg sodium env c args ≡ cast env c (some m)))
        ⊎ ((rc : Status) × (line : Output) × (is_ok rc ≡ false)
            × (is_sent line ≡ false)
            × (send_message sodium env (some recipient) (some (t ∷ text)) g ≡ (rc, g))
            × (cmd_msg sodium env c args ≡ printed c line))
  cmd_msg-send_message sodium args recipient text t long key behind ready routed same =
      let by_api = send_message-guarded sodium recipient (t ∷ text) ready routed in
      let told = cmd_msg-parsed sodium args recipient text t long key behind in
      subst (λ a. Outcome sodium recipient (t ∷ text) a (cmd_msg sodium env c args)) (sym by_api)
        (subst
          (Outcome sodium recipient (t ∷ text) (send_plaintext sodium env g r recipient (t ∷ text)))
          (sym told) (send_text-send_plaintext sodium recipient (t ∷ text) same))
