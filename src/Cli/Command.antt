-- ===== src/Cli/Command.antt =====
-- src/cli/main.c: what the program prints, its message callback, and its commands. The text that is
-- printed is a list of outputs, the latest last.
use bit_chat.Prelude.{
  ℕ, ◌+◌, ◌-◌, ◌*◌, Bool, not, List, [], ◌∷◌, ◌++◌, Option, none, some, ltb, ◌==◌, if◌then◌else◌,
  length, take, drop, replicate,
}
use bit_chat.Status.{Status, is_ok, Env, bytes}
use bit_chat.Sodium.{Sodium}
use bit_chat.Message.{Message, pubkey_size}
use bit_chat.Message as Message
use bit_chat.Identity.{Identity}
use bit_chat.Crypto.{nonce_size, tag_size, content, derive_shared, encrypt, decrypt}
use bit_chat.Peer.{Peer}
use bit_chat.Udp.{Udp}
use bit_chat.Router.{Router, World, broadcast_message}
use bit_chat.Cli.{bytes_to_hex, hex_to_bytes}

-- The lines that the program prints.
pub data Output : Type 0 where
  incoming : List ℕ → List ℕ → Output
  peer_line : ℕ → List ℕ → Output
  public_key : List ℕ → Output
  decrypt_warning derive_error encrypt_error broadcast_error : Status → Output
  no_peers usage invalid_key empty_text out_of_memory create_error : Output
  message_sent unknown_command : Output
  -- the port, the public key, the two files, and how many peers were found
  banner : ℕ → List ℕ → List ℕ → List ℕ → ℕ → Output

-- What the callback reads and writes: `g_identity` and the terminal; `env` is the environment of the
-- call under way.
pub record Terminal : Type 0 where
  pub env : Env
  pub identity : Identity
  pub output : List Output

-- The globals of the program: `g_router` with its two adapters, and `g_running`.
pub record Cli (D K : Type 0) : Type 0 where
  pub router : Router D (Udp K) Terminal
  pub world : World D (Udp K) Terminal
  pub is_running : Bool

abbrev pub print : Output → Terminal → Terminal
print line t = record t { output = t.output ++ (line ∷ []) }

-- The bytes that `%s` prints, up to the first NUL.
unfoldable pub c_string : List ℕ → List ℕ
c_string [] = []
c_string (c ∷ cs) = let rest = c_string cs in if c == 0 then [] else c ∷ rest

-- The last part of the callback: the text, or a warning.
abbrev pub show_text : List ℕ → ℕ → Status × Option (List ℕ) → Terminal → Terminal
show_text sender pt_len (rc, plaintext) t =
    if is_ok rc
    then print (incoming (bytes_to_hex sender) (c_string (take pt_len (content plaintext)))) t
    else print (decrypt_warning rc) t

-- `on_message_received`
unfoldable pub on_message_received : Sodium → Message → Terminal → Terminal
on_message_received sodium m t =
    let (rc, key) =
      derive_shared sodium (some t.identity.secret_key) (some m.sender_pubkey)
        (some (replicate 32 0)) in
    let ct = drop nonce_size m.payload in
    let pt_len = length ct - tag_size in
    let plain =
      decrypt sodium (some ct) key (some (take nonce_size m.payload))
        (some (replicate (pt_len + 1) 0)) in
    if ltb (length m.payload) (nonce_size + tag_size)
    then t
    else if not (is_ok rc)
    then t
    else if not (t.env.alloc (bytes (pt_len + 1)))
    then t
    else show_text m.sender_pubkey pt_len plain t

-- The loop of `cmd_peers`.
unfoldable pub print_peers : ℕ → List Peer → Terminal → Terminal
print_peers i [] t = t
print_peers i (p ∷ ps) t = print_peers (i + 1) ps (print (peer_line i (bytes_to_hex p.pubkey)) t)

-- `while (*text == ' ') text++`
unfoldable pub skip_spaces : List ℕ → List ℕ
skip_spaces [] = []
skip_spaces (c ∷ cs) = let rest = skip_spaces cs in if c == b' ' then rest else c ∷ cs

module _ {D K : Type 0} where
  abbrev pub printed : Cli D K → Output → Cli D K
  printed c line = record c { world = record c.world { user = print line c.world.user } }

  -- `cmd_info`
  unfoldable pub cmd_info : Cli D K → Cli D K
  cmd_info c = printed c (public_key (bytes_to_hex c.world.user.identity.pubkey))

  -- `cmd_peers`
  unfoldable pub cmd_peers : Cli D K → Cli D K
  cmd_peers c =
      if length c.router.peers == 0
      then printed c no_peers
      else record c { world = record c.world { user = print_peers 0 c.router.peers c.world.user } }

  -- The end of `cmd_msg`, on the result of the broadcast.
  abbrev pub report_sent :
      Cli D K → Status × Router D (Udp K) Terminal × World D (Udp K) Terminal → Cli D K
  report_sent c (rc, r, w) =
      printed (record c { router = r; world = w })
        (if is_ok rc then message_sent else broadcast_error rc)

  -- The broadcast in `cmd_msg`, of what `bc_message_create` gave.
  abbrev pub cast : Env → Cli D K → Option Message → Cli D K
  cast env c none = printed c create_error
  cast env c (some m) = report_sent c (broadcast_message env c.router c.world m)

  -- The returns of `cmd_msg`, on the results of its calls.
  unfoldable pub msg_result : Env → Cli D K → Status → Bool → Status → Option Message → Cli D K
  msg_result env c derived granted sealed m =
      if not (is_ok derived)
      then printed c (derive_error derived)
      else if not granted
      then printed c out_of_memory
      else if not (is_ok sealed)
      then printed c (encrypt_error sealed)
      else cast env c m

  -- `cmd_msg`, from the key derivation on.
  unfoldable pub send_text : Sodium → Env → Cli D K → List ℕ → List ℕ → Cli D K
  send_text sodium env c recipient text =
      let id = c.world.user.identity in
      let (rc, key) =
        derive_shared sodium (some id.secret_key) (some recipient) (some (replicate 32 0)) in
      let ct_len = length text + tag_size in
      let (rc', ct, iv) =
        encrypt sodium env (some text) key (some (replicate ct_len 0))
          (some (replicate nonce_size 0)) in
      let m =
        Message.create env (some id.pubkey) (some recipient) (some (content iv ++ content ct)) in
      msg_result env c rc (env.alloc (bytes (nonce_size + ct_len))) rc' m

  -- `cmd_msg`, on the recipient's key and the text.
  abbrev pub msg_to : Sodium → Env → Cli D K → Option (List ℕ) → List ℕ → Cli D K
  msg_to sodium env c none text = printed c invalid_key
  msg_to sodium env c (some recipient) [] = printed c empty_text
  msg_to sodium env c (some recipient) (t ∷ ts) = send_text sodium env c recipient (t ∷ ts)

  -- `cmd_msg`, whose argument is never NULL.
  unfoldable pub cmd_msg : Sodium → Env → Cli D K → List ℕ → Cli D K
  cmd_msg sodium env c args =
      let hex = take (pubkey_size * 2) args in
      let text = skip_spaces (drop (pubkey_size * 2) args) in
      if ltb (length args) (pubkey_size * 2 + 2)
      then printed c usage
      else msg_to sodium env c (hex_to_bytes hex pubkey_size) text
