-- ===== src/Jni/Calls.antt =====
-- src/bridge/bitchat_jni.c: the methods of BitChatCore, on top of the API. What the user's callback of
-- the API changes is the bridge. A fresh buffer on the stack is written before it is read.
use bit_chat.Prelude.{
  ℕ, ◌+◌, Bool, not, ◌||◌, List, Option, none, some, ltb, ◌==◌, take, replicate, if◌then◌else◌,
}
use bit_chat.Status.{Status, err_invalid, is_ok, Env, Run}
use bit_chat.Sodium.{Sodium, Memcmp}
use bit_chat.Crypto.{content}
use bit_chat.Sqlite.{Engine}
use bit_chat.Ffi.{State}
use bit_chat.Ffi.Api as Api
use bit_chat.Ffi.Api.{shared, with_shared}
use bit_chat.Ffi.Inbox.{Polled, poll_messages}
use bit_chat.Jni.{Jvm, Bridge, to_jsize, jni_on_message_callback, release_listener, set_listener}

module _ {D J R M : Type 0} where
  abbrev pub bridge : State D (Bridge J R M) → Bridge J R M
  bridge g = (shared g).user

  abbrev pub with_bridge : State D (Bridge J R M) → Bridge J R M → State D (Bridge J R M)
  with_bridge g b = with_shared g (record (shared g) { user = b })

  -- The state with another state of the VM.
  abbrev pub with_vm : State D (Bridge J R M) → J → State D (Bridge J R M)
  with_vm g vm = with_bridge g (record (bridge g) { vm = vm })

module _ {J R M : Type 0} (jvm : Jvm J R M) where
  -- The two parts of an array of bytes, the second at offset 32.
  abbrev pub fill : Option R → List ℕ → List ℕ → J → J
  fill none first second vm = vm
  fill (some result) first second vm =
      jvm.set_byte_array_region (jvm.set_byte_array_region vm result 0 first) result 32 second

  -- `if (elements) ReleaseByteArrayElements(…)`
  abbrev release : R → Option (List ℕ) → J → J
  release array none vm = vm
  release array (some elements) vm = jvm.release_byte_array_elements vm array

  -- `listener ? jni_on_message_callback : NULL`
  abbrev listener_callback : Option R → Option (List ℕ → List ℕ → Bridge J R M → Bridge J R M)
  listener_callback none = none
  listener_callback (some listener) = some (jni_on_message_callback jvm)

module _ {D J R M : Type 0} (jvm : Jvm J R M) where
  -- `init`, on the characters of the path.
  abbrev init_chars :
      Bool
      → Sodium
      → Engine D
      → Env
      → R
      → Option (List ℕ)
      → State D (Bridge J R M)
      → Status × State D (Bridge J R M)
  init_chars mutex_made sodium engine env storage_path none g = (err_invalid, g)
  init_chars mutex_made sodium engine env storage_path (some path) g =
      let (rc, g') = Api.init mutex_made sodium engine env (some path) g in
      (rc, with_vm g' (jvm.release_string_utf_chars (bridge g').vm storage_path))

  -- `init`
  unfoldable pub jni_init :
      Bool
      → Sodium
      → Engine D
      → Env
      → Option R
      → State D (Bridge J R M)
      → Status × State D (Bridge J R M)
  jni_init mutex_made sodium engine env none g = (err_invalid, g)
  jni_init mutex_made sodium engine env (some storage_path) g =
      let (path, vm) = jvm.get_string_utf_chars (bridge g).vm storage_path in
      init_chars mutex_made sodium engine env storage_path path (with_vm g vm)

  -- A new array, with its two parts.
  abbrev pub joined :
      ℕ → List ℕ → List ℕ → State D (Bridge J R M) → Option R × State D (Bridge J R M)
  joined len first second g =
      let (result, vm) = jvm.new_byte_array (bridge g).vm len in
      (result, with_vm g (fill jvm result first second vm))

  -- `generateIdentity`
  unfoldable pub jni_generate_identity :
      Sodium → Env → State D (Bridge J R M) → Option R × State D (Bridge J R M)
  jni_generate_identity sodium env g =
      let (rc, pubkey, secret, g') =
        Api.generate_identity sodium env (some (replicate 32 0)) (some (replicate 32 0)) g in
      if not (is_ok rc) then (none, g') else joined 64 (content pubkey) (content secret) g'

  abbrev pub load_data :
      Sodium → Env → R → Option (List ℕ) → State D (Bridge J R M) → Status × State D (Bridge J R M)
  load_data sodium env identity_data none g = (err_invalid, g)
  load_data sodium env identity_data (some bytes) g =
      let (rc, g') = Api.load_identity sodium env (some bytes) g in
      (rc, with_vm g' (jvm.release_byte_array_elements (bridge g').vm identity_data))

  -- `loadIdentity`
  unfoldable pub jni_load_identity :
      Sodium → Env → Option R → State D (Bridge J R M) → Status × State D (Bridge J R M)
  jni_load_identity sodium env none g = (err_invalid, g)
  jni_load_identity sodium env (some identity_data) g =
      let (elements, vm) = jvm.get_byte_array_elements (bridge g).vm identity_data in
      if ltb (jvm.get_array_length (bridge g).vm identity_data) 64
      then (err_invalid, g)
      else load_data sodium env identity_data elements (with_vm g vm)

  -- `sendMessage`, on the elements of its arrays.
  abbrev send_elements :
      Sodium
      → Env
      → Option (List ℕ)
      → Option (List ℕ)
      → State D (Bridge J R M)
      → Status × State D (Bridge J R M)
  send_elements sodium env (some rcpt) (some pt) g =
      Api.send_message sodium env (some rcpt) (some pt) g
  send_elements sodium env rcpt pt g = (err_invalid, g)

  -- `sendMessage`
  unfoldable pub jni_send_message :
      Sodium → Env → Option R → Option R → State D (Bridge J R M) → Status × State D (Bridge J R M)
  jni_send_message sodium env (some recipient) (some plaintext) g =
      let vm = (bridge g).vm in
      let (rcpt, vm') = jvm.get_byte_array_elements vm recipient in
      let (pt, vm'') = jvm.get_byte_array_elements vm' plaintext in
      let (rc, g') = send_elements sodium env rcpt pt (with_vm g vm'') in
      let released = release jvm plaintext pt (release jvm recipient rcpt (bridge g').vm) in
      if not (jvm.get_array_length vm recipient == 32) || jvm.get_array_length vm plaintext == 0
      then (err_invalid, g)
      else (rc, with_vm g' released)
  jni_send_message sodium env recipient plaintext g = (err_invalid, g)

  -- `pollMessages`, on what the API gave.
  abbrev pub polled : Option Polled → State D (Bridge J R M) → Option R × State D (Bridge J R M)
  polled none g = (none, g)
  polled (some p) g =
      if not (is_ok p.rc) || p.msg_len == 0
      then (none, g)
      else joined (to_jsize (32 + p.msg_len)) (content p.sender_pubkey) (take p.msg_len p.buf) g

  -- `pollMessages`
  unfoldable pub jni_poll_messages :
      Sodium → State D (Bridge J R M) → Option R × State D (Bridge J R M)
  jni_poll_messages sodium g =
      let (rc, p, s) =
        poll_messages g.initialized sodium (shared g) (some (replicate 4096 0)) (some 0)
          (some (replicate 32 0)) in
      polled p (with_shared g s)

  -- `startDiscovery`
  unfoldable pub jni_start_discovery :
      ⦃mem : Memcmp⦄ → Env → State D (Bridge J R M) → Status × State D (Bridge J R M)
  jni_start_discovery env g = Api.start_discovery env g

  -- `tick`
  unfoldable pub jni_tick :
      ⦃mem : Memcmp⦄ → ℕ → Env → State D (Bridge J R M) → Run (State D (Bridge J R M))
  jni_tick fuel env g = Api.tick fuel env g

  -- `nativeSetOnMessageCallback`
  unfoldable pub jni_set_on_message_callback :
      Option R → State D (Bridge J R M) → Status × State D (Bridge J R M)
  jni_set_on_message_callback listener g =
      let (rc, b) = set_listener jvm listener (bridge g) in
      if is_ok rc
      then Api.set_on_message_callback (listener_callback jvm listener) (with_bridge g b)
      else (rc, with_bridge g b)

  -- `shutdown`
  unfoldable pub jni_shutdown : State D (Bridge J R M) → State D (Bridge J R M)
  jni_shutdown g = Api.shutdown (with_bridge g (release_listener jvm (bridge g)))
