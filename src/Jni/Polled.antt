-- ===== src/Jni/Polled.antt =====
-- The array that `pollMessages` of src/bridge/bitchat_jni.c gives for a text that was sent to the node.
use bit_chat.Prelude.{
  ℕ, ◌+◌, ◌≤◌, ◌<◌, ◌≡◌, refl, sym, ap, ap₂, ◌∙◌, Bool, true, false, List, ◌++◌, arith, Option,
  none, some, length, take, drop, replicate, get_or, ◌==◌, drop-length, append-nil,
  take-append_of_length, if◌then◌else◌,
}
use bit_chat.Status.{Status, ok, err_invalid}
use bit_chat.Sodium.{Sodium, IsSodium}
use bit_chat.Message.{Message}
use bit_chat.Identity.{Identity}
use bit_chat.Crypto.{overwrite}
use bit_chat.Ffi.{Shared, State, next_index}
use bit_chat.Ffi.Api.{shared, with_shared}
use bit_chat.Ffi.Inbox.{Polled, sender_out, poll_inbox, poll_messages}
use bit_chat.Ffi.Envelope.{IsOpened}
use bit_chat.Ffi.Sealed.{read_message-IsOpened}
use bit_chat.Jni.{Jvm, Bridge, to_jsize}
use bit_chat.Jni.Calls.{bridge, with_vm, fill, joined, polled, jni_poll_messages}
use bit_chat.Jni.Stored.{IsArrays, fill-elements}

-- What a call of the API gives for a text.
abbrev polled_text : Identity → List ℕ → List ℕ → Option (List ℕ) → Polled
polled_text a text buf sender = record {
  rc = ok;
  buf = overwrite text buf;
  msg_len = length text;
  sender_pubkey = sender_out sender a.pubkey;
}

-- The inbox behind its oldest message.
abbrev taken : {V : Type 0} → Shared V → Shared V
taken s = record s { inbox_tail = next_index s.inbox_tail }

module _ {V : Type 0} {sodium : Sodium} (laws : IsSodium sodium) where
  poll_inbox-IsOpened :
      (a : Identity) (s : Shared V) (m : Message) (text buf : List ℕ) (sender : Option (List ℕ))
      → (s.inbox_tail == s.inbox_head) ≡ false
      → get_or s.inbox s.inbox_tail none ≡ some m
      → IsOpened sodium a s.identity text m
      → length text ≤ length buf
      → poll_inbox sodium s buf sender ≡ (polled_text a text buf sender, taken s)
  unfolding poll_inbox
  poll_inbox-IsOpened a s m text buf sender busy there h room =
      rw (busy, there, read_message-IsOpened laws a s m text buf sender h room) refl

module _ {D J R M : Type 0} {jvm : Jvm J R M} {elements : J → R → List ℕ}
    (arrays : IsArrays jvm elements) {sodium : Sodium} (laws : IsSodium sodium) where
  -- The array of a text that was polled.
  polled-elements :
      (a : Identity) (g : State D (Bridge J R M)) (text : List ℕ) (array : R) (vm : J)
      → length a.pubkey ≡ 32
      → 0 < length text
      → length text ≤ 4096
      → jvm.new_byte_array (bridge g).vm (32 + length text) ≡ (some array, vm)
      → (g' : State D (Bridge J R M)) × (polled jvm
            (some (polled_text a text (replicate 4096 0) (some (replicate 32 0))))
            g
          ≡ (some array, g'))
        × (elements (bridge g').vm array ≡ a.pubkey ++ text)
        × ((shared g').inbox_tail ≡ (shared g).inbox_tail)
  polled-elements a g text array vm sized some_text short new =
      let n = 32 + length text in
      let first : List ℕ = a.pubkey ++ drop (length a.pubkey) (replicate 32 0) in
      let second : List ℕ = take (length text) (overwrite text (replicate 4096 0)) in
      let Result : Type 0 = Option R × State D (Bridge J R M) in
      let tested : Bool → Result =
        λ empty. if empty then (none, g) else joined jvm (to_jsize n) first second g in
      let filled : List ℕ → List ℕ → Option R × J → Result =
        λ one two out. (out.0, with_vm g (fill jvm out.0 one two out.1)) in
      let some_left : (length text == 0) ≡ false = ground (arith, some_text) in
      let fits : to_jsize n ≡ n = omega (arith, short) in
      let key : first ≡ a.pubkey =
        ap (λ rest. a.pubkey ++ rest) (drop-length (replicate 32 0) (length a.pubkey) (sym sized))
        ∙ append-nil a.pubkey in
      let whole : second ≡ text =
        take-append_of_length (length text) text (drop (length text) (replicate 4096 0)) refl in
      (
        with_vm g (fill jvm (some array) a.pubkey text vm),
        ap tested some_left
            ∙ (ap (λ len. joined jvm len first second g) fits
                ∙ (ap₂ (λ one two. filled one two (jvm.new_byte_array (bridge g).vm n)) key whole
                    ∙ ap (filled a.pubkey text) new)),
        fill-elements arrays (bridge g).vm vm array n a.pubkey text sized refl new,
        refl,
      )

  -- Where the oldest message of the inbox opens for the node to a text of 1 to 4096 bytes, its
  -- sender has a key of 32 bytes, and the VM has an array for it, `pollMessages` of an API that is
  -- initialized gives an array that holds the key of the sender and then the text, and takes the
  -- message out of the inbox.
  pub jni_poll_messages-IsOpened :
      (a : Identity) (g : State D (Bridge J R M)) (m : Message) (text : List ℕ) (array : R) (vm : J)
      → length a.pubkey ≡ 32
      → g.initialized ≡ true
      → ((shared g).inbox_tail == (shared g).inbox_head) ≡ false
      → get_or (shared g).inbox (shared g).inbox_tail none ≡ some m
      → IsOpened sodium a (shared g).identity text m
      → 0 < length text
      → length text ≤ 4096
      → jvm.new_byte_array (bridge g).vm (32 + length text) ≡ (some array, vm)
      → (g' : State D (Bridge J R M)) × (jni_poll_messages jvm sodium g ≡ (some array, g'))
        × (elements (bridge g').vm array ≡ a.pubkey ++ text)
        × ((shared g').inbox_tail ≡ next_index (shared g).inbox_tail)
  unfolding jni_poll_messages poll_messages
  jni_poll_messages-IsOpened a g m text array vm sized ready busy there h some_text short new =
      let buf : List ℕ = replicate 4096 0 in
      let key : Option (List ℕ) = some (replicate 32 0) in
      let Result : Type 0 = Option R × State D (Bridge J R M) in
      let read =
        poll_inbox-IsOpened laws a (shared g) m text buf key busy there h (omega (arith, short)) in
      let given : Bool → Polled × Shared (Bridge J R M) → Result = λ initialized (p, s).
        let out : Status × Option Polled × Shared (Bridge J R M) =
          if initialized then (p.rc, some p, s) else (err_invalid, none, shared g) in
        polled jvm out.1 (with_shared g out.2) in
      let (g', made, held, kept) =
        polled-elements a (with_shared g (taken (shared g))) text array vm sized some_text short
          new in
      (
        g',
        ap (λ b. given b (poll_inbox sodium (shared g) buf key)) ready
            ∙ (ap (given true) read ∙ made),
        held,
        kept,
      )
