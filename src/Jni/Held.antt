-- ===== src/Jni/Held.antt =====
-- The global references that the bridge of src/bridge/bitchat_jni.c holds.
use bit_chat.Prelude.{
  ℕ, ◌+◌, ◌-◌, ◌≡◌, refl, ap, ◌∙◌, Bool, true, false, List, arith, Option, none, some, inl, inr,
  Bool-cases, length, if-keeps, not,
}
use bit_chat.Jni.{
  EnvResult, attached, detached, failed, Jvm, Bridge, on_load, on_unload, jni_on_message_callback,
  push_message, release_listener, set_listener, clear_exception, call_listener, delete_local,
  push_to, push_in, push_attached, to_jsize, release_held, hold_method, hold_ref, hold_listener,
  unload_ref,
}

-- The count of the global references that the bridge made and has not deleted: `NewGlobalRef` makes
-- one where it gives one, `DeleteGlobalRef` deletes one, and nothing else the bridge calls does either.
pub record IsCount {J R M : Type 0} (jvm : Jvm J R M) (count : J → ℕ) : Type 0 where
  pub attach : (vm : J) → count (jvm.attach_current_thread vm).1 ≡ count vm
  pub detach : (vm : J) → count (jvm.detach_current_thread vm) ≡ count vm
  pub new_array : (vm : J) (n : ℕ) → count (jvm.new_byte_array vm n).1 ≡ count vm
  pub set_region :
      (vm : J) (array : R) (start : ℕ) (elements : List ℕ)
      → count (jvm.set_byte_array_region vm array start elements) ≡ count vm
  pub new_global :
      (vm vm' : J) (object global : R)
      → jvm.new_global_ref vm object ≡ (some global, vm')
      → count vm' ≡ count vm + 1
  pub no_global :
      (vm vm' : J) (object : R) → jvm.new_global_ref vm object ≡ (none, vm') → count vm' ≡ count vm
  pub delete_global : (vm : J) (global : R) → count (jvm.delete_global_ref vm global) ≡ count vm - 1
  pub delete_local : (vm : J) (ref : R) → count (jvm.delete_local_ref vm ref) ≡ count vm
  pub class : (vm : J) (object : R) → count (jvm.get_object_class vm object).1 ≡ count vm
  pub method : (vm : J) (cls : R) → count (jvm.get_method_id vm cls).1 ≡ count vm
  pub call :
      (vm : J) (listener : R) (m : M) (sender payload : R)
      → count (jvm.call_void_method vm listener m sender payload) ≡ count vm
  pub clear : (vm : J) → count (jvm.exception_clear vm) ≡ count vm

-- How many references a variable holds.
abbrev pub held : {R : Type 0} → Option R → ℕ
held none = 0
held (some ref) = 1

-- Every reference that was made and not deleted is the listener's, which comes with its method.
pub record IsHeld {J R M : Type 0} (count : J → ℕ) (b : Bridge J R M) : Type 0 where
  pub counted : count b.vm ≡ held b.listener_ref
  pub paired : held b.on_message_method ≡ held b.listener_ref

-- What changes the listener and its references, in any order. The VM unloads the library on a thread
-- that is attached to it.
pub data Calls {J R M : Type 0} (jvm : Jvm J R M) (b : Bridge J R M) : Bridge J R M → Type 0 where
  here : Calls jvm b b
  loaded : {b' : Bridge J R M} → Calls jvm b b' → Calls jvm b (on_load b')
  unloaded :
      {b' : Bridge J R M}
      → Calls jvm b b'
      → jvm.get_env b'.vm ≡ attached
      → Calls jvm b (on_unload jvm b')
  listener_set :
      {b' : Bridge J R M}
      → Calls jvm b b'
      → (listener : Option R) → Calls jvm b (set_listener jvm listener b').1
  released : {b' : Bridge J R M} → Calls jvm b b' → Calls jvm b (release_listener jvm b')
  message :
      {b' : Bridge J R M}
      → Calls jvm b b'
      → (sender payload : List ℕ) → Calls jvm b (jni_on_message_callback jvm sender payload b')

module _ {J R M : Type 0} {jvm : Jvm J R M} {count : J → ℕ} (laws : IsCount jvm count) where
  clear_exception-count : (vm : J) → count (clear_exception jvm vm) ≡ count vm
  clear_exception-count vm = elim (Bool-cases (jvm.exception_check vm)) [
    | inl thrown ↦ rw thrown (laws.clear vm)
    | inr quiet ↦ rw quiet refl
  ]

  call_listener-count :
      (listener : R) (method : M) (sender payload : List ℕ) (j_sender j_payload : Option R) (vm : J)
      → count (call_listener jvm listener method sender payload j_sender j_payload vm) ≡ count vm
  call_listener-count listener method sender payload (some s) (some p) vm =
      let vm' = jvm.set_byte_array_region vm s 0 sender in
      let vm'' = jvm.set_byte_array_region vm' p 0 payload in
      clear_exception-count (jvm.call_void_method vm'' listener method s p)
      ∙ (laws.call vm'' listener method s p
          ∙ (laws.set_region vm' p 0 payload ∙ laws.set_region vm s 0 sender))
  call_listener-count listener method sender payload (some s) none vm = refl
  call_listener-count listener method sender payload none p vm = refl

  delete_local-count : (ref : Option R) (vm : J) → count (delete_local jvm ref vm) ≡ count vm
  delete_local-count none vm = refl
  delete_local-count (some ref) vm = laws.delete_local vm ref

  push_message-count :
      (listener : R) (method : M) (sender payload : List ℕ) (vm : J)
      → count (push_message jvm listener method sender payload vm) ≡ count vm
  unfolding push_message
  push_message-count listener method sender payload vm =
      let (s, vm') = jvm.new_byte_array vm 32 in
      let (p, vm'') = jvm.new_byte_array vm' (to_jsize (length payload)) in
      let called = call_listener jvm listener method sender payload s p vm'' in
      delete_local-count p (delete_local jvm s called)
      ∙ (delete_local-count s called
          ∙ (call_listener-count listener method sender payload s p vm''
              ∙ (laws.new_array vm' (to_jsize (length payload)) ∙ laws.new_array vm 32)))

  push_attached-count :
      (push : J → J) (out : Bool × J)
      → ((vm : J) → count (push vm) ≡ count vm)
      → count (push_attached jvm push out) ≡ count out.1
  push_attached-count push (true, vm) h = laws.detach (push vm) ∙ h vm
  push_attached-count push (false, vm) h = refl

  push_in-count :
      (push : J → J) (env : EnvResult) (vm : J)
      → ((vm : J) → count (push vm) ≡ count vm)
      → count (push_in jvm push env vm) ≡ count vm
  push_in-count push attached vm h = h vm
  push_in-count push detached vm h =
      push_attached-count push (jvm.attach_current_thread vm) h ∙ laws.attach vm
  push_in-count push failed vm h = refl

  push_to-count :
      (sender payload : List ℕ) (listener : Option R) (method : Option M) (vm : J)
      → count (push_to jvm sender payload listener method vm) ≡ count vm
  push_to-count sender payload (some listener) (some method) vm =
      push_in-count (push_message jvm listener method sender payload) (jvm.get_env vm) vm
        (push_message-count listener method sender payload)
  push_to-count sender payload (some listener) none vm = refl
  push_to-count sender payload none method vm = refl

  jni_on_message_callback-IsHeld :
      (sender payload : List ℕ) (b : Bridge J R M)
      → IsHeld count b
      → IsHeld count (jni_on_message_callback jvm sender payload b)
  unfolding jni_on_message_callback
  jni_on_message_callback-IsHeld sender payload b h =
      if-keeps (IsHeld count) (not b.has_jvm) h record {
        counted = push_to-count sender payload b.listener_ref b.on_message_method b.vm ∙ h.counted;
        paired = h.paired;
      }

  -- A listener that is deleted leaves no reference.
  deleted-count :
      (vm : J) (listener : R) → count vm ≡ 1 → count (jvm.delete_global_ref vm listener) ≡ 0
  deleted-count vm listener h = omega (arith, laws.delete_global vm listener)

  release_listener-IsHeld :
      (b : Bridge J R M)
      → IsHeld count b
      → IsHeld count (release_listener jvm b) × ((release_listener jvm b).listener_ref ≡ none)
  unfolding release_listener
  release_listener-IsHeld b h = go b.listener_ref refl
    where
      go :
          (ref : Option R)
          → b.listener_ref ≡ ref
          → IsHeld count (release_held jvm ref b) × ((release_held jvm ref b).listener_ref ≡ none)
      go none e = (h, e)
      go (some listener) e = (
        record { counted = deleted-count b.vm listener (h.counted ∙ ap held e); paired = refl },
        refl,
      )

  hold_method-IsHeld :
      (global : R) (method : Option M) (vm : J) (b : Bridge J R M)
      → count vm ≡ 1
      → IsHeld count (hold_method jvm global method vm b).1
  hold_method-IsHeld global none vm b h = record {
    counted = clear_exception-count (jvm.delete_global_ref vm global) ∙ deleted-count vm global h;
    paired = refl;
  }
  hold_method-IsHeld global (some method) vm b h = record { counted = h; paired = refl }

  hold_ref-IsHeld :
      (listener : R) (ref : Option R) (vm : J) (b : Bridge J R M)
      → jvm.new_global_ref b.vm listener ≡ (ref, vm)
      → IsHeld count b
      → b.listener_ref ≡ none
      → IsHeld count (hold_ref jvm listener ref vm b).1
  hold_ref-IsHeld listener none vm b e h free = record {
    counted = laws.no_global b.vm vm listener e ∙ (h.counted ∙ ap held free);
    paired = h.paired ∙ ap held free;
  }
  hold_ref-IsHeld listener (some global) vm b e h free =
      let (cls, vm') = jvm.get_object_class vm listener in
      let (method, vm'') = jvm.get_method_id vm' cls in
      hold_method-IsHeld global method (jvm.delete_local_ref vm'' cls) b (
        laws.delete_local vm'' cls
        ∙ (laws.method vm' cls
            ∙ (laws.class vm listener
                ∙ omega
                    (arith, laws.new_global b.vm vm listener global e, h.counted, ap held free))))

  hold_listener-IsHeld :
      (listener : Option R) (b : Bridge J R M)
      → IsHeld count b
      → b.listener_ref ≡ none
      → IsHeld count (hold_listener jvm listener b).1
  hold_listener-IsHeld none b h free = h
  hold_listener-IsHeld (some listener) b h free =
      let (ref, vm) = jvm.new_global_ref b.vm listener in
      hold_ref-IsHeld listener ref vm b refl h free

  set_listener-IsHeld :
      (listener : Option R) (b : Bridge J R M)
      → IsHeld count b
      → IsHeld count (set_listener jvm listener b).1
  unfolding set_listener
  set_listener-IsHeld listener b h =
      let (held', free) = release_listener-IsHeld b h in
      hold_listener-IsHeld listener (release_listener jvm b) held' free

  on_unload-IsHeld :
      (b : Bridge J R M)
      → jvm.get_env b.vm ≡ attached
      → IsHeld count b
      → IsHeld count (on_unload jvm b)
  unfolding on_unload
  on_unload-IsHeld b env h = record { counted = go b.listener_ref h.counted; paired = refl }
    where
      go : (ref : Option R) → count b.vm ≡ held ref → count (unload_ref jvm b.vm ref) ≡ 0
      go none e = e
      go (some listener) e = rw env (deleted-count b.vm listener e)

  -- From a bridge where this holds, whatever is called in whatever order, if the library is unloaded
  -- on a thread that is attached, the bridge has made and not deleted one global reference while it
  -- has a listener, which comes with its method, and none else, by the count of the VM.
  pub Calls-IsHeld : (b b' : Bridge J R M) → IsHeld count b → Calls jvm b b' → IsHeld count b'
  unfolding on_load
  Calls-IsHeld b _ h here = h
  Calls-IsHeld b _ h (loaded cs) =
      let h' = Calls-IsHeld b _ h cs in record { counted = h'.counted; paired = h'.paired }
  Calls-IsHeld b _ h (unloaded cs env) = on_unload-IsHeld _ env (Calls-IsHeld b _ h cs)
  Calls-IsHeld b _ h (listener_set cs listener) =
      set_listener-IsHeld listener _ (Calls-IsHeld b _ h cs)
  Calls-IsHeld b _ h (released cs) = (release_listener-IsHeld _ (Calls-IsHeld b _ h cs)).0
  Calls-IsHeld b _ h (message cs sender payload) =
      jni_on_message_callback-IsHeld sender payload _ (Calls-IsHeld b _ h cs)
