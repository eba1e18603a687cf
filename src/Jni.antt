-- ===== src/Jni.antt =====
-- src/bridge/bitchat_jni.c: what the bridge asks of the Java VM, and the listener that it holds. The
-- VM is a parameter: a type `J` of its states, `R` of references and `M` of method identifiers. A
-- listener that is called changes the VM alone: it calls nothing of the bridge back.
pub mod Calls
pub mod Held
pub mod Stored
pub mod Polled
use bit_chat.Prelude.{
  ℕ, ◌%◌, ◌^◌, Bool, true, false, not, ◌&&◌, List, Option, none, some, length, if◌then◌else◌,
}
use bit_chat.Status.{Status, ok, err_nomem, err_invalid}

-- The results of `GetEnv`; `attached` is JNI_OK with an environment.
pub data EnvResult : Type 0 where
  attached detached failed : EnvResult

-- The functions of `JNIEnv` and `JavaVM` that the bridge calls. A `jsize` is its 32 bits.
pub record Jvm (J R M : Type 0) : Type 0 where
  pub get_env : J → EnvResult
  pub attach_current_thread : J → Bool × J
  pub detach_current_thread : J → J
  pub new_byte_array : J → ℕ → Option R × J
  pub set_byte_array_region : J → R → ℕ → List ℕ → J
  pub get_array_length : J → R → ℕ
  pub get_byte_array_elements : J → R → Option (List ℕ) × J
  pub release_byte_array_elements : J → R → J
  pub get_string_utf_chars : J → R → Option (List ℕ) × J
  pub release_string_utf_chars : J → R → J
  pub new_global_ref : J → R → Option R × J
  pub delete_global_ref : J → R → J
  pub delete_local_ref : J → R → J
  pub get_object_class : J → R → R × J
  pub get_method_id : J → R → Option M × J
  pub call_void_method : J → R → M → R → R → J
  pub exception_check : J → Bool
  pub exception_clear : J → J

-- `g_jvm`, of which only matters whether it is NULL, `g_listener_ref` and `g_on_message_method`, and
-- the state of the VM.
pub record Bridge (J R M : Type 0) : Type 0 where
  pub has_jvm : Bool
  pub listener_ref : Option R
  pub on_message_method : Option M
  pub vm : J

-- `(jsize)len`
abbrev pub to_jsize : ℕ → ℕ
to_jsize len = len % 2 ^ 32

module _ {J R M : Type 0} where
  -- `JNI_OnLoad`
  unfoldable pub on_load : Bridge J R M → Bridge J R M
  on_load b = record b { has_jvm = true }

  -- `DeleteGlobalRef`, where `GetEnv` gives an environment.
  abbrev pub delete_in : Jvm J R M → R → EnvResult → J → J
  delete_in jvm listener attached vm = jvm.delete_global_ref vm listener
  delete_in jvm listener detached vm = vm
  delete_in jvm listener failed vm = vm

  -- The part of `JNI_OnUnload` on the listener.
  abbrev pub unload_ref : Jvm J R M → J → Option R → J
  unload_ref jvm vm none = vm
  unload_ref jvm vm (some listener) = delete_in jvm listener (jvm.get_env vm) vm

  -- `JNI_OnUnload`
  unfoldable pub on_unload : Jvm J R M → Bridge J R M → Bridge J R M
  on_unload jvm b = record {
    has_jvm = false;
    listener_ref = none;
    on_message_method = none;
    vm = unload_ref jvm b.vm b.listener_ref;
  }

  abbrev pub clear_exception : Jvm J R M → J → J
  clear_exception jvm vm = if jvm.exception_check vm then jvm.exception_clear vm else vm

  -- The call of the listener, where both arrays are there.
  abbrev pub call_listener : Jvm J R M → R → M → List ℕ → List ℕ → Option R → Option R → J → J
  call_listener jvm listener method sender payload (some j_sender) (some j_payload) vm =
      let vm' =
        jvm.set_byte_array_region (jvm.set_byte_array_region vm j_sender 0 sender) j_payload 0
          payload in
      clear_exception jvm (jvm.call_void_method vm' listener method j_sender j_payload)
  call_listener jvm listener method sender payload j_sender j_payload vm = vm

  -- `if (ref) DeleteLocalRef(ref)`
  abbrev pub delete_local : Jvm J R M → Option R → J → J
  delete_local jvm none vm = vm
  delete_local jvm (some ref) vm = jvm.delete_local_ref vm ref

  -- `jni_on_message_callback`, with an environment.
  unfoldable pub push_message : Jvm J R M → R → M → List ℕ → List ℕ → J → J
  push_message jvm listener method sender payload vm =
      let (j_sender, vm') = jvm.new_byte_array vm 32 in
      let (j_payload, vm'') = jvm.new_byte_array vm' (to_jsize (length payload)) in
      let called = call_listener jvm listener method sender payload j_sender j_payload vm'' in
      delete_local jvm j_payload (delete_local jvm j_sender called)

  -- With a thread that is attached for the call.
  abbrev pub push_attached : Jvm J R M → (J → J) → Bool × J → J
  push_attached jvm push (attached_now, vm) =
      if attached_now then jvm.detach_current_thread (push vm) else vm

  abbrev pub push_in : Jvm J R M → (J → J) → EnvResult → J → J
  push_in jvm push attached vm = push vm
  push_in jvm push detached vm = push_attached jvm push (jvm.attach_current_thread vm)
  push_in jvm push failed vm = vm

  abbrev pub push_to : Jvm J R M → List ℕ → List ℕ → Option R → Option M → J → J
  push_to jvm sender payload (some listener) (some method) vm =
      push_in jvm (push_message jvm listener method sender payload) (jvm.get_env vm) vm
  push_to jvm sender payload listener method vm = vm

  -- `jni_on_message_callback`
  unfoldable pub jni_on_message_callback : Jvm J R M → List ℕ → List ℕ → Bridge J R M → Bridge J R M
  jni_on_message_callback jvm sender payload b =
      if not b.has_jvm
      then b
      else record b { vm = push_to jvm sender payload b.listener_ref b.on_message_method b.vm }

  abbrev pub release_held : Jvm J R M → Option R → Bridge J R M → Bridge J R M
  release_held jvm none b = b
  release_held jvm (some listener) b = record b {
    listener_ref = none;
    on_message_method = none;
    vm = jvm.delete_global_ref b.vm listener;
  }

  -- The previous listener, where there is one, is released, by `nativeSetOnMessageCallback` and by
  -- `shutdown`.
  unfoldable pub release_listener : Jvm J R M → Bridge J R M → Bridge J R M
  release_listener jvm b = release_held jvm b.listener_ref b

  -- The result of `GetMethodID`.
  abbrev pub hold_method : Jvm J R M → R → Option M → J → Bridge J R M → Status × Bridge J R M
  hold_method jvm global none vm b = (
    err_invalid,
    record b {
      listener_ref = none;
      on_message_method = none;
      vm = clear_exception jvm (jvm.delete_global_ref vm global);
    },
  )
  hold_method jvm global (some method) vm b =
      (ok, record b { listener_ref = some global; on_message_method = some method; vm = vm })

  -- The result of `NewGlobalRef`.
  abbrev pub hold_ref : Jvm J R M → R → Option R → J → Bridge J R M → Status × Bridge J R M
  hold_ref jvm listener none vm b = (err_nomem, record b { listener_ref = none; vm = vm })
  hold_ref jvm listener (some global) vm b =
      let (cls, vm') = jvm.get_object_class vm listener in
      let (method, vm'') = jvm.get_method_id vm' cls in
      hold_method jvm global method (jvm.delete_local_ref vm'' cls) b

  abbrev pub hold_listener : Jvm J R M → Option R → Bridge J R M → Status × Bridge J R M
  hold_listener jvm none b = (ok, b)
  hold_listener jvm (some listener) b =
      let (global, vm) = jvm.new_global_ref b.vm listener in hold_ref jvm listener global vm b

  -- `nativeSetOnMessageCallback`, under its lock.
  unfoldable pub set_listener : Jvm J R M → Option R → Bridge J R M → Status × Bridge J R M
  set_listener jvm listener b = hold_listener jvm listener (release_listener jvm b)
