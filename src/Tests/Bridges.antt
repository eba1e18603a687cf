-- ===== src/Tests/Bridges.antt =====
-- The theorems on the JNI bridge, at a VM whose arrays are a list and whose references are numbers.
use bit_chat.Prelude.{
  ℕ, zero, suc, ◌+◌, ◌-◌, ◌≤◌, ◌≡◌, ◌∙◌, refl, sym, ap, ltb-ge, true, false, List, [], ◌∷◌, ◌++◌,
  arith, none, some, replicate, length, get_or, set, take, drop, ltb, if◌then◌else◌,
}
use bit_chat.Ffi.{State}
use bit_chat.Ffi.Api as Api
use bit_chat.Ffi.Api.{shared}
use bit_chat.Message.{Message}
use bit_chat.Identity.{Identity}
use bit_chat.Crypto.{derive_shared, decrypt}
use bit_chat.Ffi.Envelope.{IsOpened}
use bit_chat.Jni.Polled.{jni_poll_messages-IsOpened}
use bit_chat.Sqlite.{Row}
use bit_chat.Jni.{Jvm, Bridge, attached, on_load, jni_on_message_callback, set_listener}
use bit_chat.Jni.Calls.{
  bridge, with_vm, jni_init, jni_poll_messages, jni_generate_identity, jni_load_identity,
}
use bit_chat.Jni.Held.{IsCount, IsHeld, here, loaded, listener_set, message, Calls-IsHeld}
use bit_chat.Jni.Stored.{IsArrays, jni_load_identity-jni_generate_identity}
use bit_chat.Tests.Data.{alice, bob, hello, sample_env, later_env}
use bit_chat.Tests.Toys.{toy_sodium, toy_sodium-IsSodium, toy_engine}

-- The arrays, and how many global references there are.
record Vm : Type 0 where
  arrays : List (List ℕ)
  globals : ℕ

-- What an array holds.
elements : Vm → ℕ → List ℕ
elements vm array = get_or vm.arrays array []

abbrev written_at : ℕ → List ℕ → List ℕ → List ℕ
written_at start new old = take start old ++ (new ++ drop (start + length new) old)

-- A region that does not fit changes nothing.
set_region : Vm → ℕ → ℕ → List ℕ → Vm
unfolding elements
set_region vm array start new = record vm {
  arrays =
      if ltb (length (elements vm array)) (start + length new)
      then vm.arrays
      else set vm.arrays array (written_at start new (elements vm array));
}

abbrev toy_jvm : Jvm Vm ℕ ℕ
unfolding elements set_region
toy_jvm = record {
  get_env = λ vm. attached;
  attach_current_thread = λ vm. (true, vm);
  detach_current_thread = λ vm. vm;
  new_byte_array =
      λ vm n. (some (length vm.arrays), record vm { arrays = vm.arrays ++ (replicate n 0 ∷ []) });
  set_byte_array_region = set_region;
  get_array_length = λ vm array. length (elements vm array);
  get_byte_array_elements = λ vm array. (some (elements vm array), vm);
  release_byte_array_elements = λ vm array. vm;
  get_string_utf_chars = λ vm string. (some [], vm);
  release_string_utf_chars = λ vm string. vm;
  new_global_ref = λ vm object. (some object, record vm { globals = vm.globals + 1 });
  delete_global_ref = λ vm global. record vm { globals = vm.globals - 1 };
  delete_local_ref = λ vm ref. vm;
  get_object_class = λ vm object. (7, vm);
  get_method_id = λ vm cls. (some 9, vm);
  call_void_method = λ vm listener method sender payload. vm;
  exception_check = λ vm. false;
  exception_clear = λ vm. vm;
}

get_or-append :
    (arrays : List (List ℕ)) (new : List ℕ) → get_or (arrays ++ (new ∷ [])) (length arrays) [] ≡ new
get_or-append [] new = refl
get_or-append (a ∷ arrays) new = get_or-append arrays new

toy_jvm-IsCount : IsCount toy_jvm (λ vm. vm.globals)
unfolding toy_jvm set_region
toy_jvm-IsCount = record {
  attach = λ vm. refl;
  detach = λ vm. refl;
  new_array = λ vm n. refl;
  set_region = λ vm array start new. refl;
  new_global = λ vm vm' object global h. sym (ap (λ p. p.1.globals) h);
  no_global = λ vm vm' object h. cc;
  delete_global = λ vm global. refl;
  delete_local = λ vm ref. refl;
  class = λ vm object. refl;
  method = λ vm cls. refl;
  call = λ vm listener m sender payload. refl;
  clear = λ vm. refl;
}

-- The state of a library that is loaded, and the calls of a program.
abbrev loaded_bridge : Bridge Vm ℕ ℕ
loaded_bridge = record {
  has_jvm = false;
  listener_ref = none;
  on_message_method = none;
  vm = record { arrays = []; globals = 0 };
}

abbrev at_end : Bridge Vm ℕ ℕ
at_end =
    jni_on_message_callback toy_jvm (replicate 32 1) (104 ∷ [])
      (set_listener toy_jvm (some 4) (set_listener toy_jvm (some 3) (on_load loaded_bridge)).1).1

Calls-IsHeld_example : IsHeld (λ vm. vm.globals) at_end
Calls-IsHeld_example =
    Calls-IsHeld toy_jvm-IsCount loaded_bridge at_end (record { counted = refl; paired = refl })
      (message (listener_set (listener_set (loaded here) (some 3)) (some 4)) (replicate 32 1)
        (104 ∷ []))

set-written_at :
    (xs : List (List ℕ)) (i start : ℕ) (new : List ℕ)
    → start + length new ≤ length (get_or xs i [])
    → get_or (set xs i (written_at start new (get_or xs i []))) i []
      ≡ written_at start new (get_or xs i [])
set-written_at [] i zero [] h = refl
set-written_at [] i (suc start) [] h = absurd (omega arith)
set-written_at [] i start (b ∷ bs) h = absurd (omega arith)
set-written_at (x ∷ xs) zero start new h = refl
set-written_at (x ∷ xs) (suc i) start new h = set-written_at xs i start new h

toy_jvm-IsArrays : IsArrays toy_jvm elements
unfolding toy_jvm elements set_region
toy_jvm-IsArrays = record {
  made = λ vm vm' n array h.
      let e : length vm.arrays ≡ array = cc (ap (λ p. p.0) h) in
      let s : record vm { arrays = vm.arrays ++ (replicate n 0 ∷ []) } ≡ vm' = ap (λ p. p.1) h in
      sym (ap (λ v. get_or v.arrays array []) s)
      ∙ (ap (λ a. get_or (vm.arrays ++ (replicate n 0 ∷ [])) a []) (sym e)
          ∙ get_or-append vm.arrays (replicate n 0));
  written = λ vm array start new h.
      let fits : ltb (length (get_or vm.arrays array [])) (start + length new) ≡ false =
        ltb-ge (length (get_or vm.arrays array [])) (start + length new) h in
      rw fits (set-written_at vm.arrays array start new h);
  sized = λ vm array. refl;
  read = λ vm vm' array bytes h. cc (ap (λ p. p.0) h);
}

-- The API of a process that starts.
abbrev fresh : State (List Row) (Bridge Vm ℕ ℕ)
fresh = record {
  initialized = false;
  mutex_initialized = false;
  transport = none;
  storage = none;
  router = none;
  discovery = none;
  world = record {
    store = [];
    net = tt;
    user = record {
      env = sample_env;
      identity = record { pubkey = replicate 32 0; secret_key = replicate 32 0 };
      inbox = replicate 256 none;
      inbox_head = 0;
      inbox_tail = 0;
      user_callback = none;
      user = loaded_bridge;
    };
  };
}

abbrev ready : State (List Row) (Bridge Vm ℕ ℕ)
ready = (jni_init toy_jvm true toy_sodium toy_engine sample_env (some 1) fresh).1

abbrev identified : State (List Row) (Bridge Vm ℕ ℕ)
identified = (jni_generate_identity toy_jvm toy_sodium sample_env ready).1

-- Another process, whose VM holds the array.
abbrev restarted : State (List Row) (Bridge Vm ℕ ℕ)
restarted = with_vm ready (record { arrays = (replicate 32 5 ++ replicate 32 5) ∷ []; globals = 0 })

jni_load_identity-jni_generate_identity_example :
    (shared (jni_load_identity toy_jvm toy_sodium later_env (some 0) restarted).1).identity
    ≡ (shared identified).identity
unfolding elements set_region jni_init Api.init Api.init_locked jni_generate_identity
    Api.generate_identity toy_sodium toy_engine bit_chat.Crypto.init Api.open_storage
    bit_chat.Sqlite.create bit_chat.Sqlite.set_up bit_chat.Identity.generate Api.restart
    bit_chat.Router.create Api.ensure_mutex
jni_load_identity-jni_generate_identity_example =
    jni_load_identity-jni_generate_identity toy_jvm-IsArrays toy_sodium-IsSodium sample_env
      later_env ready identified restarted 0 0 (replicate 32 5 ++ replicate 32 5)
      (bridge restarted).vm refl refl refl refl

-- Bob's process, whose inbox holds a text of Alice.
abbrev letter : Message
letter = record hello { payload = replicate 24 5 ++ (104 ∷ (105 ∷ replicate 16 0)) }

abbrev bob_identity : Identity
bob_identity = record { pubkey = bob; secret_key = bob }

abbrev alice_identity : Identity
alice_identity = record { pubkey = alice; secret_key = alice }

abbrev holding : State (List Row) (Bridge Vm ℕ ℕ)
holding = record fresh {
  initialized = true;
  world = record {
    store = [];
    net = tt;
    user = record {
      env = sample_env;
      identity = bob_identity;
      inbox = some letter ∷ replicate 255 none;
      inbox_head = 1;
      inbox_tail = 0;
      user_callback = none;
      user = loaded_bridge;
    };
  };
}

letter-IsOpened : IsOpened toy_sodium alice_identity bob_identity (104 ∷ (105 ∷ [])) letter
unfolding toy_sodium derive_shared decrypt
letter-IsOpened = record {
  sized = refl;
  from = refl;
  to = refl;
  key = replicate 32 9;
  derived = refl;
  opened = λ buf. refl;
}

jni_poll_messages-IsOpened_example :
    (g' : State (List Row) (Bridge Vm ℕ ℕ)) × (jni_poll_messages toy_jvm toy_sodium holding
      ≡ (some 0, g'))
    × (elements (bridge g').vm 0 ≡ alice ++ (104 ∷ (105 ∷ [])))
    × ((shared g').inbox_tail ≡ 1)
unfolding elements set_region
jni_poll_messages-IsOpened_example =
    jni_poll_messages-IsOpened toy_jvm-IsArrays toy_sodium-IsSodium alice_identity holding letter
      (104 ∷ (105 ∷ [])) 0 (record { arrays = replicate 34 0 ∷ []; globals = 0 }) refl refl refl
      refl letter-IsOpened (omega arith) (omega arith) refl
