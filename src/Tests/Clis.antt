-- ===== src/Tests/Clis.antt =====
-- The theorems on the command-line program at concrete states.
use bit_chat.Prelude.{
  ℕ, ◌≡◌, ◌⊎◌, refl, true, false, List, [], ◌∷◌, ◌++◌, arith, Option, none, some, replicate,
  if◌then◌else◌,
}
use bit_chat.Status.{Status, is_ok}
use bit_chat.Message.{Message}
use bit_chat.Identity.{Identity}
use bit_chat.Identity as Identity
use bit_chat.Dedup.{blank}
use bit_chat.Ffi.Envelope.{IsSealed}
use bit_chat.Ffi.Api.{broadcast_made, send_message}
use bit_chat.Cli.{bytes_to_hex, hex_to_bytes, read_hex}
use bit_chat.Cli.Command.{cmd_msg, skip_spaces, Cli, Output, Terminal, printed, cast}
use bit_chat.Cli.Same.{is_sent, cmd_msg-send_message}
use bit_chat.Cli.Start.{System, started, load_or_generate, FileName, key_file, database_file}
use bit_chat.Cli.Restart.{IsFileSystem, load_or_generate-again}
use bit_chat.Tests.Data.{alice, bob, sample_env, later_env, bytes_eq, bytes_eq_iff}
use bit_chat.Tests.Toys.{toy_sodium, toy_sodium-IsSodium}
use bit_chat.Tests.Apis.{sender, sender_router, hi}

abbrev pub identity_of : List ℕ → Identity
identity_of key = record { pubkey = key; secret_key = key }

abbrev pub terminal_of : List ℕ → Terminal
terminal_of key = record { env = sample_env; identity = identity_of key; output = [] }

-- The program of Alice, without neighbours.
abbrev program : Cli (Unit {0}) (Unit {0})
program = record {
  router = record {
    transport = none;
    storage = none;
    config = record { fanout = 3; dedup_cap = 4; dedup_max_age = 600 };
    local_pubkey = alice;
    dedup_table = replicate 4 blank;
    dedup_cap = 4;
    peers = [];
    on_message = none;
    last_sf_tick = 0;
  };
  world = record {
    store = tt;
    net = record { sockfd = 3; my_port = 9000; peer_ports = []; net = tt };
    user = terminal_of alice;
  };
  is_running = true;
}

abbrev line_to_bob : List ℕ
line_to_bob = bytes_to_hex bob ++ (32 ∷ hi)

cmd_msg-send_message_example :
    ((m : Message) × IsSealed toy_sodium sample_env (identity_of alice) bob hi m
      × (send_message toy_sodium sample_env (some bob) (some hi) sender
          ≡ broadcast_made sample_env sender sender_router (some m))
      × (cmd_msg toy_sodium sample_env program line_to_bob ≡ cast sample_env program (some m)))
    ⊎ ((rc : Status) × (line : Output) × (is_ok rc ≡ false)
        × (is_sent line ≡ false)
        × (send_message toy_sodium sample_env (some bob) (some hi) sender ≡ (rc, sender))
        × (cmd_msg toy_sodium sample_env program line_to_bob ≡ printed program line))
cmd_msg-send_message_example =
    cmd_msg-send_message sample_env program sender sender_router toy_sodium line_to_bob bob
      (105 ∷ []) 104 (unfold bytes_to_hex in omega arith)
      (unfold bytes_to_hex hex_to_bytes read_hex in refl) (unfold bytes_to_hex skip_spaces in refl)
      refl refl refl

-- A file system: an association list of names and contents.
abbrev Files : Type 0
Files = List (List ℕ × List ℕ)

unfoldable pub lookup : Files → List ℕ → Option (List ℕ)
lookup [] name = none
lookup ((other, content) ∷ files) name =
    let rest = lookup files name in if bytes_eq other name then some content else rest

abbrev file_name : FileName → List ℕ
file_name (key_file port) = 107 ∷ (port ∷ [])
file_name (database_file port) = 100 ∷ (port ∷ [])

abbrev pub toy_system : System Files
toy_system = record {
  atoi = λ digits. 9000;
  snprintf = file_name;
  read_file = lookup;
  write_file = λ files name content. some ((name, content) ∷ files);
  thread_created = true;
}

toy_system-IsFileSystem : IsFileSystem toy_system
unfolding lookup
toy_system-IsFileSystem = record {
  read_written = λ files files' name content h.
      let e : files' ≡ (name, content) ∷ files = cc in
      let same : bytes_eq name name ≡ true = (bytes_eq_iff name name).1 refl in rw (e, same) refl;
}

-- The identity of the random bytes of an environment.
abbrev fives : Identity
fives = identity_of (replicate 32 5)

abbrev pub saved_files : Files
saved_files = (file_name (key_file 9000), replicate 32 5) ∷ []

first_start :
    load_or_generate toy_system toy_sodium sample_env (identity_of []) 9000 []
    ≡ started (fives, saved_files)
unfolding load_or_generate lookup toy_sodium Identity.generate
first_start = refl

load_or_generate-again_example :
    load_or_generate toy_system toy_sodium later_env (identity_of []) 9000 saved_files
    ≡ started (fives, saved_files)
load_or_generate-again_example =
    load_or_generate-again toy_system toy_sodium-IsSodium toy_system-IsFileSystem sample_env
      later_env (identity_of []) (identity_of []) 9000 [] saved_files fives first_start
