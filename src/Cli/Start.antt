-- ===== src/Cli/Start.antt =====
-- src/cli/main.c: from the arguments to the first prompt. Files, `atoi`, `snprintf` and the threads are
-- parameters.
use bit_chat.Prelude.{
  ℕ, ◌*◌, ◌%◌, ◌^◌, Bool, true, not, List, [], ◌∷◌, map, Option, none, some, ltb, ◌==◌,
  if◌then◌else◌, length, take,
}
use bit_chat.Status.{Status, is_ok, Env, bytes}
use bit_chat.Sodium.{Sodium, Memcmp}
use bit_chat.Identity.{Identity, secret_key_size}
use bit_chat.Identity as Identity
use bit_chat.Crypto as Crypto
use bit_chat.Peer.{Peer, max_peers}
use bit_chat.Port.{Storage, Transport}
use bit_chat.Udp.{Udp, Sockets, udp_create}
use bit_chat.Sqlite.{Engine}
use bit_chat.Sqlite as Sqlite
use bit_chat.Router.{Router, World}
use bit_chat.Router as Router
use bit_chat.Router.Peers.{add_to}
use bit_chat.Cli.{bytes_to_hex}
use bit_chat.Cli.Command.{Cli, Terminal, printed, banner, on_message_received}

-- The names that `snprintf` makes, by the port.
pub data FileName : Type 0 where
  key_file database_file : ℕ → FileName

-- The C library: the file system as a state `F`, the 32 bits of the result of `atoi`, the text of a file
-- name. A file that cannot be opened is `none`; writing replaces the content.
pub record System (F : Type 0) : Type 0 where
  pub atoi : List ℕ → ℕ
  pub snprintf : FileName → List ℕ
  pub read_file : F → List ℕ → Option (List ℕ)
  pub write_file : F → List ℕ → List ℕ → Option F
  pub thread_created : Bool

-- Why the program exits with 1.
pub data Failure : Type 0 where
  no_arguments bad_port no_memory no_sodium corrupted_key no_public_key no_identity : Failure
  no_key_file no_database no_socket no_router no_thread : Failure

pub data Start {ℓ} (A : Type ℓ) : Type ℓ where
  started : A → Start A
  failed : Failure → Start A

infixl 5 ◌>>=◌
abbrev pub ◌>>=◌ {ℓ κ} : {A : Type ℓ} {B : Type κ} → Start A → (A → Start B) → Start B
started a >>= f = f a
failed e >>= f = failed e

-- A test that ends the program.
abbrev pub guard : Bool → Failure → Start (Unit {0})
guard b e = if b then started tt else failed e

-- `(uint16_t)atoi(s)`
abbrev pub to_port : {F : Type 0} → System F → List ℕ → ℕ
to_port sys s = sys.atoi s % 2 ^ 16

-- A key that was read, with its public key.
abbrev pub derived : List ℕ → Option (List ℕ) → Start Identity
derived secret_key none = failed no_public_key
derived secret_key (some pubkey) = started record { pubkey = pubkey; secret_key = secret_key }

-- `fread` of at most 32 bytes, and `crypto_scalarmult_base`.
unfoldable pub load_key : Sodium → List ℕ → Start Identity
load_key sodium content =
    let secret_key = take secret_key_size content in
    if length secret_key == secret_key_size
    then derived secret_key (sodium.scalarmult_base secret_key)
    else failed corrupted_key

module _ {F : Type 0} where
  abbrev pub saved : Identity → Option F → Start (Identity × F)
  saved id none = failed no_key_file
  saved id (some files) = started (id, files)

  -- `bc_identity_generate` and the file that keeps the secret key.
  abbrev pub save_key : System F → List ℕ → F → Status × Option Identity → Start (Identity × F)
  save_key sys key_path files (rc, none) = failed no_identity
  save_key sys key_path files (rc, some id) =
      if is_ok rc
      then saved id (sys.write_file files key_path (take secret_key_size id.secret_key))
      else failed no_identity

  abbrev pub identity_from :
      System F → Sodium → Env → Identity → List ℕ → F → Option (List ℕ) → Start (Identity × F)
  identity_from sys sodium env zeroed key_path files none =
      save_key sys key_path files (Identity.generate sodium env (some zeroed))
  identity_from sys sodium env zeroed key_path files (some content) =
      load_key sodium content >>= λ id. started (id, files)

  -- Step 2: the identity of the key file, or a new one, and the files then.
  unfoldable pub load_or_generate :
      System F → Sodium → Env → Identity → ℕ → F → Start (Identity × F)
  load_or_generate sys sodium env zeroed my_port files =
      let key_path = sys.snprintf (key_file my_port) in
      identity_from sys sodium env zeroed key_path files (sys.read_file files key_path)

module _ ⦃mem : Memcmp⦄ where
  -- Step 6: the peers that the transport finds.
  unfoldable pub add_found : Env → List Peer → List Peer → List Peer
  add_found env [] peers = peers
  add_found env (p ∷ ps) peers = add_found env ps (add_to env p peers)

module _ {K : Type 0} where
  abbrev pub found_peers : Status × List Peer × Udp K → List Peer
  found_peers (rc, found, self) = if is_ok rc then found else []

  abbrev pub discovered : Option (Udp K → ℕ → Status × List Peer × Udp K) → Udp K → List Peer
  discovered none self = []
  discovered (some discover_peers) self = found_peers (discover_peers self max_peers)

  -- Step 4.
  abbrev pub opened : Option (Transport (Udp K) × Udp K) × K → Start (Transport (Udp K) × Udp K)
  opened (none, net) = failed no_socket
  opened (some out, net) = started out

module _ {D : Type 0} where
  -- Step 3.
  abbrev pub stored : Option (Storage D × D) → Start (Storage D × D)
  stored none = failed no_database
  stored (some out) = started out

module _ ⦃mem : Memcmp⦄ {D K : Type 0} where
  -- Steps 5 and 6, on what `bc_router_create` gave.
  abbrev pub with_router :
      Sodium
      → Env
      → Transport (Udp K)
      → Udp K
      → D
      → Terminal
      → Option (Router D (Udp K) Terminal)
      → Start (Cli D K)
  with_router sodium env t self db terminal none = failed no_router
  with_router sodium env t self db terminal (some r) = started record {
    router = record r {
      on_message = some (on_message_received sodium);
      peers = add_found env (discovered t.discover_peers self) r.peers;
    };
    world = record { store = db; net = self; user = terminal };
    is_running = true;
  }

  -- Steps 3 to 9, with an identity. The file of the database is given to SQLite by its name. The banner is
  -- printed before the first tick of the new thread takes effect.
  unfoldable pub assemble :
      Sodium
      → Engine D
      → Sockets K
      → Env
      → List ℕ
      → List ℕ
      → Bool
      → K
      → ℕ
      → Option (List ℕ)
      → Identity
      → Start (Cli D K)
  assemble sodium engine sockets env key_path db_path thread_created net my_port peer_ports id =
      stored (Sqlite.create engine env (some db_path)) >>= λ (storage, db).
      opened (udp_create sockets env net my_port peer_ports) >>= λ (t, self).
      with_router sodium env t self db (record { env = env; identity = id; output = [] })
        (Router.create env (some t) (some storage) (some id.pubkey) none)
      >>= λ c. guard thread_created no_thread >>= λ _.
          let found = length (discovered t.discover_peers self) in
          started (printed c (banner my_port (bytes_to_hex id.pubkey) key_path db_path found))

-- The rest of the program, on the identity, and the files that are left.
abbrev pub continue_with :
    {F A : Type 0} → F → Start (Identity × F) → (Identity → Start A) → Start A × F
continue_with files (failed e) rest = (failed e, files)
continue_with files (started (id, files')) rest = (rest id, files')

-- `main`, up to the first prompt, on the arguments behind the program's name: the program, and the files.
unfoldable pub start :
    ⦃mem : Memcmp⦄ {F D K : Type 0}
    → System F
    → Sodium
    → Engine D
    → Sockets K
    → Env
    → Identity
    → F
    → K
    → List (List ℕ)
    → Start (Cli D K) × F
start sys sodium engine sockets env zeroed files net [] = (failed no_arguments, files)
start sys sodium engine sockets env zeroed files net (port ∷ others) =
    let my_port = to_port sys port in
    let ports = map (to_port sys) others in
    let granted = if ltb 0 (length others) then env.alloc (bytes (2 * length others)) else true in
    let identity = guard (not (my_port == 0)) bad_port >>= λ _. guard granted no_memory >>= λ _.
    guard (is_ok (Crypto.init sodium)) no_sodium >>= λ _.
    load_or_generate sys sodium env zeroed my_port files in
    continue_with files identity (
      assemble sodium engine sockets env (sys.snprintf (key_file my_port))
        (sys.snprintf (database_file my_port)) sys.thread_created net my_port (some ports))
