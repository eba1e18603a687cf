-- ===== src/Cli/SetUp.antt =====
-- What `main` of src/cli/main.c has made when it shows its first prompt.
use bit_chat.Prelude.{
  ℕ, ◌≡◌, refl, sym, ap, ◌∙◌, subst, List, [], ◌∷◌, Bool, Option, none, some, take, arith,
}
use bit_chat.Status.{Env, returned}
use bit_chat.Sodium.{Sodium, Memcmp}
use bit_chat.Message.{pubkey_size}
use bit_chat.Identity.{Identity}
use bit_chat.Peer.{Peer}
use bit_chat.Port.{Storage, Transport}
use bit_chat.Udp.{Udp, Sockets, udp_create}
use bit_chat.Udp.Slots.{IsUdp, udp_create-IsUdp}
use bit_chat.Sqlite.{Engine}
use bit_chat.Sqlite as Sqlite
use bit_chat.Router.{Router, World, Config, default_config}
use bit_chat.Router as Router
use bit_chat.Router.Valid.{IsValid, create-IsValid, add_to-IsValid}
use bit_chat.Cli.Command.{Cli, Output, printed, Terminal}
use bit_chat.Cli.Start.{
  System, started, guard, add_found, discovered, opened, stored, with_router, assemble, start,
  no_thread,
}
use bit_chat.Cli.Loop.{Event, run}
use bit_chat.Cli.Program.{IsSetUp, IsLater, run-IsLater}
use bit_chat.Cli.Begin.{
  >>=-eq-started, started-injective, opened-inv, start-assemble, assemble-storage,
}

module _ ⦃mem : Memcmp⦄ {S T U : Type 0} where
  add_found-IsValid :
      (env : Env) (ps : List Peer) {r : Router S T U}
      → IsValid r
      → IsValid (record r { peers = add_found env ps r.peers })
  unfolding add_found
  add_found-IsValid env [] v = v
  add_found-IsValid env (p ∷ ps) {r} v = add_found-IsValid env ps (add_to-IsValid env p v)

-- A router that was made, with its fields.
record IsMade {S T U : Type 0} (t : Transport T) (key : List ℕ) (r : Router S T U) : Type 0 where
  pub transport : r.transport ≡ some t
  pub config : r.config ≡ default_config
  pub own : r.local_pubkey ≡ take pubkey_size key
  pub valid : IsValid r

-- A program that is set up, whose router has the default configuration and the key of its identity.
pub record IsStarted {D K : Type 0} (sodium : Sodium) (sockets : Sockets K) (c : Cli D K)
    : Type 0 where
  pub set_up : IsSetUp sodium sockets c
  pub config : c.router.config ≡ default_config
  pub own : c.router.local_pubkey ≡ take pubkey_size c.world.user.identity.pubkey

create-fields :
    {S T U : Type 0} (env : Env) (t : Transport T) (storage : Option (Storage S)) (key : List ℕ)
    {r : Router S T U}
    → Router.create env (some t) storage (some key) none ≡ some r
    → (r.transport ≡ some t) × (r.config ≡ default_config) × (r.local_pubkey ≡ take pubkey_size key)
unfolding Router.create
create-fields env t storage key e = ground arith

create-IsMade :
    {S T U : Type 0} (env : Env) (t : Transport T) (storage : Option (Storage S)) (key : List ℕ)
    {r : Router S T U}
    → Router.create env (some t) storage (some key) none ≡ some r
    → IsMade t key r
create-IsMade env t storage key e =
    let (transport, config, own) = create-fields env t storage key e in
    record {
      transport = transport;
      config = config;
      own = own;
      valid = create-IsValid env (some t) storage (some key) none (omega arith) e;
    }

module _ ⦃mem : Memcmp⦄ {D K : Type 0} {sodium : Sodium} {sockets : Sockets K} where
  with_router-IsStarted :
      (env : Env) (t : Transport (Udp K)) (self : Udp K) (db : D) (terminal : Terminal)
      (r : Option (Router D (Udp K) Terminal)) {c : Cli D K}
      → IsUdp sockets t
      → ((r' : Router D (Udp K) Terminal) → r ≡ some r' → IsMade t terminal.identity.pubkey r')
      → with_router sodium env t self db terminal r ≡ started c
      → IsStarted sodium sockets c
  with_router-IsStarted env t self db terminal none udp made e = cc
  with_router-IsStarted env t self db terminal (some r) udp made e =
      let m = made r refl in
      subst (IsStarted sodium sockets) (started-injective e) record {
        set_up = record {
          valid =
              let v = add_found-IsValid env (discovered t.discover_peers self) m.valid in
              record { sized = v.sized; pos = v.pos; few = v.few; distinct = v.distinct };
          transport = t;
          has_transport = m.transport;
          udp = udp;
          calls = refl;
        };
        config = m.config;
        own = m.own;
      }

  printed-IsStarted :
      {c : Cli D K} (line : Output)
      → IsStarted sodium sockets c
      → IsStarted sodium sockets (printed c line)
  printed-IsStarted line s = record {
    set_up = record {
      valid = s.set_up.valid;
      transport = s.set_up.transport;
      has_transport = s.set_up.has_transport;
      udp = s.set_up.udp;
      calls = s.set_up.calls;
    };
    config = s.config;
    own = s.own;
  }

  assemble-IsStarted :
      (engine : Engine D) (env : Env) (key_path db_path : List ℕ) (thread_created : Bool) (net : K)
      (my_port : ℕ) (peer_ports : Option (List ℕ)) (id : Identity) {c : Cli D K}
      → assemble sodium engine sockets env key_path db_path thread_created net my_port peer_ports id
        ≡ started c
      → IsStarted sodium sockets c
  unfolding assemble
  assemble-IsStarted engine env key_path db_path thread_created net my_port peer_ports id e =
      let ((storage, db), made, e₁) =
        >>=-eq-started (stored (Sqlite.create engine env (some db_path))) _ e in
      let ((t, self), bound, e₂) =
        >>=-eq-started (opened (udp_create sockets env net my_port peer_ports)) _ e₁ in
      let terminal : Terminal = record { env = env; identity = id; output = [] } in
      let router = Router.create env (some t) (some storage) (some id.pubkey) none in
      let (c, assembled, e₃) =
        >>=-eq-started (with_router sodium env t self db terminal router) _ e₂ in
      let (_, created, e₄) = >>=-eq-started (guard thread_created no_thread) _ e₃ in
      let udp =
        udp_create-IsUdp sockets env net _ my_port peer_ports t self
          (opened-inv (udp_create sockets env net my_port peer_ports) (t, self) bound) in
      subst (IsStarted sodium sockets) (started-injective e₄) (
        printed-IsStarted _ (
          with_router-IsStarted env t self db terminal router udp
            (λ r' e'. create-IsMade env t (some storage) id.pubkey e') assembled))

  -- Where `main` comes to its first prompt, on whatever arguments, files and sockets, the program is set
  -- up.
  pub start-IsStarted :
      {F : Type 0} (sys : System F) (engine : Engine D) (env : Env) (zeroed : Identity)
      (files files' : F) (net : K) (args : List (List ℕ)) {c : Cli D K}
      → start sys sodium engine sockets env zeroed files net args ≡ (started c, files')
      → IsStarted sodium sockets c
  start-IsStarted sys engine env zeroed files files' net args e =
      let (key_path, db_path, my_port, ports, id, assembled) =
        start-assemble sodium sockets sys engine env zeroed files files' net args e in
      assemble-IsStarted engine env key_path db_path sys.thread_created net my_port ports id
        assembled

  -- It stays so, whatever is typed, received and sent until its end.
  pub IsLater-IsStarted :
      {c₀ c : Cli D K} → IsStarted sodium sockets c₀ → IsLater c₀ c → IsStarted sodium sockets c
  IsLater-IsStarted s l =
      let (fixed, sits, owns) = l.beside in
      record {
        set_up = record {
          valid = l.valid;
          transport = s.set_up.transport;
          has_transport = fixed.transport ∙ s.set_up.has_transport;
          udp = s.set_up.udp;
          calls = fixed.on_message ∙ s.set_up.calls;
        };
        config = fixed.config ∙ s.config;
        own = fixed.local_pubkey ∙ s.own ∙ ap (λ id. take pubkey_size id.pubkey) (sym owns);
      }

  -- A program that `main` started is, after any lines, ticks and signals in any order, still set up: its
  -- router is valid, over UDP and SQLite, with the default configuration, the callback of the program and
  -- the key of its identity; and it has the identity, the socket and the peers' ports that it started
  -- with.
  pub run-start :
      {F : Type 0} (sys : System F) (engine : Engine D) (env : Env) (zeroed : Identity)
      (files files' : F) (net : K) (args : List (List ℕ)) (events : List Event) {c₀ c : Cli D K}
      → start sys sodium engine sockets env zeroed files net args ≡ (started c₀, files')
      → run sodium events c₀ ≡ returned c
      → IsStarted sodium sockets c
        × (c.router.storage ≡ some (Sqlite.vtable engine))
        × (c.world.user.identity ≡ c₀.world.user.identity)
        × (c.world.net.sockfd ≡ c₀.world.net.sockfd)
        × (c.world.net.peer_ports ≡ c₀.world.net.peer_ports)
  run-start sys engine env zeroed files files' net args events begun ran =
      let s = start-IsStarted sys engine env zeroed files files' net args begun in
      let l = run-IsLater s.set_up events ran in
      let (fixed, sits, owns) = l.beside in
      let (_, _, _, _, _, assembled) =
        start-assemble sodium sockets sys engine env zeroed files files' net args begun in
      let storage =
        assemble-storage sodium sockets engine env _ _ sys.thread_created net _ _ _ assembled in
      (IsLater-IsStarted s l, fixed.storage ∙ storage, owns, sits.0, sits.1)
