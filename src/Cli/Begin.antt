-- ===== src/Cli/Begin.antt =====
-- A start of src/cli/main.c that comes to its first prompt: what its steps gave.
use bit_chat.Prelude.{
  ℕ, ◌*◌, ◌≡◌, refl, ap, ◌∙◌, subst, List, [], ◌∷◌, Bool, true, not, ltb, ◌==◌, Option, none, some,
  Bool-cases, inl, inr, length, map, arith, if◌then◌else◌,
}
use bit_chat.Status.{is_ok, Env, bytes, context_struct}
use bit_chat.Sodium.{Sodium, Memcmp}
use bit_chat.Identity.{Identity}
use bit_chat.Crypto as Crypto
use bit_chat.Port.{Storage, Transport}
use bit_chat.Udp.{Udp, Sockets, udp_create}
use bit_chat.Sqlite.{Engine}
use bit_chat.Sqlite as Sqlite
use bit_chat.Router.{Router, World, Config, default_config}
use bit_chat.Router as Router
use bit_chat.Cli.Command.{Cli, Terminal}
use bit_chat.Cli.Start.{
  System, Start, started, failed, ◌>>=◌, guard, opened, stored, with_router, assemble,
  continue_with, start, no_thread, bad_port, no_memory, no_sodium, load_or_generate, to_port,
  database_file, key_file,
}

pub >>=-eq-started :
    {A B : Type 0} (s : Start A) (f : A → Start B) {b : B}
    → (s >>= f) ≡ started b
    → (a : A) × (s ≡ started a) × (f a ≡ started b)
>>=-eq-started (started a) f h = (a, refl, h)
>>=-eq-started (failed e) f h = cc

pub started-injective : {A : Type 0} {a b : A} → started a ≡ started b → a ≡ b
started-injective h = cc

stored-inv :
    {D : Type 0} (o : Option (Storage D × D)) (a : Storage D × D)
    → stored o ≡ started a
    → o ≡ some a
stored-inv none a h = cc
stored-inv (some b) a h = ap some (started-injective h)

pub opened-inv :
    {K : Type 0} (o : Option (Transport (Udp K) × Udp K) × K) (a : Transport (Udp K) × Udp K)
    → opened o ≡ started a
    → o ≡ (some a, o.1)
opened-inv (none, net) a h = cc
opened-inv (some b, net) a h = ap (λ b. (some b, net)) (started-injective h)

create-storage :
    {S T U : Type 0} (env : Env) (t : Transport T) (storage : Option (Storage S)) (key : List ℕ)
    {r : Router S T U}
    → Router.create env (some t) storage (some key) none ≡ some r
    → r.storage ≡ storage
unfolding Router.create
create-storage env t storage key e = ground arith

set_up-vtable :
    {D : Type 0} (engine : Engine D) (env : Env) (o : Option D) {storage : Storage D} {db : D}
    → Sqlite.set_up engine env o ≡ some (storage, db)
    → storage ≡ Sqlite.vtable engine
unfolding Sqlite.set_up
set_up-vtable engine env none e = cc
set_up-vtable engine env (some db) e = ground arith

create-vtable :
    {D : Type 0} (engine : Engine D) (env : Env) (db_path : List ℕ) {storage : Storage D} {db : D}
    → Sqlite.create engine env (some db_path) ≡ some (storage, db)
    → storage ≡ Sqlite.vtable engine
unfolding Sqlite.create
create-vtable engine env db_path e = elim (Bool-cases (env.alloc context_struct)) [
  | inl given ↦ set_up-vtable engine env (engine.open_v2 db_path) (rw given at e)
  | inr denied ↦ cc (rw denied at e)
]

continue_with-inv :
    {F A : Type 0} (files : F) (identity : Start (Identity × F)) (rest : Identity → Start A) {a : A}
    {files' : F}
    → continue_with files identity rest ≡ (started a, files')
    → (id : Identity) × (rest id ≡ started a)
continue_with-inv files (failed f) rest e = cc (ap (λ p. p.0) e)
continue_with-inv files (started (id, files')) rest e = (id, ap (λ p. p.0) e)

with_router-storage :
    ⦃mem : Memcmp⦄ {D K : Type 0} (sodium : Sodium) (env : Env) (t : Transport (Udp K))
    (self : Udp K) (db : D) (terminal : Terminal) (s : Option (Storage D))
    (r : Option (Router D (Udp K) Terminal)) {c : Cli D K}
    → ((r' : Router D (Udp K) Terminal) → r ≡ some r' → r'.storage ≡ s)
    → with_router sodium env t self db terminal r ≡ started c
    → c.router.storage ≡ s
with_router-storage sodium env t self db terminal s none made e = cc
with_router-storage {D} {K} sodium env t self db terminal s (some r) made e =
    subst (λ (c : Cli D K). c.router.storage ≡ s) (started-injective e) (made r refl)

module _ ⦃mem : Memcmp⦄ {D K : Type 0} (sodium : Sodium) (sockets : Sockets K) where
  pub assemble-storage :
      (engine : Engine D) (env : Env) (key_path db_path : List ℕ) (thread_created : Bool) (net : K)
      (my_port : ℕ) (peer_ports : Option (List ℕ)) (id : Identity) {c : Cli D K}
      → assemble sodium engine sockets env key_path db_path thread_created net my_port peer_ports id
        ≡ started c
      → c.router.storage ≡ some (Sqlite.vtable engine)
  unfolding assemble
  assemble-storage engine env key_path db_path thread_created net my_port peer_ports id e =
      let ((storage, db), made, e₁) =
        >>=-eq-started (stored (Sqlite.create engine env (some db_path))) _ e in
      let ((t, self), bound, e₂) =
        >>=-eq-started (opened (udp_create sockets env net my_port peer_ports)) _ e₁ in
      let terminal : Terminal = record { env = env; identity = id; output = [] } in
      let router = Router.create env (some t) (some storage) (some id.pubkey) none in
      let (c, assembled, e₃) =
        >>=-eq-started (with_router sodium env t self db terminal router) _ e₂ in
      let (_, created, e₄) = >>=-eq-started (guard thread_created no_thread) _ e₃ in
      let adapter : storage ≡ Sqlite.vtable engine =
        create-vtable engine env db_path
          (stored-inv (Sqlite.create engine env (some db_path)) (storage, db) made) in
      subst (λ (c' : Cli D K). c'.router.storage ≡ some (Sqlite.vtable engine))
        (started-injective e₄)
        (with_router-storage sodium env t self db terminal (some storage) router
            (λ r' e'. create-storage env t (some storage) id.pubkey e') assembled
          ∙ ap some adapter)

  -- A start that comes to the first prompt has put a program together.
  pub start-assemble :
      {F : Type 0} (sys : System F) (engine : Engine D) (env : Env) (zeroed : Identity)
      (files files' : F) (net : K) (args : List (List ℕ)) {c : Cli D K}
      → start sys sodium engine sockets env zeroed files net args ≡ (started c, files')
      → (key_path : List ℕ) × (db_path : List ℕ) × (my_port : ℕ) × (ports : Option (List ℕ))
        × (id : Identity) × (assemble sodium engine sockets env key_path db_path sys.thread_created
              net my_port ports id
            ≡ started c)
  unfolding start
  start-assemble sys engine env zeroed files files' net [] e = cc (ap (λ p. p.0) e)
  start-assemble sys engine env zeroed files files' net (port ∷ others) e =
      let my_port = to_port sys port in
      let ports = map (to_port sys) others in
      let key_path = sys.snprintf (key_file my_port) in
      let db_path = sys.snprintf (database_file my_port) in
      let granted = if ltb 0 (length others) then env.alloc (bytes (2 * length others)) else true in
      let identity = guard (not (my_port == 0)) bad_port >>= λ _. guard granted no_memory >>= λ _.
      guard (is_ok (Crypto.init sodium)) no_sodium >>= λ _.
      load_or_generate sys sodium env zeroed my_port files in
      let program =
        assemble sodium engine sockets env key_path db_path sys.thread_created net my_port
          (some ports) in
      let (id, assembled) = continue_with-inv files identity program e in
      (key_path, db_path, my_port, some ports, id, assembled)
