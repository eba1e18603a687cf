-- ===== src/Cli/Restart.antt =====
-- The identity of a program that is started again, from the key file of src/cli/main.c.
use bit_chat.Prelude.{
  ℕ, ◌≡◌, refl, sym, ap, ◌∙◌, List, Option, none, some, length, take, take-length,
}
use bit_chat.Status.{Env}
use bit_chat.Sodium.{Sodium, IsSodium}
use bit_chat.Identity.{Identity, secret_key_size}
use bit_chat.Identity as Identity
use bit_chat.Cli.Start.{
  System, Start, started, failed, ◌>>=◌, key_file, load_key, identity_from, load_or_generate, saved,
  save_key,
}

-- The file system gives back what was written.
pub record IsFileSystem {F : Type 0} (sys : System F) : Type 0 where
  pub read_written :
      (files files' : F) (name content : List ℕ)
      → sys.write_file files name content ≡ some files'
      → sys.read_file files' name ≡ some content

module _ {F : Type 0} (sys : System F) {sodium : Sodium} (laws : IsSodium sodium) where
  -- A secret key of libsodium is read with its public key.
  load_key-keypair :
      (seed pk sk : List ℕ)
      → sodium.box_keypair seed ≡ some (pk, sk)
      → load_key sodium (take secret_key_size sk) ≡ started record { pubkey = pk; secret_key = sk }
  unfolding load_key
  load_key-keypair seed pk sk h =
      let sized : length sk ≡ 32 = (laws.keypair_sized seed pk sk h).1 in
      rw
        (
          take-length sk secret_key_size sized,
          take-length sk secret_key_size sized,
          sized,
          laws.base_of_keypair seed pk sk h,
        )
        refl

  -- An identity that was made and saved is in the file.
  save_key-load_key :
      (files files' : F) (key_path : List ℕ) (env : Env) (zeroed id : Identity)
      → IsFileSystem sys
      → save_key sys key_path files (Identity.generate sodium env (some zeroed))
        ≡ started (id, files')
      → (content : List ℕ) × (sys.read_file files' key_path ≡ some content)
        × (load_key sodium content ≡ started id)
  unfolding Identity.generate
  save_key-load_key files files' key_path env zeroed id law h =
      made (sodium.box_keypair (env.random 32)) refl h
    where
      written :
          (pk sk : List ℕ) (out : Option F)
          → sodium.box_keypair (env.random 32) ≡ some (pk, sk)
          → sys.write_file files key_path (take secret_key_size sk) ≡ out
          → saved record { pubkey = pk; secret_key = sk } out ≡ started (id, files')
          → (content : List ℕ) × (sys.read_file files' key_path ≡ some content)
            × (load_key sodium content ≡ started id)
      written pk sk none h e done = cc
      written pk sk (some last) h e done =
          let same : last ≡ files' = cc in
          let who : record { pubkey = pk; secret_key = sk } ≡ id = cc in
          (
            take secret_key_size sk,
            law.read_written files files' key_path (take secret_key_size sk) (e ∙ ap some same),
            load_key-keypair (env.random 32) pk sk h ∙ ap started who,
          )

      made :
          (pair : Option (List ℕ × List ℕ))
          → sodium.box_keypair (env.random 32) ≡ pair
          → save_key sys key_path files
              ((Identity.keep_keypair zeroed pair).0, some (Identity.keep_keypair zeroed pair).1)
            ≡ started (id, files')
          → (content : List ℕ) × (sys.read_file files' key_path ≡ some content)
            × (load_key sodium content ≡ started id)
      made none e done = cc
      made (some (pk, sk)) e done =
          written pk sk (sys.write_file files key_path (take secret_key_size sk)) e refl done

  load_key-files :
      (files files' : F) (loaded : Start Identity) (id : Identity)
      → ◌>>=◌ {B = Identity × F} loaded (λ i. started (i, files)) ≡ started (id, files')
      → (files ≡ files') × (loaded ≡ started id)
  load_key-files files files' (started i) id h = (cc, cc)
  load_key-files files files' (failed e) id h = cc

  module _ (law : IsFileSystem sys) (env env' : Env) (zeroed zeroed' : Identity) where
    identity_from-again :
        (files files' : F) (key_path : List ℕ) (content : Option (List ℕ)) (id : Identity)
        → sys.read_file files key_path ≡ content
        → identity_from sys sodium env zeroed key_path files content ≡ started (id, files')
        → identity_from sys sodium env' zeroed' key_path files' (sys.read_file files' key_path)
          ≡ started (id, files')
    identity_from-again files files' key_path none id e h =
        let (content, read, loaded) = save_key-load_key files files' key_path env zeroed id law h in
        rw (read, loaded) refl
    identity_from-again files files' key_path (some content) id e h =
        let (same, loaded) = load_key-files files files' (load_key sodium content) id h in
        rw (sym same, e, loaded) refl

    -- Where a start of the program gave an identity, made or read, and left the files behind, a next
    -- start with the same port gives the same identity and leaves the files as they are, where a file
    -- that was written is read with its content.
    pub load_or_generate-again :
        (my_port : ℕ) (files files' : F) (id : Identity)
        → load_or_generate sys sodium env zeroed my_port files ≡ started (id, files')
        → load_or_generate sys sodium env' zeroed' my_port files' ≡ started (id, files')
    unfolding load_or_generate
    load_or_generate-again my_port files files' id h =
        let key_path = sys.snprintf (key_file my_port) in
        identity_from-again files files' key_path (sys.read_file files key_path) id refl h
