-- ===== src/Tests/Toys.antt =====
-- A libsodium and a SQLite that keep the documented laws: keys made from the first random byte, a
-- cipher that appends a tag, and a table that is a list.
use bit_chat.Prelude.{
  ℕ, ◌-◌, ◌≡◌, ◌≢◌, ◌⊎◌, ◌↔◌, ◌≤◌, ◌∙◌, not, refl, sym, ap, Bool, true, false, ◌&&◌, inl, inr, List,
  [], ◌∷◌, ◌++◌, arith, some, length, length-append, replicate, take, take-append_of_length, get_or,
  leb, if◌then◌else◌, Bool-cases,
}
use mathlib.Core.List.{Memᴰ}
use mathlib.Core.List.Memᴰ
use bit_chat.Sodium.{Sodium, IsSodium}
use bit_chat.Sqlite.{
  Engine, Statement, Value, blob, integer, insert, get_pending, get_all_pending, delete, evict, Row,
}
use bit_chat.Sqlite.Table.{IsEngine}
use bit_chat.Tests.Data.{bytes_eq, bytes_eq_iff}

-- The tag of the toy cipher.
abbrev toy_tag : List ℕ
toy_tag = replicate 16 0

unfoldable pub toy_sodium : Sodium
toy_sodium = record {
  init_ok = true;
  box_keypair = λ seed. some (replicate 32 (get_or seed 0 0), replicate 32 (get_or seed 0 0));
  scalarmult_base = λ sk. some sk;
  box_beforenm = λ pk sk. some (replicate 32 9);
  aead_encrypt = λ text iv key. some (text ++ toy_tag);
  aead_decrypt = λ cipher iv key. some (take (length cipher - 16) cipher);
}

pub toy_sodium-IsSodium : IsSodium toy_sodium
unfolding toy_sodium
toy_sodium-IsSodium = record {
  keypair_sized = λ seed pk sk h.
      let p : pk ≡ replicate 32 (get_or seed 0 0) = cc in
      let s : sk ≡ replicate 32 (get_or seed 0 0) = cc in (rw p refl, rw s refl);
  encrypt_sized = λ text iv key cipher h.
      let e : cipher ≡ text ++ toy_tag = cc in rw e (length-append text toy_tag);
  decrypt_encrypt = λ text iv key cipher h.
      let e : cipher ≡ text ++ toy_tag = cc in
      rw e (
        ap some (
          take-append_of_length (length (text ++ toy_tag) - 16) text toy_tag
            (omega (arith, length-append text toy_tag))));
  base_of_keypair = λ seed pk sk h.
      let p : pk ≡ replicate 32 (get_or seed 0 0) = cc in
      let s : sk ≡ replicate 32 (get_or seed 0 0) = cc in rw (p, s) refl;
  agreement = λ seed seed' pk sk pk' sk' h h'. refl;
}

-- A row's column is the key, and it has not expired.
abbrev is_pending : List ℕ → ℕ → Row → Bool
is_pending receiver now r = bytes_eq r.receiver_pubkey receiver && leb now r.expires_at

-- The rows that pass a test.
kept : (Row → Bool) → List Row → List Row
kept test [] = []
kept test (r ∷ rs) = let rest = kept test rs in if test r then r ∷ rest else rest

toy_step : List Row → Statement → List Value → Bool × List Row
toy_step db insert (blob u ∷ (blob s ∷ (blob r ∷ (blob p ∷ (integer t ∷ (integer e ∷ [])))))) = (
  true,
  db
      ++ (record {
        uuid = u;
        sender_pubkey = s;
        receiver_pubkey = r;
        payload = p;
        ttl = t;
        expires_at = e;
      }
          ∷ []),
)
toy_step db delete (blob u ∷ []) = (true, kept (λ r. not (bytes_eq r.uuid u)) db)
toy_step db evict (integer now ∷ []) = (true, kept (λ r. leb now r.expires_at) db)
toy_step db _ values = (false, db)

toy_rows : List Row → Statement → List Value → List Row × List Row
toy_rows db get_pending (blob receiver ∷ (integer now ∷ [])) =
    (kept (is_pending receiver now) db, db)
toy_rows db get_all_pending (integer now ∷ []) = (kept (λ r. leb now r.expires_at) db, db)
toy_rows db _ values = ([], db)

unfoldable pub toy_engine : Engine (List Row)
unfolding toy_step toy_rows kept
toy_engine = record {
  open_v2 = λ path. some [];
  exec = λ db s. (true, db);
  prepare_v2 = λ db s. true;
  bind_blob = λ bs n. bs;
  step = toy_step;
  rows = toy_rows;
  finalize = λ db s. db;
  close = λ db. db;
}

kept-Mem :
    (test : Row → Bool) (row : Row) (rs : List Row)
    → Memᴰ row rs
    → test row ≡ true
    → Memᴰ row (kept test rs)
unfolding kept
kept-Mem test row [] mem h = absurd (Memᴰ.not-nil mem)
kept-Mem test row (r ∷ rs) mem h = elim (Bool-cases (test r)) [
  | inl good ↦ rw good (elim (Memᴰ.cases_cons mem) [
    | inl same ↦ Memᴰ.head same
    | inr deep ↦ Memᴰ.tail (kept-Mem test row rs deep h)
  ])
  | inr bad ↦ rw bad (elim (Memᴰ.cases_cons mem) [
    | inl same ↦ cc (h, bad, ap test same)
    | inr deep ↦ kept-Mem test row rs deep h
  ])
]

Mem-kept :
    (test : Row → Bool) (row : Row) (rs : List Row)
    → Memᴰ row (kept test rs)
    → Memᴰ row rs × (test row ≡ true)
unfolding kept
Mem-kept test row [] mem = absurd (Memᴰ.not-nil mem)
Mem-kept test row (r ∷ rs) mem = elim (Bool-cases (test r)) [
  | inl good ↦ elim (Memᴰ.cases_cons (rw good at mem)) [
    | inl same ↦ (Memᴰ.head same, ap test same ∙ good)
    | inr deep ↦ let (below, passed) = Mem-kept test row rs deep in (Memᴰ.tail below, passed)
  ]
  | inr bad ↦
      let (below, passed) = Mem-kept test row rs (rw bad at mem) in (Memᴰ.tail below, passed)
]

pending_iff :
    (receiver : List ℕ) (now : ℕ) (r : Row)
    → (is_pending receiver now r ≡ true) ↔ ((r.receiver_pubkey ≡ receiver) × (now ≤ r.expires_at))
pending_iff receiver now r =
    let (sound, complete) = bytes_eq_iff r.receiver_pubkey receiver in
    (
      λ h.
          let key : bytes_eq r.receiver_pubkey receiver ≡ true = ground (arith, h) in
          (sound key, ground (arith, h)),
      λ (key, young). let key' = complete key in ground (arith, key', young),
    )

other_iff : (uuid : List ℕ) (r : Row) → (not (bytes_eq r.uuid uuid) ≡ true) ↔ (r.uuid ≢ uuid)
other_iff uuid r =
    let (sound, complete) = bytes_eq_iff r.uuid uuid in
    (
      λ h e. let same = complete e in cc,
      λ h. elim (Bool-cases (bytes_eq r.uuid uuid)) [
        | inl same ↦ absurd (h (sound same))
        | inr other ↦ rw other refl
      ],
    )

-- The rows that pass are those with the property that the test decides.
kept_iff {κ} :
    (P : Row → Type κ) (test : Row → Bool) (row : Row) (rs : List Row)
    → ((test row ≡ true) ↔ P row)
    → Memᴰ row (kept test rs) ↔ (Memᴰ row rs × P row)
kept_iff P test row rs (to, from) = (
  λ mem. let (below, passed) = Mem-kept test row rs mem in (below, to passed),
  λ (mem, p). kept-Mem test row rs mem (from p),
)

young_iff : (now : ℕ) (r : Row) → (leb now r.expires_at ≡ true) ↔ (now ≤ r.expires_at)
young_iff now r = (λ h. ground (arith, h), λ h. ground (arith, h))

added : (db : List Row) (row r : Row) → Memᴰ r (db ++ (row ∷ [])) → Memᴰ r db ⊎ (r ≡ row)
added db row r mem = elim (Memᴰ.append_cases db mem) [
  | inl there ↦ inl there
  | inr last ↦ elim (Memᴰ.cases_cons last) [
    | inl same ↦ inr same
    | inr other ↦ absurd (Memᴰ.not-nil other)
  ]
]

pub toy_engine-IsEngine : IsEngine toy_engine (λ db. db)
unfolding toy_engine toy_step toy_rows
toy_engine-IsEngine = record {
  bound = λ bs h. refl;
  inserted = λ db db' row new h.
      let e : db' ≡ db ++ (row ∷ []) = ap (λ p. p.1) (sym h) in
      rw e (Memᴰ.append_right db (Memᴰ.head refl));
  inserted_only = λ db db' row r h mem.
      let e : db' ≡ db ++ (row ∷ []) = ap (λ p. p.1) (sym h) in added db row r (rw e at mem);
  selected = λ db row receiver now.
      let (to, from) =
        kept_iff (λ r. (r.receiver_pubkey ≡ receiver) × (now ≤ r.expires_at))
          (is_pending receiver now) row db (pending_iff receiver now row) in
      (
        λ mem. let (stored, (key, young)) = to mem in (stored, key, young),
        λ (stored, key, young). from (stored, (key, young)),
      );
  selected_all = λ db row now.
      kept_iff (λ r. now ≤ r.expires_at) (λ r. leb now r.expires_at) row db (young_iff now row);
  deleted = λ db db' row uuid h.
      let test : Row → Bool = λ r. not (bytes_eq r.uuid uuid) in
      let e : db' ≡ kept test db = ap (λ p. p.1) (sym h) in
      rw e (kept_iff (λ r. r.uuid ≢ uuid) test row db (other_iff uuid row));
  evicted = λ db db' row now h.
      let test : Row → Bool = λ r. leb now r.expires_at in
      let e : db' ≡ kept test db = ap (λ p. p.1) (sym h) in
      rw e (kept_iff (λ r. now ≤ r.expires_at) test row db (young_iff now row));
}
