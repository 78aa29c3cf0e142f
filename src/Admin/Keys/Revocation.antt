-- ===== src/Admin/Keys/Revocation.antt =====
-- A key works from its creation on, and after its revocation never again.
use adaptive_gateway.Prelude.{
  ◌≡◌, refl, sym, ◌∙◌, ap, inl, inr, true, false, ◌&&◌, Option, none, some, List, [], ◌∷◌, ◌++◌,
  arith, All, All-append, Option-cases,
}
use adaptive_gateway.Prelude.Texts.{Text, str, text_eq, text_eq_refl}
use adaptive_gateway.Prelude.Results.{ok}
use adaptive_gateway.Redis.{Reply, answered, lost_before, lost_after}
use adaptive_gateway.Auth.{User, answer, refuse, find_user}
use adaptive_gateway.Auth.Middleware.{
  State, Claims, ApiKey, Accounts, find_key, verify_api_key, by_key,
}
use adaptive_gateway.Admin.Keys.{
  Generated, ApiKeyCreated, commit, issued, generate_api_key, create_api_key, get_key, disable,
  revoke_api_key, create_admin_user,
}

-- One request to the admin routes that change the tables, with what is generated for it.
pub data Operation : Type 0 where
  create : Generated → Reply → Text → Text → Operation
  revoke : Text → Reply → Operation
  create_user : Text → Reply → Text → Text → Operation

abbrev pub IsOff : Text → ApiKey → Type 0
IsOff hash key = (text_eq key.key_hash hash && key.is_active) ≡ false

-- What the middleware puts on the request of a key that it accepts.
abbrev pub by_api_key : Text → State
by_api_key id = record {
  authenticated = true;
  user_id = some id;
  is_admin = false;
  auth_type = some (str "api_key");
}

module _ (jwt_decode : Text → Option Claims) (uuid : Text → Option Text) (hash_token : Text → Text)
    (hash_password : Text → Text) where
  find_key-IsOff :
      (accounts : Option Accounts) (hash : Text) (keys : List ApiKey)
      → All (IsOff hash) keys
      → find_key jwt_decode uuid hash_token accounts hash keys ≡ none
  unfolding find_key
  find_key-IsOff accounts hash [] off = refl
  find_key-IsOff accounts hash (k ∷ ks) (h, off) = rw h (find_key-IsOff accounts hash ks off)

  find_key-append :
      (accounts : Option Accounts) (hash : Text) (keys : List ApiKey) (key : ApiKey)
      → All (IsOff hash) keys
      → (text_eq key.key_hash hash && key.is_active) ≡ true
      → find_key jwt_decode uuid hash_token accounts hash (keys ++ key ∷ []) ≡ some key
  unfolding find_key
  find_key-append accounts hash [] key off e = rw e refl
  find_key-append accounts hash (k ∷ ks) key (h, off) e =
      rw h (find_key-append accounts hash ks key off e)

  disable-IsOff :
      (id hash : Text) (keys : List ApiKey)
      → All (IsOff hash) keys
      → All (IsOff hash) (disable id keys)
  unfolding disable
  disable-IsOff id hash [] off = tt
  disable-IsOff id hash (k ∷ ks) (h, off) = (ground arith, disable-IsOff id hash ks off)

  -- The unique index on key_hash: no other row has the hash of the row `id`.
  abbrev pub IsOnly : Text → Text → ApiKey → Type 0
  IsOnly id hash key = text_eq key.key_hash hash ≡ true → text_eq key.id id ≡ true

  disable_only :
      (id hash : Text) (keys : List ApiKey)
      → All (IsOnly id hash) keys
      → All (IsOff hash) (disable id keys)
  unfolding disable
  disable_only id hash [] only = tt
  disable_only id hash (k ∷ ks) (h, only) = (ground arith, disable_only id hash ks only)

  unfoldable pub run : List Operation → Accounts → Accounts
  run [] db = db
  run (create g reply name principal ∷ ops) db =
      run ops (create_api_key hash_token uuid g reply name principal db).1
  run (revoke id reply ∷ ops) db = run ops (revoke_api_key id reply db).1
  run (create_user id reply email password ∷ ops) db =
      run ops (create_admin_user hash_password id reply email password db).1

  -- A new key has another hash than the one given.
  abbrev pub Spares : Text → Operation → Type 0
  Spares hash (create g _ _ _) = text_eq (generate_api_key hash_token g).2 hash ≡ false
  Spares hash (revoke _ _) = Unit {0}
  Spares hash (create_user _ _ _ _) = Unit {0}

  create-IsOff :
      (hash : Text) (g : Generated) (reply : Reply) (name principal : Text) (db : Accounts)
      → text_eq (generate_api_key hash_token g).2 hash ≡ false
      → All (IsOff hash) db.api_keys
      → All (IsOff hash) (create_api_key hash_token uuid g reply name principal db).1.api_keys
  unfolding create_api_key
  create-IsOff hash g answered name principal db h off =
      All-append (IsOff hash) db.api_keys _ off (rw h refl, tt)
  create-IsOff hash g lost_before name principal db h off = off
  create-IsOff hash g lost_after name principal db h off =
      All-append (IsOff hash) db.api_keys _ off (rw h refl, tt)

  committed_keys :
      {A : Type 0} (hash : Text) (reply : Reply) (result : A) (old new : Accounts)
      → All (IsOff hash) old.api_keys
      → All (IsOff hash) new.api_keys
      → All (IsOff hash) (commit reply result old new).1.api_keys
  committed_keys hash answered result old new h h' = h'
  committed_keys hash lost_before result old new h h' = h
  committed_keys hash lost_after result old new h h' = h'

  -- A commit that is answered with its result has stored the new tables.
  committed :
      {A : Type 0} (reply : Reply) (result result' : A) (old new : Accounts)
      → (commit reply result old new).0 ≡ ok result'
      → commit reply result old new ≡ (ok result, new)
  committed answered result result' old new e = refl
  committed lost_before result result' old new e = cc
  committed lost_after result result' old new e = cc

  revoke_missing :
      (id : Text) (reply : Reply) (db : Accounts)
      → get_key id db.api_keys ≡ none
      → revoke_api_key id reply db ≡ (ok (refuse 404 (str "API key not found")), db)
  unfolding revoke_api_key
  revoke_missing id reply db e = ground arith

  revoke_found :
      (id : Text) (reply : Reply) (db : Accounts) (key : ApiKey)
      → get_key id db.api_keys ≡ some key
      → revoke_api_key id reply db
        ≡ commit reply (answer tt) db (record db { api_keys = disable id db.api_keys })
  unfolding revoke_api_key
  revoke_found id reply db key e = ground arith

  revoke-IsOff :
      (hash id : Text) (reply : Reply) (db : Accounts)
      → All (IsOff hash) db.api_keys
      → All (IsOff hash) (revoke_api_key id reply db).1.api_keys
  revoke-IsOff hash id reply db off = elim (Option-cases (get_key id db.api_keys)) [
    | inl missing ↦ rw (revoke_missing id reply db missing) off
    | inr (key, found) ↦ rw (revoke_found id reply db key found) (
        committed_keys hash reply (answer tt) db (record db { api_keys = disable id db.api_keys })
          off (disable-IsOff id hash db.api_keys off))
  ]

  create_user_keys :
      (id : Text) (reply : Reply) (email password : Text) (db : Accounts)
      → (create_admin_user hash_password id reply email password db).1.api_keys ≡ db.api_keys
  unfolding create_admin_user
  create_user_keys id reply email password db = ground arith

  run-IsOff :
      (hash : Text) (ops : List Operation) (db : Accounts)
      → All (Spares hash) ops
      → All (IsOff hash) db.api_keys
      → All (IsOff hash) (run ops db).api_keys
  unfolding run
  run-IsOff hash [] db spares off = off
  run-IsOff hash (create g reply name principal ∷ ops) db (h, spares) off =
      run-IsOff hash ops _ spares (create-IsOff hash g reply name principal db h off)
  run-IsOff hash (revoke id reply ∷ ops) db (_, spares) off =
      run-IsOff hash ops _ spares (revoke-IsOff hash id reply db off)
  run-IsOff hash (create_user id reply email password ∷ ops) db (_, spares) off =
      run-IsOff hash ops _ spares (rw (create_user_keys id reply email password db) off)

  refused_key :
      (raw : Text) (db : Accounts)
      → All (IsOff (hash_token raw)) db.api_keys
      → by_key jwt_decode uuid hash_token (some db) raw ≡ refuse 401 (str "invalid API key")
  unfolding by_key verify_api_key
  refused_key raw db off = rw (find_key-IsOff (some db) (hash_token raw) db.api_keys off) refl

  revoked_keys :
      (id hash : Text) (db : Accounts) (reply : Reply)
      → All (IsOnly id hash) db.api_keys
      → (revoke_api_key id reply db).0 ≡ ok (answer tt)
      → All (IsOff hash) (revoke_api_key id reply db).1.api_keys
  revoked_keys id hash db reply only e = elim (Option-cases (get_key id db.api_keys)) [
    | inl missing ↦ cc (sym (ap (λ r. r.0) (revoke_missing id reply db missing)) ∙ e)
    | inr (key, found) ↦
        let stored = record db { api_keys = disable id db.api_keys } in
        let e' = sym (ap (λ r. r.0) (revoke_found id reply db key found)) ∙ e in
        rw
          (revoke_found id reply db key found, committed reply (answer tt) (answer tt) db stored e')
          (disable_only id hash db.api_keys only)
  ]

  -- Once a revocation has been answered with success, the key is refused for good, whatever
  -- the administrators do next, as long as no new key has its hash. Before it, no other row had
  -- the hash, as the unique index has it.
  pub revocation_is_final :
      (raw id : Text) (db : Accounts) (reply : Reply) (ops : List Operation)
      → All (IsOnly id (hash_token raw)) db.api_keys
      → (revoke_api_key id reply db).0 ≡ ok (answer tt)
      → All (Spares (hash_token raw)) ops
      → by_key jwt_decode uuid hash_token (some (run ops (revoke_api_key id reply db).1)) raw
        ≡ refuse 401 (str "invalid API key")
  revocation_is_final raw id db reply ops only revoked spares = refused_key raw _ (
      run-IsOff (hash_token raw) ops _ spares
        (revoked_keys id (hash_token raw) db reply only revoked))

  added_key :
      (g : Generated) (name principal id : Text) (user : User) (db : Accounts)
      → All (IsOff (generate_api_key hash_token g).2) db.api_keys
      → uuid principal ≡ some id
      → find_user (λ u. text_eq u.id id) db.users ≡ some user
      → user.is_active ≡ true
      → by_key jwt_decode uuid hash_token
          (some (record db {
            api_keys = db.api_keys ++ (issued hash_token uuid g name principal).row ∷ [];
          }))
          (issued hash_token uuid g name principal).api_key
        ≡ answer (by_api_key id)
  unfolding by_key verify_api_key generate_api_key
  added_key g name principal id user db off u found active =
      let row = (issued hash_token uuid g name principal).row in
      rw
        (
          find_key-append (some (record db { api_keys = db.api_keys ++ row ∷ [] })) row.key_hash
              db.api_keys row off (rw (text_eq_refl row.key_hash) refl),
          u,
        )
        (ground arith)

  -- A created key signs its creator in, as the user that the principal is and never as an
  -- administrator, if that user is active and no active key has the hash of the new one.
  pub created_key_works :
      (g : Generated) (name principal id : Text) (user : User) (db db' : Accounts)
      (created : ApiKeyCreated) (reply : Reply)
      → All (IsOff (generate_api_key hash_token g).2) db.api_keys
      → uuid principal ≡ some id
      → find_user (λ u. text_eq u.id id) db.users ≡ some user
      → user.is_active ≡ true
      → create_api_key hash_token uuid g reply name principal db ≡ (ok created, db')
      → by_key jwt_decode uuid hash_token (some db') created.api_key ≡ answer (by_api_key id)
  unfolding create_api_key
  created_key_works g name principal id user db db' created reply off u found active e =
      let made = issued hash_token uuid g name principal in
      let stored = record db { api_keys = db.api_keys ++ made.row ∷ [] } in
      let e' = sym (committed reply made created db stored (ap (λ r. r.0) e)) ∙ e in
      let c : made ≡ created = ground arith in
      let d : stored ≡ db' = ap (λ r. r.1) e' in
      rw (← c, ← d) (added_key g name principal id user db off u found active)
