-- ===== src/Admin/Keys.antt =====
-- gateway/routes/admin.py with generate_api_key of gateway/auth/security.py: API keys and users. A
-- commit that fails leaves the tables as they were.
pub mod Revocation
use adaptive_gateway.Prelude.{
  ℕ, Bool, true, false, Option, none, some, List, [], ◌∷◌, ◌++◌, map, is_some, if◌then◌else◌,
}
use adaptive_gateway.Prelude.Texts.{Text, str, text_eq}
use adaptive_gateway.Prelude.Results.{Result, ok, raise, database_error}
use adaptive_gateway.Redis.{Reply, answered, lost_before, lost_after, effect}
use adaptive_gateway.Auth.{User, Answer, answer, refuse, find_user}
use adaptive_gateway.Auth.Middleware.{ApiKey, Accounts}

-- What the secrets module and the database generate for one key.
pub record Generated : Type 0 where
  pub id : Text
  pub token_hex : Text
  pub token_urlsafe : Text

-- generate_api_key: the raw key, its prefix, its hash
unfoldable pub generate_api_key : (Text → Text) → Generated → Text × Text × Text
generate_api_key hash_token g =
    let raw = str "agw_" ++ (g.token_hex ++ (str "_" ++ g.token_urlsafe)) in
    (raw, g.token_hex, hash_token raw)

-- APIKeyCreated: the row, and the raw key, which is not stored.
pub record ApiKeyCreated : Type 0 where
  pub row : ApiKey
  pub api_key : Text

-- await db.commit() with its answer, or SQLAlchemyError
abbrev pub commit : {A : Type 0} → Reply → A → Accounts → Accounts → Result A × Accounts
commit answered result old new = (ok result, new)
commit lost_before result old new = (raise database_error, old)
commit lost_after result old new = (raise database_error, new)

abbrev pub issued : (Text → Text) → (Text → Option Text) → Generated → Text → Text → ApiKeyCreated
issued hash_token uuid g name principal =
    let (raw, prefix, key_hash) = generate_api_key hash_token g in
    record {
      row = record {
        id = g.id;
        name = name;
        key_hash = key_hash;
        prefix = prefix;
        user_id = uuid principal;
        is_active = true;
      };
      api_key = raw;
    }

-- `uuid` is str(uuid.UUID(s)), and `none` where that raises ValueError.
unfoldable pub create_api_key :
    (Text → Text)
    → (Text → Option Text)
    → Generated
    → Reply
    → Text
    → Text
    → Accounts
    → Result ApiKeyCreated × Accounts
create_api_key hash_token uuid g reply name principal db =
    let created = issued hash_token uuid g name principal in
    commit reply created db (record db { api_keys = db.api_keys ++ created.row ∷ [] })

-- db.get(APIKey, key_id)
unfoldable pub get_key : Text → List ApiKey → Option ApiKey
get_key id [] = none
get_key id (k ∷ ks) = let later = get_key id ks in if text_eq k.id id then some k else later

-- key.is_active = False
unfoldable pub disable : Text → List ApiKey → List ApiKey
disable id [] = []
disable id (k ∷ ks) =
    (if text_eq k.id id then record k { is_active = false } else k) ∷ disable id ks

unfoldable pub revoke_api_key : Text → Reply → Accounts → Result (Answer (Unit {0})) × Accounts
revoke_api_key id reply db = elim (get_key id db.api_keys) [
  | none ↦ (ok (refuse 404 (str "API key not found")), db)
  | some key ↦ commit reply (answer tt) db (record db { api_keys = disable id db.api_keys })
]

abbrev admin_user : Text → Text → Text → User
admin_user id email hashed_password = record {
  id = id;
  email = email;
  hashed_password = hashed_password;
  is_active = true;
  is_admin = true;
}

unfoldable pub create_admin_user :
    (Text → Text) → Text → Reply → Text → Text → Accounts → Result (Answer User) × Accounts
create_admin_user hash_password id reply email password db =
    let user = admin_user id email (hash_password password) in
    let added = commit reply (answer user) db (record db { users = db.users ++ user ∷ [] }) in
    if is_some (find_user (λ u. text_eq u.email email) db.users)
    then (ok (refuse 409 (str "email already registered")), db)
    else added
