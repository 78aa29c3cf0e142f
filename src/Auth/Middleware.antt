-- ===== src/Auth/Middleware.antt =====
-- gateway/middleware/auth.py, gateway/auth/dependencies.py and decode_access_token of
-- gateway/auth/security.py: the identity that a request gets, and what routes require of it.
pub mod Identity
use adaptive_gateway.Prelude.{
  ℕ, zero, suc, Bool, true, false, not, ◌&&◌, ◌||◌, Option, none, some, List, [], ◌∷◌, ◌++◌, any,
  default, if◌then◌else◌,
}
use adaptive_gateway.Prelude.Texts.{Text, str, text_eq, starts_with, lower, strip}
use adaptive_gateway.Prelude.Dicts.{lookup}
use adaptive_gateway.Http.{Request}
use adaptive_gateway.Config.{is_empty}
use adaptive_gateway.Auth.{User, Answer, answer, refuse, find_user}

-- What the middleware puts on request.state.
pub record State : Type 0 where
  pub authenticated : Bool
  pub user_id : Option Text
  pub is_admin : Bool
  pub auth_type : Option Text

-- A row of api_keys, without the times that the database keeps.
pub record ApiKey : Type 0 where
  pub id : Text
  pub name : Text
  pub key_hash : Text
  pub prefix : Text
  pub user_id : Option Text
  pub is_active : Bool

pub record Accounts : Type 0 where
  pub users : List User
  pub api_keys : List ApiKey

abbrev public_prefixes : List Text
public_prefixes =
    str "/health"
    ∷ str "/metrics"
    ∷ str "/docs"
    ∷ str "/redoc"
    ∷ str "/openapi.json"
    ∷ str "/auth"
    ∷ str "/favicon.ico"
    ∷ []

unfoldable pub is_public : Text → Bool
is_public path =
    text_eq path (str "/")
    || any (λ p. text_eq path p || starts_with path (p ++ str "/")) public_prefixes

abbrev pub anonymous : State
anonymous = record { authenticated = false; user_id = none; is_admin = false; auth_type = none }

abbrev skip : ℕ → Text → Text
skip zero s = s
skip (suc n) [] = []
skip (suc n) (c ∷ s) = skip n s

-- auth_header[7:].strip()
abbrev pub token_of : Text → Text
token_of header = strip (skip 7 header)

abbrev pub is_bearer : Text → Bool
is_bearer header = starts_with (lower header) (str "bearer ")

-- The claims of a token that the gateway reads: "type" is `none` where it is missing or no text,
-- and jwt.decode refuses a token whose "sub" is missing or no text.
pub record Claims : Type 0 where
  pub kind : Option Text
  pub sub : Text

abbrev pub is_access : Claims → Bool
is_access claims = elim claims.kind [
  | none ↦ false
  | some kind ↦ text_eq kind (str "access") && not (is_empty claims.sub)
]

-- `jwt_decode` is jwt.decode with the gateway's key and algorithm and its required claims, which
-- is `none` for JWTError.
unfoldable pub decode_access_token : (Text → Option Claims) → Text → Option Claims
decode_access_token jwt_decode token = elim (jwt_decode token) [
  | none ↦ none
  | some claims ↦ if is_access claims then some claims else none
]

-- `uuid` is str(uuid.UUID(s)), which is `none` for ValueError. `accounts` is `none` while the
-- database raises SQLAlchemyError.
module _ (jwt_decode : Text → Option Claims) (uuid : Text → Option Text) (hash_token : Text → Text)
    (accounts : Option Accounts) where
  abbrev unavailable : Answer State
  unavailable = refuse 503 (str "authentication unavailable")

  abbrev signed_in : User → State
  signed_in user = record {
    authenticated = true;
    user_id = some user.id;
    is_admin = user.is_admin;
    auth_type = some (str "jwt");
  }

  abbrev active_user : Text → List User → Option User
  active_user id users = elim (find_user (λ u. text_eq u.id id) users) [
    | none ↦ none
    | some user ↦ if user.is_active then some user else none
  ]

  abbrev for_user : Option User → Answer State
  for_user none = refuse 401 (str "invalid or disabled account")
  for_user (some user) = answer (signed_in user)

  abbrev for_subject : Text → Option Accounts → Answer State
  for_subject id none = unavailable
  for_subject id (some db) = for_user (active_user id db.users)

  abbrev for_claims : Claims → Answer State
  for_claims claims = elim (uuid claims.sub) [
    | none ↦ refuse 401 (str "invalid token subject")
    | some id ↦ for_subject id accounts
  ]

  unfoldable pub by_token : Text → Answer State
  by_token token = elim (decode_access_token jwt_decode token) [
    | none ↦ refuse 401 (str "invalid or expired token")
    | some claims ↦ for_claims claims
  ]

  unfoldable pub find_key : Text → List ApiKey → Option ApiKey
  find_key hash [] = none
  find_key hash (k ∷ ks) =
      let later = find_key hash ks in
      if text_eq k.key_hash hash && k.is_active then some k else later

  abbrev owner_of : Text → ApiKey → List User → Option Text
  owner_of id key users = elim (active_user id users) [ none ↦ none | some user ↦ some id ]

  -- An empty user_id is falsy, but a UUID is not empty.
  abbrev pub principal_of : Option ApiKey → List User → Option Text
  principal_of none users = none
  principal_of (some key) users = elim key.user_id [
    | none ↦ some key.id
    | some id ↦ owner_of id key users
  ]

  unfoldable pub verify_api_key : Text → Accounts → Option Text
  verify_api_key raw db = principal_of (find_key (hash_token raw) db.api_keys) db.users

  abbrev with_key : Option Text → Answer State
  with_key none = refuse 401 (str "invalid API key")
  with_key (some principal) = answer (record {
    authenticated = true;
    user_id = some principal;
    is_admin = false;
    auth_type = some (str "api_key");
  })

  abbrev checked_key : Text → Option Accounts → Answer State
  checked_key raw none = unavailable
  checked_key raw (some db) = with_key (verify_api_key raw db)

  unfoldable pub by_key : Text → Answer State
  by_key raw = checked_key raw accounts

  -- The state that the application sees, or the refusal that is sent instead.
  unfoldable pub identify : Request → Answer State
  identify request =
      let header = default (lookup (str "authorization") request.headers) [] in
      let key = default (lookup (str "x-api-key") request.headers) [] in
      if is_public request.path
      then answer anonymous
      else if is_bearer header
      then by_token (token_of header)
      else if not (is_empty key)
      then by_key key
      else if not (is_empty header)
      then refuse 401 (str "unsupported authorization scheme")
      else answer anonymous

unfoldable pub require_principal : State → Answer Text
require_principal state =
    if state.authenticated
    then answer (default state.user_id [])
    else refuse 401 (str "authentication required")

unfoldable pub require_admin : State → Answer Text
require_admin state = elim (require_principal state) [
  | refuse status detail ↦ refuse status detail
  | answer principal ↦
      if state.is_admin then answer principal else refuse 403 (str "admin privileges required")
]
