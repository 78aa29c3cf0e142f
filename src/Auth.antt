-- ===== src/Auth.antt =====
-- gateway/routes/auth.py with the token helpers of gateway/auth/security.py: the database's users and
-- refresh tokens, and the routes on them. Times are seconds. A route runs in one transaction.
pub mod Middleware
pub mod Rotation
mod Tests
use adaptive_gateway.Prelude.{
  ℕ, ◌+◌, ◌*◌, Bool, true, false, not, ◌||◌, Option, none, some, List, [], ◌∷◌, ◌++◌, map, ltb,
  if◌then◌else◌,
}
use adaptive_gateway.Prelude.Texts.{Text, str, text_eq}

pub record User : Type 0 where
  pub id : Text
  pub email : Text
  pub hashed_password : Text
  pub is_active : Bool
  pub is_admin : Bool

pub record RefreshToken : Type 0 where
  pub token_hash : Text
  pub user_id : Text
  pub expires_at : ℕ
  pub revoked : Bool

pub record Database : Type 0 where
  pub users : List User
  pub refresh_tokens : List RefreshToken

pub record TokenResponse : Type 0 where
  pub access_token : Text
  pub refresh_token : Text
  pub token_type : Text
  pub expires_in : ℕ

-- The answer of a route: its value, or HTTPException with its status and detail.
pub data Answer (A : Type 0) : Type 0 where
  answer : A → Answer A
  refuse : ℕ → Text → Answer A

-- settings.access_token_ttl_minutes, settings.refresh_token_ttl_days
pub record Lifetimes : Type 0 where
  pub access_token_ttl_minutes : ℕ
  pub refresh_token_ttl_days : ℕ

unfoldable pub find_token : Text → List RefreshToken → Option RefreshToken
find_token hash [] = none
find_token hash (t ∷ ts) =
    let later = find_token hash ts in if text_eq t.token_hash hash then some t else later

unfoldable pub find_user : (User → Bool) → List User → Option User
find_user p [] = none
find_user p (u ∷ us) = let later = find_user p us in if p u then some u else later

-- update(RefreshToken).where(p).values(revoked=True)
unfoldable pub revoke : (RefreshToken → Bool) → List RefreshToken → List RefreshToken
revoke p [] = []
revoke p (t ∷ ts) = (if p t then record t { revoked = true } else t) ∷ revoke p ts

-- SHA-256, the signed access token of a user, bcrypt and its check.
module _ (hash_token : Text → Text) (create_access_token : User → ℕ → Text)
    (hash_password : Text → Text) (verify_password : Text → Text → Bool)
    (lifetimes : Lifetimes) where
  abbrev pub issued_token : ℕ → Text → User → RefreshToken
  issued_token now raw user = record {
    token_hash = hash_token raw;
    user_id = user.id;
    expires_at = now + lifetimes.refresh_token_ttl_days * 86400;
    revoked = false;
  }

  -- `raw` is the random token of generate_refresh_token
  unfoldable pub issue_tokens : ℕ → Text → User → Database → TokenResponse × Database
  issue_tokens now raw user db = (
    record {
      access_token = create_access_token user now;
      refresh_token = raw;
      token_type = str "bearer";
      expires_in = lifetimes.access_token_ttl_minutes * 60;
    },
    record db { refresh_tokens = db.refresh_tokens ++ issued_token now raw user ∷ [] },
  )

  abbrev granted : TokenResponse × Database → Answer TokenResponse × Database
  granted (tokens, db) = (answer tokens, db)

  abbrev added : Text → Text → Text → Database → Answer User × Database
  added new_id email password db =
      let user : User = record {
        id = new_id;
        email = email;
        hashed_password = hash_password password;
        is_active = true;
        is_admin = false;
      } in
      (answer user, record db { users = db.users ++ user ∷ [] })

  -- `barred` is what enforce_rate_limit raises, if it does.
  unfoldable pub register :
      Option (ℕ × Text) → Text → Text → Text → Database → Answer User × Database
  register (some (status, detail)) new_id email password db = (refuse status detail, db)
  register none new_id email password db = elim (find_user (λ u. text_eq u.email email) db.users) [
    | some _ ↦ (refuse 409 (str "email already registered"), db)
    | none ↦ added new_id email password db
  ]

  abbrev let_in : ℕ → Text → Text → Option User → Database → Answer TokenResponse × Database
  let_in now raw password none db = (refuse 401 (str "invalid credentials"), db)
  let_in now raw password (some user) db =
      if not (verify_password password user.hashed_password)
      then (refuse 401 (str "invalid credentials"), db)
      else if not user.is_active
      then (refuse 403 (str "account disabled"), db)
      else granted (issue_tokens now raw user db)

  unfoldable pub login :
      Option (ℕ × Text) → ℕ → Text → Text → Text → Database → Answer TokenResponse × Database
  login (some (status, detail)) now raw email password db = (refuse status detail, db)
  login none now raw email password db =
      let_in now raw password (find_user (λ u. text_eq u.email email) db.users) db

  abbrev pub is_stored : Text → RefreshToken → Bool
  is_stored hash t = text_eq t.token_hash hash

  abbrev pub is_of : Text → RefreshToken → Bool
  is_of user_id t = text_eq t.user_id user_id

  abbrev pub revoked_in : (RefreshToken → Bool) → Database → Database
  revoked_in p db = record db { refresh_tokens = revoke p db.refresh_tokens }

  unfoldable pub rotate : ℕ → Text → Text → Option User → Database → Answer TokenResponse × Database
  rotate now raw hash none db = (refuse 401 (str "invalid refresh token"), db)
  rotate now raw hash (some user) db =
      if not user.is_active
      then (refuse 401 (str "invalid refresh token"), db)
      else granted (issue_tokens now raw user (revoked_in (is_stored hash) db))

  -- `new` is the random token that a rotation issues.
  unfoldable pub refresh : ℕ → Text → Text → Database → Answer TokenResponse × Database
  refresh now new presented db =
      let hash = hash_token presented in
      elim (find_token hash db.refresh_tokens) [
        | none ↦ (refuse 401 (str "invalid refresh token"), db)
        | some stored ↦
            if stored.revoked
            then (refuse 401 (str "refresh token reused"), revoked_in (is_of stored.user_id) db)
            else if ltb stored.expires_at now
            then (refuse 401 (str "refresh token expired"), db)
            else rotate now new hash (find_user (λ u. text_eq u.id stored.user_id) db.users) db
      ]

  unfoldable pub logout : Text → Database → Database
  logout presented db = revoked_in (is_stored (hash_token presented)) db
