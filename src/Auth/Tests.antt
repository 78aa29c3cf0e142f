-- ===== src/Auth/Tests.antt =====
-- A refresh token that is presented twice.
use adaptive_gateway.Prelude.{
  ℕ, ◌≡◌, refl, Bool, true, false, Option, none, some, [], ◌∷◌, ◌++◌, All,
}
use adaptive_gateway.Prelude.Texts.{Text, str, texts}
use adaptive_gateway.Prelude.Dicts.{lookup}
use adaptive_gateway.Http.{Request}
use adaptive_gateway.Auth.{
  User, RefreshToken, Database, TokenResponse, answer, refuse, Lifetimes, find_token, find_user,
  revoke, issue_tokens, rotate, refresh,
}
use adaptive_gateway.Auth.Middleware.{
  State, Accounts, Claims, decode_access_token, identify, is_public, by_token, require_admin,
  require_principal, token_of, is_bearer,
}
use adaptive_gateway.Auth.Middleware.Identity.{IsAccount, require_admin_lem}
use adaptive_gateway.Auth.Rotation.{IsRevokedFor, refresh_is_single_use}

abbrev hash_token : Text → Text
hash_token raw = str "h" ++ raw

abbrev access : User → ℕ → Text
access user now = str "jwt"

abbrev hash_password : Text → Text
hash_password password = password

abbrev verify : Text → Text → Bool
verify password hashed = true

abbrev lifetimes : Lifetimes
lifetimes = record { access_token_ttl_minutes = 15; refresh_token_ttl_days = 7 }

abbrev ada : User
ada = record {
  id = str "1";
  email = str "a@b";
  hashed_password = str "x";
  is_active = true;
  is_admin = false;
}

abbrev old : RefreshToken
old = record { token_hash = str "hold"; user_id = str "1"; expires_at = 100; revoked = false }

abbrev before : Database
before = record { users = ada ∷ []; refresh_tokens = old ∷ [] }

abbrev after : Database
after = record {
  users = ada ∷ [];
  refresh_tokens =
      record { token_hash = str "hold"; user_id = str "1"; expires_at = 100; revoked = true }
      ∷ record { token_hash = str "hnew"; user_id = str "1"; expires_at = 604850; revoked = false }
      ∷ [];
}

abbrev fresh : TokenResponse
fresh = record {
  access_token = str "jwt";
  refresh_token = str "new";
  token_type = str "bearer";
  expires_in = 900;
}

rotated :
    refresh hash_token access hash_password verify lifetimes 50 (str "new") (str "old") before
    ≡ (answer fresh, after)
unfolding refresh rotate issue_tokens find_token find_user revoke texts
rotated = refl

refresh_is_single_use_example :
    (stored : RefreshToken) × (find_token (str "hold") (old ∷ []) ≡ some stored)
    × ((refresh hash_token access hash_password verify lifetimes 60
          (str "newer")
          (str "old")
          after).0
        ≡ refuse 401 (str "refresh token reused"))
    × All
        (IsRevokedFor hash_token access hash_password verify lifetimes stored.user_id)
        (refresh hash_token access hash_password verify lifetimes 60
          (str "newer")
          (str "old")
          after).1.refresh_tokens
refresh_is_single_use_example =
    refresh_is_single_use hash_token access hash_password verify lifetimes 50 60 (str "new")
      (str "newer") (str "old") before after fresh rotated

abbrev grace : User
grace = record {
  id = str "7";
  email = str "g@b";
  hashed_password = str "x";
  is_active = true;
  is_admin = true;
}

abbrev accounts : Option Accounts
accounts = some (record { users = ada ∷ grace ∷ []; api_keys = [] })

-- The token of a subject is the subject.
abbrev jwt_decode : Text → Option Claims
jwt_decode token = some (record { kind = some (str "access"); sub = token })

abbrev uuid : Text → Option Text
uuid id = some id

abbrev asking : Request
asking = record {
  method = str "GET";
  path = str "/admin/stats";
  query = [];
  headers = (str "authorization", str "Bearer 7") ∷ [];
  peer = none;
}

abbrev signed_in : State
signed_in = record {
  authenticated = true;
  user_id = some (str "7");
  is_admin = true;
  auth_type = some (str "jwt");
}

identified : identify jwt_decode uuid hash_token accounts asking ≡ answer signed_in
unfolding identify is_public by_token decode_access_token find_user lookup texts
identified = refl

admitted : require_admin signed_in ≡ answer (str "7")
unfolding require_admin require_principal
admitted = refl

require_admin_lem_example :
    (is_public (str "/admin/stats") ≡ false)
    × (is_bearer (str "Bearer 7") ≡ true)
    × (user : User) × IsAccount jwt_decode uuid hash_token accounts (token_of (str "Bearer 7")) user
    × (user.is_admin ≡ true)
    × (str "7" ≡ user.id)
unfolding lookup texts
require_admin_lem_example =
    require_admin_lem jwt_decode uuid hash_token accounts asking signed_in (str "7") identified
      admitted
