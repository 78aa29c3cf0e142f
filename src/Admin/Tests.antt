-- ===== src/Admin/Tests.antt =====
-- A key that is created and revoked, a flush of a store with a lock, and the counts of two rows.
use adaptive_gateway.Prelude.{
  ℕ, ◌≡◌, refl, Bool, true, false, ◌&&◌, ◌||◌, Option, none, some, List, [], ◌∷◌, ◌++◌, arith, any,
  all, select, map, ◌==◌,
}
use adaptive_gateway.Prelude.Texts.{Text, str, text_eq, text_eq_iff, starts_with, texts}
use adaptive_gateway.Prelude.Dicts.{lookup}
use adaptive_gateway.Prelude.Floats.{Fixed, fin}
use adaptive_gateway.Prelude.Results.{ok}
use adaptive_gateway.Http.{LogRecord}
use adaptive_gateway.Redis.{answered, lost_before, table, Table, live}
use adaptive_gateway.Auth.{User, answer, refuse, find_user}
use adaptive_gateway.Auth.Middleware.{Claims, Accounts, by_key}
use adaptive_gateway.Admin.Keys.{
  Generated, ApiKeyCreated, generate_api_key, create_api_key, get_key, revoke_api_key,
}
use adaptive_gateway.Admin.Keys.Revocation.{
  create, revoke, run, by_api_key, revocation_is_final, created_key_works,
}
use adaptive_gateway.Admin.Flush.{Keyspace, KeyspaceLaws, is_plain}

abbrev hash_token : Text → Text
hash_token raw = str "h" ++ raw

abbrev hash_password : Text → Text
hash_password password = password

abbrev uuid : Text → Option Text
uuid s = some s

abbrev jwt_decode : Text → Option Claims
jwt_decode _ = none

abbrev ada : User
ada = record {
  id = str "1";
  email = str "a@b";
  hashed_password = str "x";
  is_active = true;
  is_admin = true;
}

abbrev start : Accounts
start = record { users = ada ∷ []; api_keys = [] }

abbrev first : Generated
first = record { id = str "k1"; token_hex = str "00"; token_urlsafe = str "s" }

abbrev second : Generated
second = record { id = str "k2"; token_hex = str "01"; token_urlsafe = str "s" }

abbrev made : ApiKeyCreated
made = record {
  row = record {
    id = str "k1";
    name = str "ci";
    key_hash = str "hagw_00_s";
    prefix = str "00";
    user_id = some (str "1");
    is_active = true;
  };
  api_key = str "agw_00_s";
}

abbrev stored : Accounts
stored = record { users = ada ∷ []; api_keys = made.row ∷ [] }

creates :
    create_api_key hash_token uuid first answered (str "ci") (str "1") start ≡ (ok made, stored)
unfolding create_api_key generate_api_key
creates = refl

created_key_works_example :
    by_key jwt_decode uuid hash_token (some stored) (str "agw_00_s") ≡ answer (by_api_key (str "1"))
unfolding find_user texts
created_key_works_example =
    created_key_works jwt_decode uuid hash_token hash_password first (str "ci") (str "1") (str "1")
      ada start stored made answered tt refl refl refl creates

revokes : (revoke_api_key (str "k1") answered stored).0 ≡ ok (answer tt)
unfolding revoke_api_key get_key texts
revokes = refl

revocation_is_final_example :
    by_key jwt_decode uuid hash_token
      (some (
        run jwt_decode uuid hash_token hash_password
          (create second answered (str "ci") (str "1") ∷ revoke (str "k9") lost_before ∷ [])
          (revoke_api_key (str "k1") answered stored).1))
      (str "agw_00_s")
    ≡ refuse 401 (str "invalid API key")
unfolding generate_api_key texts
revocation_is_final_example =
    revocation_is_final jwt_decode uuid hash_token hash_password (str "agw_00_s") (str "k1") stored
      answered (create second answered (str "ci") (str "1") ∷ revoke (str "k9") lost_before ∷ [])
      (λ _. refl, tt) revokes (refl, (tt, tt))

-- Patterns in which a star may stand only at the end.
abbrev glob : Text → Text → Bool
glob [] [] = true
glob [] (_ ∷ _) = false
glob (c ∷ p) [] = c == b'*'
glob (c ∷ p) (d ∷ j) = c == b'*' || (c == d && glob p j)

abbrev space : Keyspace table
space = record {
  scan = λ t pattern s. select (glob pattern) (map (λ item. item.0) s);
  matches = glob;
}

glob-start :
    (p rest j : Text) → all is_plain p ≡ true → glob (p ++ rest) j ≡ true → starts_with j p ≡ true
unfolding starts_with
glob-start [] rest j plain m = refl
glob-start (c ∷ p) rest [] plain m = ground arith
glob-start (c ∷ p) rest (d ∷ j) plain m = ground (arith, glob-start p rest j)

glob-star : (p j : Text) → starts_with j p ≡ true → glob (p ++ str "*") j ≡ true
unfolding starts_with
glob-star [] [] h = refl
glob-star [] (d ∷ j) h = refl
glob-star (c ∷ p) [] h = cc
glob-star (c ∷ p) (d ∷ j) h = ground (arith, glob-star p j)

select-glob :
    (pattern j : Text) (keys : List Text)
    → any (text_eq j) (select (glob pattern) keys) ≡ true
    → glob pattern j ≡ true
select-glob pattern j [] h = cc
select-glob pattern j (key ∷ keys) h = ground (arith, text_eq_iff j key, select-glob pattern j keys)

live_key :
    (t : ℕ) (pattern j v : Text) (s : Table)
    → glob pattern j ≡ true
    → live t (lookup j s) ≡ some v
    → any (text_eq j) (select (glob pattern) (map (λ item. item.0) s)) ≡ true
unfolding lookup
live_key t pattern j v [] m there = cc
live_key t pattern j v ((key, stored) ∷ s) m there =
    ground (arith, text_eq_iff j key, text_eq_iff key j, live_key t pattern j v s)

space_laws : KeyspaceLaws table space
space_laws = record {
  scan-matches = λ t pattern s j h. select-glob pattern j (map (λ item. item.0) s) h;
  scan_complete = λ t t' pattern s j v _ m there. live_key t' pattern j v s m there;
  matches-start = glob-start;
  matches-star = λ p j _ h. glob-star p j h;
}

abbrev keys : Table
keys = (str "cache:v2:0", (str "x", 9)) ∷ (str "lock:a", (str "me", 9)) ∷ []

abbrev row : Text → LogRecord Fixed
row quality = record {
  method = str "GET";
  path = str "/";
  network_quality = quality;
  cache_status = str "HIT";
  status_code = 200;
  rtt_ms = fin 0;
  upstream_latency_ms = none;
  response_size_original = 1;
  response_size_optimized = none;
  client_id = [];
}

abbrev rows : List (LogRecord Fixed)
rows = row (str "GOOD") ∷ row (str "POOR") ∷ []
