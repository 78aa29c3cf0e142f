-- ===== src/Cache.antt =====
-- gateway/cache/redis_client.py: the response cache with its two ages. The locks are in Cache/Locks.
-- The JSON form of an entry (pydantic) and base64 are the record Envelope.
pub mod Locks
mod Laws
mod Tests
use adaptive_gateway.Prelude.{
  ℕ, ◌+◌, max, Bool, true, false, Option, none, some, List, [], ◌∷◌, ◌++◌, if◌then◌else◌,
}
use adaptive_gateway.Prelude.Texts.{Text, str, upper, join}
use adaptive_gateway.Prelude.Dicts.{Dict}
use adaptive_gateway.Prelude.Floats.{Float}
use adaptive_gateway.Prelude.Results.{
  Exc, value_error, type_error, unicode_error, Result, ok, raise, ◌>>=◌,
}
use adaptive_gateway.Redis.{Redis, Reply, answered, effect}

-- STALE_GRACE_SECONDS
abbrev pub stale_grace_seconds : ℕ
stale_grace_seconds = 86400

-- `sha256` is hashlib.sha256(s.encode()).hexdigest()
unfoldable pub build_cache_key : (Text → Text) → Text → Text → Text → Text → Text
build_cache_key sha256 method path query_string variant =
    let parts = upper method ∷ path ∷ query_string ∷ variant ∷ [] in
    str "cache:v2:" ++ sha256 (join (0 ∷ []) parts)

pub data CacheStatus : Type 0 where
  hit miss stale : CacheStatus

abbrev pub status_name : CacheStatus → Text
status_name hit = str "HIT"
status_name miss = str "MISS"
status_name stale = str "STALE"

pub record CachedResponse (F : Type 0) : Type 0 where
  pub status : ℕ
  pub headers : Dict Text
  pub body_b64 : Text
  pub media_type : Option Text
  pub stored_at : F
  pub fresh_for : ℕ

pub record Envelope (F : Type 0) : Type 0 where
  -- entry.model_dump_json(), CachedResponse.model_validate_json(raw)
  pub dump : CachedResponse F → Text
  pub validate : Text → Result (CachedResponse F)
  pub b64encode : List ℕ → Text
  pub b64decode : Text → Result (List ℕ)

-- except (ValueError, TypeError), of which UnicodeError is one
abbrev pub is_malformed : Exc → Bool
is_malformed value_error = true
is_malformed type_error = true
is_malformed unicode_error = true
is_malformed _ = false

module _ (fl : Float) (env : Envelope fl.F) where
  open fl use {F}

  abbrev pub build : F → ℕ → Dict Text → List ℕ → Option Text → ℕ → CachedResponse F
  build now status headers body media_type fresh_for = record {
    status = status;
    headers = headers;
    body_b64 = env.b64encode body;
    media_type = media_type;
    stored_at = now;
    fresh_for = fresh_for;
  }

  abbrev pub body_of : CachedResponse F → Result (List ℕ)
  body_of entry = env.b64decode entry.body_b64

  abbrev pub age_seconds : F → CachedResponse F → F
  age_seconds now entry = fl.sub now entry.stored_at

  unfoldable pub is_stale : F → CachedResponse F → Bool
  is_stale now entry = fl.le (fl.of_ℕ entry.fresh_for) (age_seconds now entry)

  abbrev pub Found : Type 0
  Found = CacheStatus × Option (CachedResponse F)

  abbrev judged : F → CachedResponse F → Found
  judged now entry = (if is_stale now entry then stale else hit, some entry)

  abbrev forgiven : Result Found → Result Found
  forgiven (ok found) = ok found
  forgiven (raise e) = if is_malformed e then ok (miss, none) else raise e

  abbrev parsed : F → Text → Result Found
  parsed now raw = env.validate raw >>= λ entry. body_of entry >>= λ body. ok (judged now entry)

  abbrev read_entry : F → Option Text → Result Found
  read_entry now none = ok (miss, none)
  read_entry now (some raw) = forgiven (parsed now raw)

  module _ (r : Redis) where
    -- `t` is the second of Redis's clock, `now` the gateway's time.time()
    unfoldable pub cache_get : Reply → ℕ → F → Text → r.S → Result Found
    cache_get answered t now key s = read_entry now (r.get t key s)
    cache_get _ t now key s = ok (miss, none)

    abbrev pub physical_ttl : CachedResponse F → ℕ
    physical_ttl entry = max (entry.fresh_for + stale_grace_seconds) 1

    unfoldable pub cache_set : Reply → ℕ → Text → CachedResponse F → r.S → r.S
    cache_set reply t key entry s =
        effect reply s (r.set_ex t (physical_ttl entry) key (env.dump entry) s)
