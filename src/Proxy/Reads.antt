-- ===== src/Proxy/Reads.antt =====
-- gateway/routes/proxy.py: `_handle_get` and the background refresh. A Moment is what the outside
-- does during one GET: Redis's replies and clock, the gateway's clock, the upstream's exchange, and
-- the random token of the lock.
pub mod Isolation
pub mod Flight
use adaptive_gateway.Prelude.{
  ℕ, ◌+◌, max, Bool, true, false, not, ◌&&◌, Option, none, some, List, [], ◌∷◌, ◌++◌, default,
  length, if◌then◌else◌,
}
use adaptive_gateway.Prelude.Texts.{Text, str, lower}
use adaptive_gateway.Prelude.Dicts.{Dict, lookup}
use adaptive_gateway.Prelude.Floats.{Float}
use adaptive_gateway.Prelude.Ints.{pos_part}
use adaptive_gateway.Prelude.Results.{Result, ok, raise, ◌>>=◌}
use adaptive_gateway.Http.{Request, Response, LogRecord}
use adaptive_gateway.Config.{RouteRule}
use adaptive_gateway.ProxyHttp.{clean_headers}
use adaptive_gateway.ProxyHttp.Bounded.{
  Exchange, Upstream, Fetched, fetched, unfetched, bounded_request,
}
use adaptive_gateway.Redis.{Redis, Reply}
use adaptive_gateway.Cache.{
  CacheStatus, hit, miss, stale, CachedResponse, Envelope, Found, build, body_of, age_seconds,
  cache_get, cache_set,
}
use adaptive_gateway.Cache.Locks.{acquire_lock, release_lock}
use adaptive_gateway.Proxy.{
  Caller, cache_allowed, response_cacheable, from_upstream, from_cache, json_response, log_request,
}

pub record Moment (F : Type 0) : Type 0 where
  pub read_reply : Reply
  pub lock_reply : Reply
  pub write_reply : Reply
  -- the second of Redis's clock and the gateway's time.time(), before and after the upstream's answer
  pub second : ℕ
  pub now : F
  pub later_second : ℕ
  pub later_now : F
  pub exchange : Exchange
  pub token : Text
  pub elapsed : F

-- settings.max_response_body_bytes, settings.revalidate_lock_ttl_seconds and
-- settings.upstream_timeout_seconds
pub record Limits (F : Type 0) : Type 0 where
  pub max_response_body_bytes : ℕ
  pub revalidate_lock_ttl_seconds : ℕ
  pub upstream_timeout_seconds : F

module _ (fl : Float) (env : Envelope fl.F) (r : Redis) (limits : Limits fl.F) where
  open fl use {F}

  -- The lock that a background refresh holds, which is spawned with its key and token.
  pub record Refresh : Type 0 where
    pub lock_name : Text
    pub token : Text

  -- The response, the log row, what is spawned, whether the upstream was called, and
  -- request.state.served_from_cache.
  pub record Served : Type 0 where
    pub response : Response
    pub logged : LogRecord F
    pub spawned : Option Refresh
    pub called_upstream : Bool
    pub served_from_cache : Bool

  abbrev pub entry_of : RouteRule F → F → Upstream → CachedResponse F
  entry_of rule now response =
      build fl env now response.status (clean_headers response.headers) response.content
        (lookup (str "content-type") response.headers) rule.cache_ttl

  abbrev pub store : Reply → ℕ → F → RouteRule F → Text → Upstream → r.S → r.S
  store reply second now rule key response s =
      cache_set fl env r reply second key (entry_of rule now response) s

  abbrev pub revalidate_lock : Text → Text
  revalidate_lock key = str "revalidate:" ++ key

  abbrev timeout_of : RouteRule F → F
  timeout_of rule = default rule.upstream_timeout limits.upstream_timeout_seconds

  -- max(settings.revalidate_lock_ttl_seconds, int(timeout) + 5)
  abbrev pub lock_ttl : RouteRule F → ℕ
  lock_ttl rule = max limits.revalidate_lock_ttl_seconds (pos_part (fl.trunc (timeout_of rule)) + 5)

  module _ (caller : Caller) (request : Request) (rule : RouteRule F) (key : Text) where
    abbrev pub is_cacheable : Bool
    is_cacheable = rule.cacheable && cache_allowed request

    abbrev row : Moment F → Text → ℕ → ℕ → LogRecord F
    row m status code size = log_request fl caller request m.elapsed status code size

    -- entry.body has been decoded by cache_get, so the decoder gives it again
    abbrev pub cached : Moment F → Text → Option Refresh → CachedResponse F → List ℕ → Served
    cached m status spawned entry body = record {
      response = from_cache fl entry body (age_seconds fl env m.now entry) status;
      logged = row m status entry.status (length body);
      spawned = spawned;
      called_upstream = false;
      served_from_cache = true;
    }

    abbrev fresh_read : Moment F → CachedResponse F → r.S → Result Served × r.S
    fresh_read m entry s =
        (body_of fl env entry >>= λ body. ok (cached m (str "HIT") none entry body), s)

    abbrev pub refresh_of : Option Text → Option Refresh
    refresh_of none = none
    refresh_of (some token) = some (record { lock_name = revalidate_lock key; token = token })

    unfoldable pub stale_read : Moment F → CachedResponse F → r.S → Result Served × r.S
    stale_read m entry s =
        let (token, s') =
          acquire_lock r m.lock_reply m.second m.token (revalidate_lock key) (lock_ttl rule) s in
        (
          body_of fl env entry >>= λ body.
              ok (cached m (str "STALE") (refresh_of token) entry body),
          s',
        )

    abbrev uncached : Moment F → Response → Text → ℕ → ℕ → Served
    uncached m response status code size = record {
      response = response;
      logged = row m status code size;
      spawned = none;
      called_upstream = true;
      served_from_cache = false;
    }

    abbrev unavailable : Response
    unavailable = json_response 503 (str "{\"detail\":\"upstream unavailable\"}")

    unfoldable pub missed : Moment F → Fetched → r.S → Served × r.S
    missed m (unfetched _) s = (uncached m unavailable (str "MISS") 503 0, s)
    missed m (fetched response) s = (
      uncached m (from_upstream response (if is_cacheable then str "MISS" else str "BYPASS"))
          (str "MISS") response.status (length response.content),
      if is_cacheable && response_cacheable response
          then store m.write_reply m.later_second m.later_now rule key response s
          else s,
    )

    abbrev on_miss : Moment F → r.S → Result Served × r.S
    on_miss m s =
        let (served, s') = missed m (bounded_request limits.max_response_body_bytes m.exchange) s in
        (ok served, s')

    unfoldable pub answer_found : Moment F → Found fl env → r.S → Result Served × r.S
    answer_found m (hit, some entry) s = fresh_read m entry s
    answer_found m (stale, some entry) s = stale_read m entry s
    answer_found m (miss, found) s = on_miss m s
    answer_found m (hit, none) s = on_miss m s
    answer_found m (stale, none) s = on_miss m s

    abbrev pub look_up : Moment F → r.S → Result (Found fl env)
    look_up m s =
        if is_cacheable
        then cache_get fl env r m.read_reply m.second m.now key s
        else ok (miss, none)

    unfoldable pub handle_get : Moment F → r.S → Result Served × r.S
    handle_get m s = elim (look_up m s) [
      | raise e ↦ (raise e, s)
      | ok found ↦ answer_found m found s
    ]

    unfoldable pub revalidated : Moment F → Fetched → r.S → r.S
    revalidated m (unfetched _) s = s
    revalidated m (fetched response) s =
        if response_cacheable response
        then store m.write_reply m.later_second m.later_now rule key response s
        else s

    -- The refresh that a STALE read spawns, which runs later. `release_reply` is Redis's answer to
    -- the release of the lock in the finally block.
    unfoldable pub refresh_cache : Reply → ℕ → Text → Moment F → r.S → r.S
    refresh_cache release_reply release_second token m s =
        release_lock r release_reply release_second (revalidate_lock key) token
          (revalidated m (bounded_request limits.max_response_body_bytes m.exchange) s)
