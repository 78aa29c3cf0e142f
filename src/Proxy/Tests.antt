-- ===== src/Proxy/Tests.antt =====
-- Reads through the proxy at concrete requests. Proxy/Tests/Writing has writes and whole requests.
mod Writing
use adaptive_gateway.Prelude.{
  ℕ, ◌+◌, ◌*◌, ◌≡◌, refl, ◌⊎◌, Bool, true, false, Option, none, some, [], ◌∷◌, if◌then◌else◌, ◌-◌,
}
use adaptive_gateway.Prelude.Texts.{Text, str, texts}
use adaptive_gateway.Prelude.Dicts.{Dict, lookup, has_key, insert}
use adaptive_gateway.Prelude.Floats.{Fixed, fin, fixed}
use adaptive_gateway.Prelude.Results.{Result, ok, raise, value_error}
use adaptive_gateway.Http.{Request, degraded}
use adaptive_gateway.Config.{RouteRule, Url, get_route_rule}
use adaptive_gateway.ProxyHttp.Bounded.{Exchange, failed, timed_out, streamed, bounded_request}
use adaptive_gateway.ProxyHttp.Discovery.{Discovery}
use adaptive_gateway.Redis.{answered, table, Table}
use adaptive_gateway.Cache.{CachedResponse, Envelope, is_stale, cache_get}
use adaptive_gateway.Cache.Locks.{acquire_lock}
use adaptive_gateway.Queue.{Stream, Policy, enqueue_write}
use adaptive_gateway.Proxy.{Caller, forward_headers, cache_allowed, from_cache, log_request}
use adaptive_gateway.Proxy.Forwarding.{lookup-forward_headers}
use adaptive_gateway.Proxy.Reads.{Moment, Limits, Served, handle_get, answer_found, stale_read}
use adaptive_gateway.Proxy.Reads.Isolation.{IsLeft, private_get_avoids_cache, handle_get_store}
use adaptive_gateway.Proxy.Reads.Flight.{cached_get_needs_no_upstream}
use adaptive_gateway.Proxy.Writes.Queueing.{IsQueued, handle_write_queue}
use adaptive_gateway.Proxy.Writes.{handle_write, answer_write, ambiguous, is_eligible}
use adaptive_gateway.ProxyHttp.Target.{destination_service, rstrip}
use adaptive_gateway.Proxy.Route.{Outside, Stores}
use adaptive_gateway.Proxy.Route.Boundary.{IsIdle, IsHandled, route, proxy_boundary}

abbrev pub caller : Caller
caller = record { ip = str "9.9.9.9"; network_quality = degraded; user_id = none }

abbrev reading : Dict Text → Request
reading headers = record {
  method = str "GET";
  path = str "/proxy/s/a";
  query = [];
  headers = headers;
  peer = some (str "9.9.9.9");
}

abbrev forging : Request
forging = reading ((str "x-forwarded-for", str "1.1.1.1") ∷ (str "accept", str "*/*") ∷ [])

abbrev pub rule : RouteRule Fixed
rule = record {
  cacheable = true;
  cache_ttl = 60;
  optional_fields = [];
  upstream_timeout = none;
  queue_writes = true;
}

abbrev pub limits : Limits Fixed
limits = record {
  max_response_body_bytes = 100;
  revalidate_lock_ttl_seconds = 10;
  upstream_timeout_seconds = fin 10000;
}

abbrev entry : CachedResponse Fixed
entry = record {
  status = 200;
  headers = [];
  body_b64 = str "YQ==";
  media_type = none;
  stored_at = fin 1000000;
  fresh_for = 60;
}

-- One entry, and one body.
abbrev pub env : Envelope Fixed
env = record {
  dump = λ _. str "{}";
  validate = λ _. ok entry;
  b64encode = λ _. str "YQ==";
  b64decode = λ _. ok (str "a");
}

abbrev moment : ℕ → Text → Exchange → Moment Fixed
moment second token exchange = record {
  read_reply = answered;
  lock_reply = answered;
  write_reply = answered;
  second = second;
  now = fin (second * 1000);
  later_second = second + 1;
  later_now = fin (second * 1000 + 1000);
  exchange = exchange;
  token = token;
  elapsed = fin 5;
}

abbrev pub key : Text
key = str "cache:v2:0"

abbrev cached : Table
cached = (key, (str "{}", 90000)) ∷ []

abbrev secret : Request
secret = reading ((str "authorization", str "Bearer x") ∷ [])

private_get_avoids_cache_example :
    ((handle_get fixed env table limits caller secret rule key
        (moment 1010 (str "t") (failed timed_out))
        cached).1
      ≡ cached)
    × ((handle_get fixed env table limits caller secret rule key
          (moment 1010 (str "t") (failed timed_out))
          cached).0
        ≡ (handle_get fixed env table limits caller secret rule key
            (moment 1010 (str "t") (failed timed_out))
            []).0)
    × (served : Served fixed env table limits) × ((handle_get fixed env table limits caller secret
          rule key
          (moment 1010 (str "t") (failed timed_out))
          cached).0
        ≡ ok served)
    × (served.called_upstream ≡ true)
    × (served.served_from_cache ≡ false)
unfolding cache_allowed has_key texts
private_get_avoids_cache_example =
    private_get_avoids_cache fixed env table limits caller secret rule key
      (moment 1010 (str "t") (failed timed_out)) cached [] refl

abbrev answering : Exchange
answering = streamed 200 [] [] (str "b" ∷ []) none

handle_get_store_example :
    IsLeft fixed env table limits caller
      (reading [])
      rule
      key
      (moment 1010 (str "t") answering)
      []
      (handle_get fixed env table limits caller
        (reading [])
        rule
        key
        (moment 1010 (str "t") answering)
        []).1
handle_get_store_example =
    handle_get_store fixed env table limits caller (reading []) rule key
      (moment 1010 (str "t") answering) []

abbrev get : Moment Fixed → Table → Result (Served fixed env table limits) × Table
get = handle_get fixed env table limits caller (reading []) rule key

-- The first and the second of two reads of a stale entry.
abbrev pub first : Moment Fixed
first = moment 1070 (str "t") (failed timed_out)

abbrev second : Moment Fixed
second = moment 1075 (str "u") (failed timed_out)

abbrev served_by : Result (Served fixed env table limits) → Option (Served fixed env table limits)
served_by (ok served) = some served
served_by (raise _) = none

-- Everything that a read of the cache computes with.
reads : Unit {0}
unfolding handle_get answer_found stale_read cache_get is_stale acquire_lock cache_allowed has_key
    lookup insert texts
reads = tt

abbrev stale_served : Text → Moment Fixed → Bool → Served fixed env table limits
stale_served token m wins = record {
  response = from_cache fixed entry (str "a") (fin (m.second * 1000 - 1000000)) (str "STALE");
  logged = log_request fixed caller (reading []) (fin 5) (str "STALE") 200 1;
  spawned =
      if wins
      then some (record { lock_name = str "revalidate:cache:v2:0"; token = token })
      else none;
  called_upstream = false;
  served_from_cache = true;
}
