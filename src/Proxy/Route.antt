-- ===== src/Proxy/Route.antt =====
-- gateway/routes/proxy.py: `proxy`, from the path of a request to its answer.
pub mod Boundary
use adaptive_gateway.Prelude.{
  ℕ, ◌+◌, Bool, true, false, not, ◌&&◌, Option, none, some, List, [], ◌∷◌, ◌++◌, default, length,
  ltb, if◌then◌else◌,
}
use adaptive_gateway.Prelude.Texts.{Text, str, text_eq}
use adaptive_gateway.Prelude.Dicts.{Dict, lookup, has_key, insert}
use adaptive_gateway.Prelude.Floats.{Float}
use adaptive_gateway.Prelude.Results.{
  Exc, value_error, unicode_error, os_error, timeout_error, Result, ok, raise, ◌>>=◌,
}
use adaptive_gateway.Http.{Request, Response}
use adaptive_gateway.Config.{RouteRule, Url, get_route_rule}
use adaptive_gateway.ProxyHttp.Bounded.{Exchange}
use adaptive_gateway.ProxyHttp.Discovery.{Discovery, discover_upstream}
use adaptive_gateway.ProxyHttp.Target.{build_target}
use adaptive_gateway.Redis.{Redis, Reply}
use adaptive_gateway.Cache.{Envelope}
use adaptive_gateway.Queue.{Stream, Policy}
use adaptive_gateway.Proxy.{Caller, cache_key, forward_headers, json_response}
use adaptive_gateway.Proxy.Reads.{Moment, Limits, Served, handle_get}
use adaptive_gateway.Proxy.Writes.{Written, handle_write}

-- except (ValueError, OSError, TimeoutError)
abbrev is_unknown : Exc → Bool
is_unknown value_error = true
is_unknown unicode_error = true
is_unknown os_error = true
is_unknown timeout_error = true
is_unknown _ = false

-- except ValueError
abbrev is_invalid : Exc → Bool
is_invalid value_error = true
is_invalid unicode_error = true
is_invalid _ = false

-- async for chunk in request.stream(): the body, unless it grows beyond the limit
unfoldable pub read_body : ℕ → List (List ℕ) → ℕ → List ℕ → Option (List ℕ)
read_body limit [] size read = some read
read_body limit (chunk ∷ chunks) size read =
    let rest = read_body limit chunks (size + length chunk) (read ++ chunk) in
    if ltb limit (size + length chunk) then none else rest

abbrev pub is_optimizable : Request → Bool
is_optimizable request =
    text_eq request.method (str "GET") && not (has_key (str "range") request.headers)

abbrev unknown_service : Response
unknown_service = json_response 404 (str "{\"detail\":\"unknown upstream service\"}")

abbrev invalid_path : Response
invalid_path = json_response 400 (str "{\"detail\":\"invalid upstream path\"}")

abbrev too_large : Response
too_large = json_response 413 (str "{\"detail\":\"request body too large\"}")

-- What the code outside src/ is for one request: urllib, the resolver, Redis and its clock, the
-- upstream, and what the cache key takes from the standard library.
pub record Outside (F : Type 0) : Type 0 where
  pub urlsplit : Text → Result Url
  pub resolve : Text → Result (List Text)
  pub is_global : Text → Result Bool
  pub dumps : Dict Text → Text
  -- hashlib.sha256(s.encode()).hexdigest(), and json.dumps of a list of pairs
  pub sha256 : Text → Text
  pub dumps_pairs : Dict Text → Text
  pub moment : Moment F
  pub timestamp : Text
  pub queue_reply : Reply

module _ (fl : Float) (env : Envelope fl.F) (r : Redis) (q : Stream) (limits : Limits fl.F)
    (policy : Policy fl.F) (discovery : Discovery) (outside : Outside fl.F) where
  open fl use {F}

  -- The response, the URL that the upstream was called with if it was, and the marks on
  -- request.state that the optimizer reads.
  pub record Routed : Type 0 where
    pub response : Response
    pub called : Option Text
    pub optimizable : Bool
    pub optional_fields : List Text
    pub served_from_cache : Bool

  pub record Stores : Type 0 where
    pub cache : r.S
    pub queue : q.Q

  module _ (caller : Caller) (request : Request) (service : Text) (path : Text) where
    abbrev refused : RouteRule F → Response → Routed
    refused rule response = record {
      response = response;
      called = none;
      optimizable = is_optimizable request;
      optional_fields = rule.optional_fields;
      served_from_cache = false;
    }

    abbrev read_routed : RouteRule F → Text → Served fl env r limits → Routed
    read_routed rule target served = record {
      response = served.response;
      called = if served.called_upstream then some target else none;
      optimizable = is_optimizable request;
      optional_fields = rule.optional_fields;
      served_from_cache = served.served_from_cache;
    }

    abbrev written_routed : RouteRule F → Text → Written F → Routed
    written_routed rule target written = record {
      response = written.response;
      called = some target;
      optimizable = false;
      optional_fields = rule.optional_fields;
      served_from_cache = false;
    }

    abbrev with_host : Option Text → Dict Text → Dict Text
    with_host none headers = headers
    with_host (some host) headers = insert (str "host") host headers

    unfoldable pub dispatched :
        RouteRule F → Text → Dict Text → List ℕ → Stores → Result Routed × Stores
    dispatched rule target headers body stores =
        let (read, cache) =
          handle_get fl env r limits caller request rule
            (cache_key outside.sha256 outside.dumps_pairs target headers) outside.moment
            stores.cache in
        let (written, queue) =
          handle_write fl outside.urlsplit outside.dumps q policy limits.max_response_body_bytes
            caller request outside.moment.elapsed outside.timestamp outside.queue_reply
            rule.queue_writes target headers body outside.moment.exchange stores.queue in
        if text_eq request.method (str "GET")
        then (
          read >>= λ served. ok (read_routed rule target served),
          record { cache = cache; queue = stores.queue },
        )
        else (
          written >>= λ w. ok (written_routed rule target w),
          record { cache = stores.cache; queue = queue },
        )

    unfoldable pub with_body :
        RouteRule F → Text → Option Text → Option (List ℕ) → Stores → Result Routed × Stores
    with_body rule target host none stores = (ok (refused rule too_large), stores)
    with_body rule target host (some body) stores =
        dispatched rule target (with_host host (forward_headers caller request)) body stores

    unfoldable pub at_base :
        RouteRule F → Text → Option Text → List (List ℕ) → Stores → Result Routed × Stores
    at_base rule base host chunks stores =
        elim (build_target outside.urlsplit base path request.query) [
          | ok target ↦
              with_body rule target host (read_body policy.max_request_body_bytes chunks 0 [])
                stores
          | raise e ↦ (if is_invalid e then ok (refused rule invalid_path) else raise e, stores)
        ]

    -- The base of a configured service, or what discovery finds with its Host header.
    abbrev pub base_of : Result (Text × Option Text)
    base_of = elim (lookup service policy.services) [
      | some base ↦ ok (base, none)
      | none ↦ discover_upstream outside.resolve outside.is_global discovery service >>= λ found.
          ok (found.0, some found.1)
    ]

    abbrev unrouted : Routed
    unrouted = record {
      response = unknown_service;
      called = none;
      optimizable = false;
      optional_fields = [];
      served_from_cache = false;
    }

    unfoldable pub proxy : List (List ℕ) → Stores → Result Routed × Stores
    proxy chunks stores =
        let rule = get_route_rule policy.rules policy.default_rule service in
        elim base_of [
          | ok found ↦ at_base rule found.0 found.1 chunks stores
          | raise e ↦ (if is_unknown e then ok unrouted else raise e, stores)
        ]
