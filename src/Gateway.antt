-- ===== src/Gateway.antt =====
-- gateway/main.py: the middleware around the routes, from the body limit inwards, and the dispatch of
-- gateway/middleware/auth.py. CORS, the routing and the handlers of the routes are arguments.
pub mod Layers
pub mod Tiers
mod Tests
use adaptive_gateway.Prelude.{
  ℕ, Bool, true, false, Option, none, some, List, [], ◌∷◌, ◌++◌, any, ◌==◌, if◌then◌else◌,
}
use adaptive_gateway.Prelude.Texts.{Text, str, starts_with}
use adaptive_gateway.Prelude.Dicts.{Dict}
use adaptive_gateway.Prelude.Floats.{Float}
use adaptive_gateway.Prelude.Results.{Exc, Result, ok, raise}
use adaptive_gateway.Config.{Url}
use adaptive_gateway.Http.{NetworkQuality, Request, Response, LogRecord}
use adaptive_gateway.Rtt.{Thresholds}
use adaptive_gateway.Auth.{Answer, answer, refuse}
use adaptive_gateway.Auth.Middleware.{State, Claims, Accounts, identify}
use adaptive_gateway.Proxy.{json_response}
use adaptive_gateway.Redis.{Reply}
use adaptive_gateway.RateLimit.{
  Counters, Verdict, verdict, unavailable, check_rate_limit, skip_prefixes, with_limits, too_many,
  no_limiter,
}
use adaptive_gateway.Detector.State.{Codec}
use adaptive_gateway.Detector.Update.{Attempt}
use adaptive_gateway.Detector.Dispatch.{Inner, Dispatched}
use adaptive_gateway.Detector.Dispatch
use adaptive_gateway.Optimizer.Modes.{Policy, RouteState}
use adaptive_gateway.Optimizer.Dispatch as Optimizing
use adaptive_gateway.BodyLimit as Body
use adaptive_gateway.BodyLimit.{Scope, Inbox, Arrival, body_limit}

-- What a route leaves: its response, and what it put on request.state.
pub record Handled (F : Type 0) : Type 0 where
  pub response : Response
  pub optimizable : Bool
  pub optional_fields : List Text
  pub served_from_cache : Bool
  pub upstream_latency_ms : Option F
  pub request_log_record : Option (LogRecord F)
  -- the label of the route
  pub route : Text

-- {"detail": detail} of the authentication middleware: 503, or 401 with a challenge
unfoldable pub auth_refusal : ℕ → Text → Response
auth_refusal status detail =
    let refused = json_response status (str "{\"detail\":\"" ++ (detail ++ str "\"}")) in
    if status == 401
    then record refused { headers = (str "www-authenticate", str "Bearer") ∷ refused.headers }
    else refused

abbrev pub respond : {F : Type 0} → Result (Dispatched F) × Dict Text → Result Response × Dict Text
respond (raise e, store) = (raise e, store)
respond (ok d, store) = (ok d.response, store)

-- A request within the limit goes on, and its response is given the limiter's headers.
abbrev pub after_limit :
    {S : Type 0} → Counters → Bool → ℕ → ℕ → Verdict → Result Response × S → S → Result Response × S
after_limit c is_production limit window unavailable inner s = (ok (no_limiter c is_production), s)
after_limit c is_production limit window (verdict false remaining) inner s =
    (ok (too_many c is_production window), s)
after_limit c is_production limit window (verdict true remaining) (raise e, s') s = (raise e, s')
after_limit c is_production limit window (verdict true remaining) (ok response, s') s =
    (ok (with_limits c is_production limit remaining response), s')

-- A middleware that is only added on a setting, and passes some paths on.
abbrev pub installed {ℓ} : {A : Type ℓ} → Bool → Bool → A → A → A
installed enabled skipped inner outer = if enabled then if skipped then inner else outer else inner

-- What Redis and the other workers do during one request, with the clock.
pub record Surroundings (F : Type 0) : Type 0 where
  pub now : ℕ
  pub limiter_reply : Reply
  pub state_reply : Dict Text → Result (Option Text)
  pub schedule : List Attempt
  pub elapsed_ms : F

pub record Limits : Type 0 where
  pub rate_limit_enabled : Bool
  pub global_rate_limit : ℕ
  pub global_rate_window_seconds : ℕ
  pub max_request_body_bytes : ℕ

module _ (fl : Float) (codec : Codec fl.F) (compress : List ℕ → List ℕ)
    (jwt_decode : Text → Option Claims) (uuid : Text → Option Text) (hash_token : Text → Text)
    (accounts : Option Accounts) (c : Counters) (is_production : Bool) (t : Thresholds fl)
    (policy : Policy) (limits : Limits) where
  open fl use {F}

  -- ResponseOptimizerMiddleware around the route
  unfoldable pub optimized : Request → F → NetworkQuality → Handled F → Inner F
  optimized req elapsed quality handled =
      let state : RouteState = record {
        optimizable = handled.optimizable;
        optional_fields = handled.optional_fields;
        served_from_cache = handled.served_from_cache;
        network_quality = quality;
      } in
      let o = Optimizing.dispatch fl codec compress policy req state handled.response in
      record {
        response = o.response;
        elapsed_ms = elapsed;
        upstream_latency_ms = handled.upstream_latency_ms;
        request_log_record = handled.request_log_record;
        response_size_optimized = o.size;
        route = handled.route;
        served_from_cache = handled.served_from_cache;
      }

  -- A refused request has no route, and leaves nothing on request.state.
  abbrev turned_away : F → ℕ → Text → Inner F
  turned_away elapsed status detail = record {
    response = auth_refusal status detail;
    elapsed_ms = elapsed;
    upstream_latency_ms = none;
    request_log_record = none;
    response_size_optimized = none;
    route = str "unmatched";
    served_from_cache = false;
  }

  -- AuthMiddleware.dispatch
  abbrev pub admit :
      Request → F → (State → NetworkQuality → Handled F) → NetworkQuality → Answer State → Inner F
  admit req elapsed route quality (refuse status detail) = turned_away elapsed status detail
  admit req elapsed route quality (answer state) =
      optimized req elapsed quality (route state quality)

  unfoldable pub authenticated :
      Request → F → (State → NetworkQuality → Handled F) → NetworkQuality → Inner F
  authenticated req elapsed route quality =
      admit req elapsed route quality (identify jwt_decode uuid hash_token accounts req)

  -- NetworkDetectorMiddleware and what is inside it
  unfoldable pub detected :
      Surroundings F
      → Text
      → Request
      → (State → NetworkQuality → Handled F)
      → Dict Text
      → Result Response × Dict Text
  detected around client_id req route store = respond (
      Dispatch.dispatch fl codec t client_id (authenticated req around.elapsed_ms route)
        around.state_reply around.schedule req store)

  -- RateLimitMiddleware, where it is enabled, and what is inside it
  unfoldable pub limited :
      Surroundings F
      → Text
      → Text
      → Request
      → (State → NetworkQuality → Handled F)
      → c.S
      → Dict Text
      → (Result Response × Dict Text) × c.S
  limited around ip client_id req route counters store =
      let inner = detected around client_id req route store in
      let (v, counters') =
        check_rate_limit c is_production around.limiter_reply around.now
          (str "ratelimit:global:" ++ ip) limits.global_rate_limit limits.global_rate_window_seconds
          counters in
      installed limits.rate_limit_enabled
        (any (starts_with req.path) (skip_prefixes c is_production)) (inner, counters)
        (
          after_limit c is_production limits.global_rate_limit limits.global_rate_window_seconds v
              inner store,
          counters',
        )

  -- What the client is sent, if anything, with the detector's store and the limiter's counters.
  abbrev pub Sent : Type 0
  Sent = Option (Result Response) × Dict Text × c.S

  abbrev pub sent : (Result Response × Dict Text) × c.S → Sent
  sent ((response, store), counters) = (some response, store, counters)

  -- The application behind BodyLimitMiddleware, which it calls with a body that was read. `untouched`
  -- are connections other than HTTP.
  abbrev pub behind_limit :
      Surroundings F
      → Text
      → Text
      → Request
      → (Inbox → State → NetworkQuality → Handled F)
      → c.S
      → Dict Text
      → Body.Verdict
      → Sent
  behind_limit around ip client_id req route counters store (Body.refused status detail) = (
    some (ok (json_response status (str "{\"detail\":\"" ++ (detail ++ str "\"}")))),
    store,
    counters,
  )
  behind_limit around ip client_id req route counters store Body.dropped = (none, store, counters)
  behind_limit around ip client_id req route counters store Body.untouched = (none, store, counters)
  behind_limit around ip client_id req route counters store (Body.admitted body later) =
      let inbox : Inbox = record { consumed = false; body = body; later = later } in
      sent (limited around ip client_id req (route inbox) counters store)

  -- `req` is what Starlette makes of the scope; `ip` and `client_id` are what the middleware find.
  unfoldable pub app :
      (Text → Result Url)
      → Scope
      → List Arrival
      → Surroundings F
      → Text
      → Text
      → Request
      → (Inbox → State → NetworkQuality → Handled F)
      → c.S
      → Dict Text
      → Sent
  app urlsplit scope arrivals around ip client_id req route counters store =
      behind_limit around ip client_id req route counters store
        (body_limit urlsplit limits.max_request_body_bytes scope arrivals)
