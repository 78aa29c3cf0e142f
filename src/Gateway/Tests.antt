-- ===== src/Gateway/Tests.antt =====
-- A request with a hint of 600 ms through all the middleware, to a route that answers with two bytes.
use adaptive_gateway.Prelude.{ℕ, ◌+◌, true, false, none, some, List, [], ◌∷◌}
use adaptive_gateway.Prelude.Texts.{Text, str}
use adaptive_gateway.Prelude.Dicts.{Dict}
use adaptive_gateway.Prelude.Floats.{Fixed, fin, fixed}
use adaptive_gateway.Prelude.Results.{Result, ok}
use adaptive_gateway.Config.{Url}
use adaptive_gateway.Http.{NetworkQuality, Request, Response}
use adaptive_gateway.Rtt.{Thresholds}
use adaptive_gateway.Auth.Middleware.{State}
use adaptive_gateway.Redis.{answered}
use adaptive_gateway.RateLimit.{Counters}
use adaptive_gateway.Detector.Dispatch
use adaptive_gateway.Detector.State.{Codec}
use adaptive_gateway.Optimizer.Dispatch as Optimizing
use adaptive_gateway.Optimizer.Modes.{adaptive, Policy}
use adaptive_gateway.BodyLimit as Body
use adaptive_gateway.BodyLimit.{Scope, Inbox, Arrival, request}
use adaptive_gateway.Gateway.{Handled, Surroundings, Limits}

abbrev urlsplit : Text → Result Url
urlsplit s = ok (record {
  scheme = [];
  netloc = str "a.b";
  path = [];
  query = [];
  fragment = [];
  hostname = some (str "a.b");
  username = none;
  password = none;
  port = ok none;
})

abbrev scope : Scope
scope = record { kind = str "http"; headers = (str "host", str "a.b") ∷ []; path = str "/proxy/x" }

abbrev arrivals : List Arrival
arrivals = (0, request (7 ∷ []) false) ∷ []

abbrev req : Request
req = record {
  method = str "GET";
  path = str "/proxy/x";
  query = [];
  headers = (str "x-client-rtt", str "600") ∷ [];
  peer = none;
}

abbrev counter : Counters
counter = record {
  S = ℕ;
  count = λ _ _ n. n;
  deadline = λ _ n. none;
  incr = λ _ _ n. (n + 1, n + 1);
  expire = λ _ _ _ n. n;
}

abbrev thresholds : Thresholds fixed
thresholds = record {
  good_ms = fin 150_000;
  degraded_ms = fin 500_000;
  hysteresis_ms = fin 30_000;
  transition_samples = 3;
  alpha = fin 300;
}

abbrev codec : Codec Fixed
codec = record { loads = λ _. none; dumps = λ _. [] }

abbrev policy : Policy
policy = record { response_mode = adaptive; adaptation_enabled = true }

abbrev limits : Limits
limits = record {
  rate_limit_enabled = true;
  global_rate_limit = 5;
  global_rate_window_seconds = 10;
  max_request_body_bytes = 1;
}

abbrev around : Surroundings Fixed
around = record {
  now = 3;
  limiter_reply = answered;
  state_reply = λ _. ok none;
  schedule = [];
  elapsed_ms = fin 9;
}

abbrev route : Inbox → State → NetworkQuality → Handled Fixed
route inbox state quality = record {
  response = record { status = 200; headers = []; body = 1 ∷ 2 ∷ [] };
  optimizable = false;
  optional_fields = [];
  served_from_cache = false;
  upstream_latency_ms = none;
  request_log_record = none;
  route = str "/proxy/{service}/{path:path}";
}

abbrev no_keys : Dict Text
no_keys = []

abbrev told : Response
told = record {
  status = 200;
  headers =
      (str "x-network-quality", str "POOR")
      ∷ (str "x-rtt-ms", str "1.0")
      ∷ (str "x-rtt-source", str "client-hint")
      ∷ (str "x-ratelimit-limit", str "5")
      ∷ (str "x-ratelimit-remaining", str "4")
      ∷ [];
  body = 1 ∷ 2 ∷ [];
}
