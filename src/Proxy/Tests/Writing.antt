-- ===== src/Proxy/Tests/Writing.antt =====
-- Writes, and whole requests, at concrete values.
use adaptive_gateway.Prelude.{ℕ, ◌+◌, ◌≡◌, refl, ◌⊎◌, true, false, none, some, [], ◌∷◌}
use adaptive_gateway.Prelude.Texts.{Text, str, texts}
use adaptive_gateway.Prelude.Dicts.{Dict, lookup}
use adaptive_gateway.Prelude.Floats.{Fixed, fin, fixed}
use adaptive_gateway.Prelude.Results.{Result, ok, raise, value_error}
use adaptive_gateway.Http.{Request}
use adaptive_gateway.Config.{Url, get_route_rule}
use adaptive_gateway.ProxyHttp.Bounded.{failed, timed_out, bounded_request}
use adaptive_gateway.ProxyHttp.Discovery.{Discovery}
use adaptive_gateway.Redis.{answered, table}
use adaptive_gateway.Queue.{Stream, Policy, enqueue_write}
use adaptive_gateway.Proxy.Writes.Queueing.{IsQueued, handle_write_queue}
use adaptive_gateway.Proxy.Writes.{handle_write, answer_write, ambiguous, is_eligible}
use adaptive_gateway.ProxyHttp.Target.{destination_service, rstrip}
use adaptive_gateway.Proxy.Route.{Outside, Stores}
use adaptive_gateway.Proxy.Route.Boundary.{IsIdle, IsHandled, route, proxy_boundary}
use adaptive_gateway.Proxy.Tests.{caller, rule, limits, env, first}

abbrev counter : Stream
counter = record { Q = ℕ; xlen = λ n. n; xadd = λ _ n. (str "1-0", n + 1) }

-- A parser that takes the whole URL as its path.
abbrev parts : Text → Result Url
parts url = ok (record {
  scheme = str "http";
  netloc = str "h";
  path = url;
  query = [];
  fragment = [];
  hostname = some (str "h");
  username = none;
  password = none;
  port = ok none;
})

abbrev policy : Policy Fixed
policy = record {
  services = (str "s", str "http://h") ∷ [];
  rules = [];
  default_rule = rule;
  max_request_body_bytes = 10;
  queue_max_depth = 3;
}

abbrev dumps : Dict Text → Text
dumps _ = str "{}"

abbrev posting : Request
posting = record {
  method = str "POST";
  path = str "/proxy/s/a";
  query = [];
  headers = (str "idempotency-key", str "k1") ∷ [];
  peer = some (str "9.9.9.9");
}

handle_write_queue_example :
    IsQueued fixed parts dumps counter policy 100 caller posting
      (fin 5)
      (str "1")
      answered
      true
      (str "http://h/a")
      posting.headers
      []
      (failed timed_out)
      2
      (handle_write fixed parts dumps counter policy 100 caller posting
        (fin 5)
        (str "1")
        answered
        true
        (str "http://h/a")
        posting.headers
        []
        (failed timed_out)
        2).1
handle_write_queue_example =
    handle_write_queue fixed parts dumps counter policy 100 caller posting (fin 5) (str "1")
      answered true (str "http://h/a") posting.headers [] (failed timed_out) 2

-- The timed-out write is in the queue.
queued :
    (handle_write fixed parts dumps counter policy 100 caller posting
      (fin 5)
      (str "1")
      answered
      true
      (str "http://h/a")
      posting.headers
      []
      (failed timed_out)
      2).1
    ≡ 3
unfolding handle_write answer_write ambiguous is_eligible enqueue_write destination_service rstrip
    get_route_rule bounded_request lookup texts
queued = refl

abbrev closed : Discovery
closed = record { allow_unlisted_upstreams = false; upstream_discovery_domains = [] }

abbrev outside : Outside Fixed
outside = record {
  urlsplit = parts;
  resolve = λ _. raise value_error;
  is_global = λ _. ok false;
  dumps = dumps;
  sha256 = λ _. str "0";
  dumps_pairs = λ _. [];
  moment = first;
  timestamp = str "1";
  queue_reply = answered;
}

abbrev stores : Stores fixed env table counter limits policy closed outside
stores = record { cache = []; queue = 0 }

proxy_boundary_example :
    IsIdle fixed env table counter limits policy closed outside caller posting
      (str "s")
      (str "a")
      stores
      (route fixed env table counter limits policy closed outside caller posting
        (str "s")
        (str "a")
        (str "123456" ∷ str "7890a" ∷ [])
        stores)
    ⊎ IsHandled fixed env table counter limits policy closed outside caller posting
        (str "s")
        (str "a")
        (str "123456" ∷ str "7890a" ∷ [])
        stores
proxy_boundary_example =
    proxy_boundary fixed env table counter limits policy closed outside caller posting (str "s")
      (str "a") (str "123456" ∷ str "7890a" ∷ []) stores
