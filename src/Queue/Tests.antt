-- ===== src/Queue/Tests.antt =====
-- The queue at concrete writes and deliveries.
use adaptive_gateway.Prelude.{
  length, ℕ, ◌+◌, ◌≡◌, refl, Bool, true, false, none, some, List, [], ◌∷◌,
}
use adaptive_gateway.Prelude.Texts.{texts, Text, str}
use adaptive_gateway.Prelude.Dicts.{lookup, Dict}
use adaptive_gateway.Prelude.Floats.{Fixed, fin, fixed}
use adaptive_gateway.Prelude.Results.{Result, ok}
use adaptive_gateway.Json.{Json, obj, end, field, text}
use adaptive_gateway.Config.{get_route_rule, RouteRule, Url}
use adaptive_gateway.ProxyHttp.Bounded.{bounded_request, failed, timed_out}
use adaptive_gateway.Redis.{Reply, answered, lost_after}
use adaptive_gateway.Queue.{Stream, StreamLaws, Policy, Write, entry_of}
use adaptive_gateway.Queue.Message.{Message, Budget, Delivery}
use adaptive_gateway.Queue.Worker.{
  ticks, handle, deliver, try_send, charge, send, conclude, bury, ack, judge, headers_of,
  backoff_seconds,
}
use adaptive_gateway.ProxyHttp.Target.{destination_service, rstrip}

-- A stream that counts its entries.
abbrev pub counter : Stream
counter = record { Q = ℕ; xlen = λ n. n; xadd = λ _ n. (str "1-0", n + 1) }

counter_laws : StreamLaws counter
counter_laws = record { xlen-xadd = λ _ n. refl }

-- A parser that takes the whole URL as its path.
abbrev pub parts : Text → Result Url
parts url = ok (record {
  scheme = str "http";
  netloc = str "h";
  path = url;
  query = [];
  fragment = [];
  hostname = some (str "h");
  username = none;
  password = none;
  port = ok none;
})

abbrev rule : RouteRule Fixed
rule = record {
  cacheable = true;
  cache_ttl = 60;
  optional_fields = [];
  upstream_timeout = none;
  queue_writes = true;
}

abbrev pub policy : Policy Fixed
policy = record {
  services = (str "s", str "http://h") ∷ [];
  rules = [];
  default_rule = rule;
  max_request_body_bytes = 10;
  queue_max_depth = 3;
}

abbrev dumps : Dict Text → Text
dumps _ = str "{}"

abbrev pub order : Write
order = record {
  method = str "POST";
  url = str "http://h/a";
  path = str "/proxy/s/a";
  headers = (str "idempotency-key", str "k") ∷ [];
  body = str "x";
  client_id = none;
}

abbrev pub loads : Text → Result (Json Fixed)
loads _ = ok (obj (field (str "idempotency-key") (text (str "k")) end))

abbrev pub sendable : Dict (Json Fixed) → Result (Unit {0})
sendable _ = ok tt

abbrev pub budget : Budget
budget = record {
  queue_max_retries = 1;
  queue_max_age_seconds = 3600;
  queue_backoff_schedule = 5 ∷ 30 ∷ [];
  max_response_body_bytes = 100;
}

abbrev pub fresh : Message Fixed
fresh = record {
  attempts = none;
  due = none;
  in_stream = true;
  pending = true;
  dead = [];
  sent = 0;
  succeeded = false;
}

-- Redis answers, but the write of the due time is lost in the first delivery; the upstream times
-- out.
abbrev pub delivery : Reply → ℕ → Delivery Fixed
delivery due_write now = record {
  due_read = answered;
  attempts_read = answered;
  attempts_write = answered;
  due_write = due_write;
  commit = answered;
  xack = answered;
  xdel = answered;
  attempts_delete = answered;
  due_delete = answered;
  attempts_again = answered;
  now = fin now;
  exchange = failed timed_out;
  error_name = str "ReadTimeout";
}

abbrev deliveries : List (Bool × Delivery Fixed)
deliveries =
    (true, delivery lost_after 1000000)
    ∷ (true, delivery answered 2000000)
    ∷ (false, delivery answered 0)
    ∷ []

abbrev pub fields : Dict Text
fields = entry_of Fixed parts dumps order (str "900")

-- The first delivery is charged but sends nothing; the second uses up the budget.
exhausted :
    ((ticks fixed parts loads sendable policy budget fields deliveries fresh).sent ≡ 1)
    × ((ticks fixed parts loads sendable policy budget fields deliveries fresh).in_stream ≡ false)
    × (length (ticks fixed parts loads sendable policy budget fields deliveries fresh).dead ≡ 1)
unfolding ticks handle deliver try_send charge send conclude bury ack judge headers_of
    backoff_seconds destination_service rstrip get_route_rule bounded_request texts lookup
exhausted = (refl, refl, refl)
