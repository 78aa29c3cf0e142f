-- ===== src/Queue.antt =====
-- gateway/offline_queue/sync_worker.py: the offline queue of writes. Here: what is put into it.
-- Queue/Message has the state of a message, and Queue/Worker its delivery.
pub mod Message
pub mod Worker
pub mod Loop
pub mod Depth
mod Tests
use adaptive_gateway.Prelude.{
  ℕ, ◌+◌, ◌≡◌, ◌≤◌, Bool, true, false, not, ◌||◌, Option, none, some, List, [], ◌∷◌, length,
  default, ltb, leb, if◌then◌else◌,
}
use adaptive_gateway.Prelude.Texts.{Text, str, among}
use adaptive_gateway.Prelude.Dicts.{Dict, lookup}
use adaptive_gateway.Prelude.Floats.{Float}
use adaptive_gateway.Prelude.Results.{Result, ok, raise, value_error, redis_error}
use adaptive_gateway.Redis.{Reply, answered, lost_before, lost_after}
use adaptive_gateway.Config.{RouteRule, Url, is_empty, get_route_rule}
use adaptive_gateway.ProxyHttp.Target.{destination_service}

-- A Redis stream: XLEN, and XADD with an id that the server chooses.
pub record Stream : Type 1 where
  pub Q : Type 0
  pub xlen : Q → ℕ
  pub xadd : Dict Text → Q → Text × Q

-- A stream grows by the entry that is added to it.
pub record StreamLaws (q : Stream) : Type 0 where
  pub xlen-xadd : (fields : Dict Text) (s : q.Q) → q.xlen (q.xadd fields s).1 ≡ q.xlen s + 1

abbrev pub write_methods : List Text
write_methods = str "POST" ∷ str "PUT" ∷ str "PATCH" ∷ str "DELETE" ∷ []

-- The configuration that replay depends on: settings.upstream_services, ROUTE_RULES with its
-- default, and the limits.
pub record Policy (F : Type 0) : Type 0 where
  pub services : Dict Text
  pub rules : Dict (RouteRule F)
  pub default_rule : RouteRule F
  pub max_request_body_bytes : ℕ
  pub queue_max_depth : ℕ

pub record Write : Type 0 where
  pub method : Text
  pub url : Text
  pub path : Text
  pub headers : Dict Text
  pub body : List ℕ
  pub client_id : Option Text

-- json.dumps of a dictionary of texts, and str(time.time())
module _ (F : Type 0) (urlsplit : Text → Result Url) (dumps : Dict Text → Text) where
  abbrev pub queues_writes : Policy F → Option Text → Bool
  queues_writes policy none = false
  queues_writes policy (some service) =
      (get_route_rule policy.rules policy.default_rule service).queue_writes

  abbrev pub is_refused : Policy F → Write → Option Text → Bool
  is_refused policy w service =
      not (among w.method write_methods)
      || not (queues_writes policy service)
      || is_empty (default (lookup (str "idempotency-key") w.headers) [])
      || ltb policy.max_request_body_bytes (length w.body)

  -- body.decode("latin-1") gives each byte as a code point
  abbrev pub entry_of : Write → Text → Dict Text
  entry_of w timestamp =
      (str "method", w.method)
      ∷ (str "url", w.url)
      ∷ (str "path", w.path)
      ∷ (str "headers", dumps w.headers)
      ∷ (str "body", w.body)
      ∷ (str "client_id", default w.client_id [])
      ∷ (str "timestamp", timestamp)
      ∷ []

  module _ (q : Stream) where
    -- The script: nothing is added to a full stream.
    abbrev pub add_bounded : ℕ → Dict Text → q.Q → Option Text × q.Q
    add_bounded depth fields s =
        let (id, s') = q.xadd fields s in if leb depth (q.xlen s) then (none, s) else (some id, s')

    abbrev pub replied : Reply → q.Q → Option Text × q.Q → Result Text × q.Q
    replied lost_before s after = (raise redis_error, s)
    replied lost_after s after = (raise redis_error, after.1)
    replied answered s (none, s') = (raise value_error, s')
    replied answered s (some id, s') = (ok id, s')

    unfoldable pub enqueue_write : Policy F → Reply → Text → Write → q.Q → Result Text × q.Q
    enqueue_write policy reply timestamp w s =
        elim (destination_service urlsplit policy.services w.url) [
          | raise e ↦ (raise e, s)
          | ok service ↦
              let added =
                replied reply s (add_bounded policy.queue_max_depth (entry_of w timestamp) s) in
              if is_refused policy w service then (raise value_error, s) else added
        ]
