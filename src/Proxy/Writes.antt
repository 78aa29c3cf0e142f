-- ===== src/Proxy/Writes.antt =====
-- gateway/routes/proxy.py: `_handle_write`, whose failed writes may enter the offline queue.
pub mod Queueing
use adaptive_gateway.Prelude.{
  ℕ, Bool, true, false, ◌&&◌, Option, none, some, List, [], ◌∷◌, ◌++◌, all, default, length, leb,
  if◌then◌else◌,
}
use adaptive_gateway.Prelude.Texts.{Text, str, among}
use adaptive_gateway.Prelude.Dicts.{Dict, lookup}
use adaptive_gateway.Prelude.Floats.{Float}
use adaptive_gateway.Prelude.Results.{
  Exc, value_error, unicode_error, redis_error, Result, ok, raise,
}
use adaptive_gateway.Http.{Request, Response, LogRecord}
use adaptive_gateway.Config.{Url}
use adaptive_gateway.ProxyHttp.Bounded.{
  Failure, timed_out, not_connected, http_error, body_too_large, Exchange, Upstream, Fetched,
  fetched, unfetched, bounded_request,
}
use adaptive_gateway.Redis.{Reply}
use adaptive_gateway.Queue.{Stream, Policy, Write, write_methods, enqueue_write}
use adaptive_gateway.Proxy.{Caller, from_upstream, json_response, log_request}

-- c.isascii() and c.isprintable()
abbrev is_printable : ℕ → Bool
is_printable c = leb 32 c && leb c 126

-- 1 <= len(key) <= 128 and key.isascii() and key.isprintable()
abbrev pub is_key : Text → Bool
is_key key = leb 1 (length key) && leb (length key) 128 && all is_printable key

abbrev pub key_of : Request → Text
key_of request = default (lookup (str "idempotency-key") request.headers) []

unfoldable pub is_eligible : Bool → Request → Bool
is_eligible queue_writes request =
    queue_writes && among request.method write_methods && is_key (key_of request)

abbrev pub is_ambiguous : Failure → Bool
is_ambiguous timed_out = true
is_ambiguous not_connected = true
is_ambiguous _ = false

-- except (RedisError, ValueError)
abbrev is_unavailable : Exc → Bool
is_unavailable redis_error = true
is_unavailable value_error = true
is_unavailable unicode_error = true
is_unavailable _ = false

abbrev refused_status : Failure → ℕ
refused_status timed_out = 504
refused_status _ = 502

-- The answer to a write, and its log row where the code logs one.
pub record Written (F : Type 0) : Type 0 where
  pub response : Response
  pub logged : Option (LogRecord F)

module _ (fl : Float) (urlsplit : Text → Result Url) (dumps : Dict Text → Text) (q : Stream)
    (policy : Policy fl.F) (max_response_body_bytes : ℕ) where
  open fl use {F}

  -- `timestamp` is str(time.time()), and `reply` Redis's answer to the script of enqueue_write.
  module _ (caller : Caller) (request : Request) (elapsed : F) (timestamp : Text)
      (reply : Reply) where
    abbrev logs : Response → Text → ℕ → ℕ → Written F
    logs response status code size = record {
      response = response;
      logged = some (log_request fl caller request elapsed status code size);
    }

    abbrev silent : Response → Written F
    silent response = record { response = response; logged = none }

    abbrev pub write_of : Text → Dict Text → List ℕ → Write
    write_of target headers body = record {
      method = request.method;
      url = target;
      path = request.path;
      headers = headers;
      body = body;
      client_id = some (default caller.user_id caller.ip);
    }

    abbrev pub queued : Text → Written F
    queued id =
        logs
          (record {
            status = 202;
            headers =
                (str "x-queue-id", id)
                ∷ (str "x-cache-status", str "QUEUED")
                ∷ (str "content-type", str "application/json")
                ∷ [];
            body = str "{\"detail\":\"upstream unavailable; write queued for retry\"}";
          })
          (str "QUEUED") 202 0

    abbrev pub accepted : Result Text × q.Q → Result (Written F) × q.Q
    accepted (ok id, s) = (ok (queued id), s)
    accepted (raise e, s) = (
      if is_unavailable e
          then ok (
              silent (
                json_response 503
                  (str "{\"detail\":\"queue unavailable; write outcome unknown\"}")))
          else raise e,
      s,
    )

    unfoldable pub ambiguous :
        Bool → Text → Dict Text → List ℕ → Failure → q.Q → Result (Written F) × q.Q
    ambiguous queue_writes target headers body failure s =
        if is_eligible queue_writes request
        then accepted (
            enqueue_write F urlsplit dumps q policy reply timestamp (write_of target headers body)
              s)
        else (
          ok (
              silent (
                json_response (refused_status failure) (
                  str "{\"detail\":\"upstream unavailable; write outcome unknown; not queued\"}"))),
          s,
        )

    unfoldable pub answer_write :
        Bool → Text → Dict Text → List ℕ → Fetched → q.Q → Result (Written F) × q.Q
    answer_write queue_writes target headers body (fetched response) s = (
      ok (
          logs (from_upstream response (str "PASS")) (str "PASS") response.status
            (length response.content)),
      s,
    )
    answer_write queue_writes target headers body (unfetched failure) s =
        if is_ambiguous failure then ambiguous queue_writes target headers body failure s else (
          ok (logs (json_response 502 (str "{\"detail\":\"bad gateway\"}")) (str "ERROR") 502 0),
          s,
        )

    unfoldable pub handle_write :
        Bool → Text → Dict Text → List ℕ → Exchange → q.Q → Result (Written F) × q.Q
    handle_write queue_writes target headers body exchange s =
        answer_write queue_writes target headers body
          (bounded_request max_response_body_bytes exchange) s
