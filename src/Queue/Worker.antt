-- ===== src/Queue/Worker.antt =====
-- gateway/offline_queue/sync_worker.py: the delivery of one queued message by SyncWorker.
pub mod Settlement
pub mod Resend
use adaptive_gateway.Prelude.{
  ℕ, ◌+◌, ◌-◌, ◌≡◌, min, Bool, true, false, not, ◌&&◌, ◌||◌, Option, none, some, List, [], ◌∷◌,
  ◌++◌, default, length, get_elem?, select, all, ltb, leb, ◌==◌, if◌then◌else◌,
}
use adaptive_gateway.Prelude.Texts.{Text, str, among, lower, decimal}
use adaptive_gateway.Prelude.Dicts.{Dict, lookup}
use adaptive_gateway.Prelude.Floats.{Float}
use adaptive_gateway.Prelude.Ints.{pos, negsuc}
use adaptive_gateway.Prelude.Results.{
  Exc, value_error, key_error, type_error, unicode_error, redis_error, database_error, Result, ok,
  raise, ◌>>=◌,
}
use adaptive_gateway.Json.{
  Json, null, bool, int, real, text, arr, obj, Items, nil, cons, Fields, end, field, dict_of,
}
use adaptive_gateway.Config.{Url, is_empty, get_route_rule}
use adaptive_gateway.ProxyHttp.Bounded.{Exchange, Fetched, fetched, unfetched, bounded_request}
use adaptive_gateway.ProxyHttp.Target.{destination_service}
use adaptive_gateway.Redis.{Reply, answered, lost_before, lost_after}
use adaptive_gateway.Queue.{Policy, write_methods, queues_writes}
use adaptive_gateway.Queue.Message.{
  FailedRequest, Message, Outcome, done, broke, and_then, command, query, Budget, Delivery,
}

module _ (fl : Float) (urlsplit : Text → Result Url) (loads : Text → Result (Json fl.F))
    (sendable : Dict (Json fl.F) → Result (Unit {0})) (policy : Policy fl.F) (budget : Budget) where
  open fl use {F}

  abbrev pub max_attempts : ℕ
  max_attempts = budget.queue_max_retries + 1

  -- schedule[min(max(attempts - 1, 0), len(schedule) - 1)], where the schedule is not empty
  unfoldable pub backoff_seconds : ℕ → ℕ
  backoff_seconds attempts =
      let schedule = budget.queue_backoff_schedule in
      default (get_elem? schedule (min (attempts - 1) (length schedule - 1))) 0

  -- int(raw) if raw else 0
  abbrev pub attempts_of : Message F → ℕ
  attempts_of w = default w.attempts 0

  -- bool(value)
  abbrev truthy : Json F → Bool
  truthy null = false
  truthy (bool b) = b
  truthy (int (pos n)) = not (n == 0)
  truthy (int (negsuc n)) = true
  truthy (real x) = not (fl.eq x (fl.of_ℕ 0))
  truthy (text s) = not (is_empty s)
  truthy (arr nil) = false
  truthy (arr (cons _ _)) = true
  truthy (obj end) = false
  truthy (obj (field _ _ _)) = true

  abbrev present : Option (Json F) → Bool
  present none = false
  present (some v) = truthy v

  abbrev as_headers : Json F → Result (Dict (Json F))
  as_headers (obj fields) = ok (dict_of fields)
  as_headers _ = raise value_error

  abbrev headers_text : Dict Text → Text
  headers_text fields = default (lookup (str "headers") fields) (str "{}")

  unfoldable pub headers_of : Dict Text → Result (Dict (Json F))
  headers_of fields = loads (headers_text fields) >>= as_headers

  abbrev float_of : Option F → Result F
  float_of none = raise value_error
  float_of (some x) = ok x

  abbrev is_expired : F → F → Bool
  is_expired now timestamp = fl.lt (fl.of_ℕ budget.queue_max_age_seconds) (fl.sub now timestamp)

  abbrev fit : Dict Text → Dict (Json F) → F → Option Text → F → Bool
  fit fields headers now service timestamp =
      queues_writes F urlsplit (λ _. []) policy service
      && among (default (lookup (str "method") fields) []) write_methods
      && present (lookup (str "idempotency-key") headers)
      && not (is_expired now timestamp)

  -- What is computed before the budget is charged: the headers, and whether the message is eligible.
  unfoldable pub judge : Dict Text → F → Result (Dict (Json F) × Bool)
  judge fields now = headers_of fields >>= λ headers.
      destination_service urlsplit policy.services (default (lookup (str "url") fields) [])
      >>= λ service.
          float_of (fl.parse (default (lookup (str "timestamp") fields) (str "0"))) >>= λ timestamp.
          ok (headers, fit fields headers now service timestamp)

  abbrev kept_headers : Result (Dict (Json F)) → Dict (Json F)
  kept_headers (ok headers) =
      select (λ item. among (lower item.0) (str "content-type" ∷ str "idempotency-key" ∷ []))
        headers
  kept_headers (raise _) = []

  abbrev or_none : Text → Option Text
  or_none [] = none
  or_none (c ∷ s) = some (c ∷ s)

  abbrev failed_request : Dict Text → ℕ → Option Text → FailedRequest F
  failed_request fields retries error = record {
    method = default (lookup (str "method") fields) [];
    path = default (lookup (str "path") fields) [];
    headers = kept_headers (headers_of fields);
    body = lookup (str "body") fields;
    client_id = or_none (default (lookup (str "client_id") fields) []);
    retries = retries;
    last_error = error;
  }

  module _ (fields : Dict Text) (d : Delivery F) where
    abbrev pub dead_letter : ℕ → Option Text → Message F → Outcome F
    dead_letter retries error w =
        command d.commit database_error
          (λ v. record v { dead = v.dead ++ failed_request fields retries error ∷ [] }) w

    -- XACK, XDEL, and HDEL of the two hash fields
    unfoldable pub ack : Message F → Outcome F
    ack w = and_then (command d.xack redis_error (λ v. record v { pending = false }) w) λ w₁.
        and_then (command d.xdel redis_error (λ v. record v { in_stream = false }) w₁) λ w₂.
          and_then (command d.attempts_delete redis_error (λ v. record v { attempts = none }) w₂)
            λ w₃. command d.due_delete redis_error (λ v. record v { due = none }) w₃

    unfoldable pub bury : ℕ → Option Text → Message F → Outcome F
    bury retries error w = and_then (dead_letter retries error w) ack

    abbrev is_success : ℕ → Bool
    is_success status = leb 200 status && ltb status 300

    abbrev is_retryable : ℕ → Bool
    is_retryable status = leb 500 status || status == 408 || status == 429

    abbrev retry_or_bury : ℕ → Bool → Text → Message F → Outcome F
    retry_or_bury attempts retryable error w =
        let buried = bury attempts (some error) w in
        if leb max_attempts attempts || not retryable then buried else done w

    -- After the request.
    unfoldable pub conclude : ℕ → Fetched → Message F → Outcome F
    conclude attempts (fetched response) w =
        let acked = ack (record w { succeeded = true }) in
        let failed =
          retry_or_bury attempts (is_retryable response.status)
            (str "upstream " ++ decimal response.status) w in
        if is_success response.status then acked else failed
    conclude attempts (unfetched _) w = retry_or_bury attempts true d.error_name w

    -- fields.get("body", "").encode("latin-1")
    abbrev latin_1 : Text → Result (Unit {0})
    latin_1 s = if all (λ c. ltb c 256) s then ok tt else raise unicode_error

    abbrev encoded : Dict (Json F) → Result (Unit {0})
    encoded headers = latin_1 (default (lookup (str "body") fields) []) >>= λ _. sendable headers

    unfoldable pub send : Dict (Json F) → ℕ → Message F → Outcome F
    send headers attempts w = elim (encoded headers) [
      | raise e ↦ broke e w
      | ok _ ↦
          conclude attempts (bounded_request budget.max_response_body_bytes d.exchange)
            (record w { sent = w.sent + 1 })
    ]

    -- The budget is charged before the request is sent.
    unfoldable pub charge : Dict (Json F) → ℕ → Message F → Outcome F
    charge headers attempts w =
        and_then
          (command d.attempts_write redis_error (λ v. record v { attempts = some attempts }) w)
          λ w₁.
            and_then
              (command d.due_write redis_error
                (λ v. record v { due = some (fl.add d.now (fl.of_ℕ (backoff_seconds attempts))) })
                w₁)
              (send headers attempts)

    unfoldable pub try_send : ℕ → Message F → Outcome F
    try_send attempts w = elim (judge fields d.now) [
      | raise e ↦ broke e w
      | ok judged ↦
          let buried = bury (attempts - 1) (some (str "replay ineligible or expired")) w in
          let charged = charge judged.0 attempts w in
          if not judged.1 || ltb max_attempts attempts then buried else charged
    ]

    abbrev is_early : Option F → Bool
    is_early none = false
    is_early (some due) = fl.lt d.now due

    unfoldable pub deliver : Message F → Outcome F
    deliver w =
        query d.due_read w.due
          (λ due.
            let tried =
              query d.attempts_read (attempts_of w + 1) (λ attempts. try_send attempts w) w in
            if is_early due then done w else tried)
          w

    -- except (ValueError, KeyError, TypeError, UnicodeError)
    abbrev is_malformed : Exc → Bool
    is_malformed value_error = true
    is_malformed key_error = true
    is_malformed type_error = true
    is_malformed unicode_error = true
    is_malformed _ = false

    abbrev rescued : Outcome F → Outcome F
    rescued (done w) = done w
    rescued (broke e w) =
        let buried =
          query d.attempts_again (attempts_of w)
            (λ attempts. bury attempts (some (str "malformed queue entry")) w) w in
        if is_malformed e then buried else broke e w

    -- `leased` tells whether acquire_lock gave the lease of the message.
    unfoldable pub handle : Bool → Message F → Outcome F
    handle leased w = let tried = rescued (deliver w) in if leased then tried else done w

  -- The state when a delivery ends, with or without an exception: the worker goes on.
  abbrev pub final : Outcome F → Message F
  final (done w) = w
  final (broke e w) = w

  -- Ticks of the workers: each hands out the message while it is in the stream.
  unfoldable pub ticks : Dict Text → List (Bool × Delivery F) → Message F → Message F
  ticks fields [] w = w
  ticks fields ((leased, d) ∷ later) w =
      let next = ticks fields later (final (handle fields d leased w)) in
      if w.in_stream then next else w
