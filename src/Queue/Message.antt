-- ===== src/Queue/Message.antt =====
-- gateway/offline_queue/sync_worker.py: the state that the worker keeps for one message. All of it is
-- keyed by the message's id: the part of Redis, of the table failed_requests and of the upstream that
-- belongs to the message. A command may lose its answer before or after it took effect.
pub mod Logic
use adaptive_gateway.Prelude.{ℕ, Bool, Option, List}
use adaptive_gateway.Prelude.Texts.{Text}
use adaptive_gateway.Prelude.Dicts.{Dict}
use adaptive_gateway.Prelude.Results.{Exc, redis_error}
use adaptive_gateway.Json.{Json}
use adaptive_gateway.ProxyHttp.Bounded.{Exchange}
use adaptive_gateway.Redis.{Reply, answered, lost_before, lost_after}

-- A row of failed_requests.
pub record FailedRequest (F : Type 0) : Type 0 where
  pub method : Text
  pub path : Text
  pub headers : Dict (Json F)
  pub body : Option Text
  pub client_id : Option Text
  pub retries : ℕ
  pub last_error : Option Text

-- The hash fields offline_queue:attempts and offline_queue:due of the message, whether its entry is
-- in the stream and in the group's pending list, its rows, how many requests were sent for it, and
-- whether one was answered with a success.
pub record Message (F : Type 0) : Type 0 where
  pub attempts : Option ℕ
  pub due : Option F
  pub in_stream : Bool
  pub pending : Bool
  pub dead : List (FailedRequest F)
  pub sent : ℕ
  pub succeeded : Bool

pub data Outcome (F : Type 0) : Type 0 where
  done : Message F → Outcome F
  broke : Exc → Message F → Outcome F

-- await a; b
abbrev pub and_then : {F : Type 0} → Outcome F → (Message F → Outcome F) → Outcome F
and_then (done w) k = k w
and_then (broke e w) k = broke e w

-- A command with its effect. Where its answer is lost, the exception is raised.
abbrev pub command : {F : Type 0} → Reply → Exc → (Message F → Message F) → Message F → Outcome F
command answered e f w = done (f w)
command lost_before e f w = broke e w
command lost_after e f w = broke e (f w)

-- A read, and what follows it.
abbrev pub query : {F : Type 0} → {A : Type 0} → Reply → A → (A → Outcome F) → Message F → Outcome F
query answered a k w = k a
query _ a k w = broke redis_error w

pub record Budget : Type 0 where
  pub queue_max_retries : ℕ
  pub queue_max_age_seconds : ℕ
  pub queue_backoff_schedule : List ℕ
  pub max_response_body_bytes : ℕ

-- The answers to the commands of one delivery, time.time() in it, what the upstream does, and
-- type(exc).__name__ of what the request raises.
pub record Delivery (F : Type 0) : Type 0 where
  pub due_read : Reply
  pub attempts_read : Reply
  pub attempts_write : Reply
  pub due_write : Reply
  pub commit : Reply
  pub xack : Reply
  pub xdel : Reply
  pub attempts_delete : Reply
  pub due_delete : Reply
  pub attempts_again : Reply
  pub now : F
  pub exchange : Exchange
  pub error_name : Text
