-- ===== src/Detector/Dispatch.antt =====
-- `NetworkDetectorMiddleware.dispatch`: the tier set before the route runs, and what is recorded
-- after it.
use adaptive_gateway.Prelude.{
  ℕ, Bool, Option, none, some, List, [], ◌∷◌, default, is_some, if◌then◌else◌,
}
use adaptive_gateway.Prelude.Texts.{Text, str, among}
use adaptive_gateway.Prelude.Dicts.{Dict, insert}
use adaptive_gateway.Prelude.Floats.{Float}
use adaptive_gateway.Prelude.Results.{Exc, Result, ok, raise}
use adaptive_gateway.Http.{
  NetworkQuality, good, degraded, poor, value, Request, Response, LogRecord,
}
use adaptive_gateway.Rtt.{Tier, RttState, Thresholds}
use adaptive_gateway.Detector.{explicit_signal}
use adaptive_gateway.Detector.State.{Codec, load_state}
use adaptive_gateway.Detector.Update.{Attempt, update_state}

-- _SKIP_PATHS
abbrev pub skip_paths : List Text
skip_paths = str "/health" ∷ str "/metrics" ∷ str "/favicon.ico" ∷ []

-- NetworkQuality(state.tier)
abbrev pub quality_of : Tier → NetworkQuality
quality_of Tier.good = good
quality_of Tier.degraded = degraded
quality_of Tier.poor = poor

-- What the inner application leaves: its response, the clock after it, and `request.state`.
pub record Inner (F : Type 0) : Type 0 where
  pub response : Response
  pub elapsed_ms : F
  pub upstream_latency_ms : Option F
  pub request_log_record : Option (LogRecord F)
  pub response_size_optimized : Option ℕ
  pub route : Text
  pub served_from_cache : Bool

-- What the request leaves: the response, the row given to `enqueue_log`, the labels of the
-- counters that were incremented, and the shared store.
pub record Dispatched (F : Type 0) : Type 0 where
  pub response : Response
  pub rtt_ms : Option F
  pub logged : Option (LogRecord F)
  pub counted : Option (Text × Text × Text × Bool)
  pub store : Dict Text

module _ (fl : Float) (codec : Codec fl.F) where
  open fl use {F, lt, sub, of_ℕ, format1}

  -- max(elapsed_ms - upstream_ms, 0.0)
  abbrev residual : F → F → F
  residual elapsed upstream =
      let rest = sub elapsed upstream in if lt rest (of_ℕ 0) then of_ℕ 0 else rest

  unfoldable pub link_rtt : Option F → Inner F → F
  link_rtt (some rtt) inner = rtt
  link_rtt none inner = residual inner.elapsed_ms (default inner.upstream_latency_ms (of_ℕ 0))

  abbrev log_row : Inner F → LogRecord F → LogRecord F
  log_row inner row = record row {
    rtt_ms = inner.elapsed_ms;
    upstream_latency_ms = some (default inner.upstream_latency_ms (of_ℕ 0));
    response_size_optimized =
        some (default inner.response_size_optimized row.response_size_original);
  }

  -- The headers, the log row and the counters, once the state is updated.
  unfoldable pub finish : Request → NetworkQuality → Option F → Inner F → Dict Text → Dispatched F
  unfolding link_rtt
  finish req quality explicit_rtt inner store =
      let rtt = link_rtt explicit_rtt inner in
      let source : Text =
        if is_some explicit_rtt then str "client-hint" else str "server-processing-estimate" in
      record {
        response = record (inner.response) {
          headers = insert (str "x-rtt-source") source (
              insert (str "x-rtt-ms") (format1 rtt)
                (insert (str "x-network-quality") (value quality) inner.response.headers));
        };
        rtt_ms = some rtt;
        logged = elim inner.request_log_record [
          | none ↦ none
          | some row ↦ some (log_row inner row)
        ];
        counted = some (req.method, inner.route, value quality, inner.served_from_cache);
        store = store;
      }

  abbrev pub after_update :
      Request
      → NetworkQuality
      → Inner F
      → Option Exc × Dict Text
      → Result (Dispatched F) × Dict Text
  after_update req quality inner (some e, store) = (raise e, store)
  after_update req quality inner (none, store) = (ok (finish req quality none inner store), store)

  module _ (t : Thresholds fl) (client_id : Text) (call_next : NetworkQuality → Inner F)
      (reply : Dict Text → Result (Option Text)) (schedule : List Attempt) (req : Request)
      (store : Dict Text) where
    abbrev pub passive : Result (RttState fl) → Result (Dispatched F) × Dict Text
    passive (raise e) = (raise e, store)
    passive (ok state) =
        let quality = quality_of state.tier in
        let inner = call_next quality in
        after_update req quality inner
          (update_state fl codec schedule client_id (link_rtt none inner) t store)

    abbrev pub by_signal :
        Result (Option (NetworkQuality × Option F)) → Result (Dispatched F) × Dict Text
    by_signal (raise e) = (raise e, store)
    by_signal (ok (some (quality, rtt))) =
        (ok (finish req quality rtt (call_next quality) store), store)
    by_signal (ok none) = passive (load_state fl codec (reply store))

    -- `reply` is Redis's answer to the read of this client's state; `schedule` is what it and the
    -- other workers do during the update.
    unfoldable pub dispatch : Result (Dispatched F) × Dict Text
    dispatch =
        let skipped : Dispatched F = record {
          response = (call_next good).response;
          rtt_ms = none;
          logged = none;
          counted = none;
          store = store;
        } in
        if among req.path skip_paths
        then (ok skipped, store)
        else by_signal (explicit_signal fl req t)
