-- ===== src/Config/Settings/Promises.antt =====
-- Validated settings meet what the state machine of the tiers and the worker's backoff rely on.
use adaptive_gateway.Prelude.{
  ℕ, zero, suc, ◌-◌, ◌<◌, ◌≡◌, refl, min, Bool, true, false, not, ◌&&◌, some, List, [], ◌∷◌, map,
  arith, length, length-map, get_elem?, All,
}
use adaptive_gateway.Prelude.Texts.{Text}
use adaptive_gateway.Prelude.Dicts.{Dict}
use adaptive_gateway.Prelude.Floats.{Float, FloatOrder}
use adaptive_gateway.Prelude.Ints.{ℤ, pos, pos_part}
use adaptive_gateway.Prelude.Results.{Result, ok}
use adaptive_gateway.Json.{Json}
use adaptive_gateway.Config.{Url, validate_upstream_url}
use adaptive_gateway.Config.Settings.{Settings, no_items, validate_boundaries}
use adaptive_gateway.Config.Settings.Valid.{IsPositive, IsValid, validate_boundaries-IsValid}
use adaptive_gateway.Rtt.{Thresholds}
use adaptive_gateway.Rtt.Bands.{IsOrdered}
use adaptive_gateway.Queue.{Policy}
use adaptive_gateway.Queue.Message.{Budget}
use adaptive_gateway.Queue.Worker.{backoff_seconds}

module _ (fl : Float) where
  open fl use {F}

  -- The settings that each component reads.
  abbrev pub thresholds_of : Settings F → Thresholds fl
  thresholds_of s = record {
    good_ms = s.rtt_good_threshold_ms;
    degraded_ms = s.rtt_degraded_threshold_ms;
    hysteresis_ms = s.rtt_hysteresis_ms;
    transition_samples = pos_part s.rtt_transition_samples;
    alpha = s.rtt_ewma_alpha;
  }

  abbrev pub budget_of : Settings F → Budget
  budget_of s = record {
    queue_max_retries = pos_part s.queue_max_retries;
    queue_max_age_seconds = s.queue_max_age_seconds;
    queue_backoff_schedule = map pos_part s.queue_backoff_schedule;
    max_response_body_bytes = s.max_response_body_bytes;
  }

both : (a b : Bool) → not (a && b) ≡ false → (a ≡ true) × (b ≡ true)
both a b e = (ground arith, ground arith)

-- The delays of a valid schedule.
get_delay :
    (xs : List ℤ) (i : ℕ)
    → All IsPositive xs
    → i < length xs
    → (n : ℕ) × (get_elem? xs i ≡ some (pos (suc n)))
      × (get_elem? (map pos_part xs) i ≡ some (suc n))
get_delay [] i h lt = absurd (omega arith)
get_delay (x ∷ xs) zero h lt = let ((n, e), _) = h in (n, rw e refl, rw e refl)
get_delay (x ∷ xs) (suc i) h lt = get_delay xs i h.1 (omega arith)

last_index : (xs : List ℤ) (k : ℕ) → no_items xs ≡ false → min k (length xs - 1) < length xs
last_index [] k h = cc
last_index (x ∷ xs) k h = omega arith

module _ (fl : Float) (laws : FloatOrder fl) (ip_network : Text → Result (Unit {0}))
    (urlsplit : Text → Result Url) (loads : Text → Result (Json fl.F))
    (sendable : Dict (Json fl.F) → Result (Unit {0})) (policy : Policy fl.F) where
  open fl use {F, lt, le, of_ℕ, is_finite}

  abbrev pub backoff : Settings F → ℕ → ℕ
  backoff s attempts = backoff_seconds fl urlsplit loads sendable policy (budget_of fl s) attempts

  pub record Promises (s : Settings F) : Type 0 where
    pub ordered : IsOrdered fl laws (thresholds_of fl s)
    pub samples : 0 < (thresholds_of fl s).transition_samples
    pub delays :
        (attempts : ℕ)
        → (n : ℕ) × (get_elem? s.queue_backoff_schedule
              (min (attempts - 1) (length s.queue_backoff_schedule - 1))
            ≡ some (pos (suc n)))
          × (backoff s attempts ≡ suc n)
    pub lease : le (of_ℕ s.queue_claim_idle_seconds) s.upstream_timeout_seconds ≡ false
    pub upstreams :
        All
          (λ item. (url : Text) × (validate_upstream_url urlsplit item.1 ≡ ok url))
          s.upstream_services

  backoff_delay :
      (s : Settings F) (attempts : ℕ)
      → IsValid fl ip_network urlsplit s
      → (n : ℕ) × (get_elem? s.queue_backoff_schedule
            (min (attempts - 1) (length s.queue_backoff_schedule - 1))
          ≡ some (pos (suc n)))
        × (backoff s attempts ≡ suc n)
  unfolding backoff_seconds
  backoff_delay s attempts v =
      let xs = s.queue_backoff_schedule in
      let (n, e, e') =
        get_delay xs (min (attempts - 1) (length xs - 1)) v.delays (last_index xs _ v.schedule) in
      (n, e, rw (length-map pos_part xs, e') refl)

  -- Settings that pass the validator are unchanged by it, and promise that the thresholds are
  -- ordered with the hysteresis below them, that a transition takes at least one sample, that
  -- every attempt is put off by a positive delay of the schedule, the last one from its end on,
  -- that the lease of a message exceeds the timeout of a request, and that every upstream is one
  -- the URL check accepts. The three thresholds are finite, which pydantic demands of a float.
  pub validate_boundaries-Promises :
      (s s' : Settings F)
      → is_finite s.rtt_good_threshold_ms ≡ true
      → is_finite s.rtt_degraded_threshold_ms ≡ true
      → is_finite s.rtt_hysteresis_ms ≡ true
      → validate_boundaries fl ip_network urlsplit s ≡ ok s'
      → (s' ≡ s) × Promises s
  validate_boundaries-Promises s s' fg fd fh e =
      let (same, v) = validate_boundaries-IsValid fl ip_network urlsplit s s' e in
      let ((n, samples), _) = v.positives in
      let (_, increasing) = both (lt (of_ℕ 0) s.rtt_good_threshold_ms) _ v.thresholds in
      let (nonneg, below) = both (le (of_ℕ 0) s.rtt_hysteresis_ms) _ v.hysteresis in
      (
        same,
        record {
          ordered = record {
            finite_good = fg;
            finite_degraded = fd;
            finite_hysteresis = fh;
            increasing = laws.lt-le _ _ increasing;
            hysteresis_nonneg = nonneg;
            hysteresis_below = laws.lt-le _ _ below;
          };
          samples = rw samples (omega arith);
          delays = λ attempts. backoff_delay s attempts v;
          lease = v.lease;
          upstreams = v.upstreams;
        },
      )
