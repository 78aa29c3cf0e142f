-- ===== src/Detector/Signals.antt =====
-- The priority of the client's hints, and what the passive path costs.
use adaptive_gateway.Prelude.{
  ◌≡◌, ◌⊎◌, inl, inr, true, false, Option, none, some, List, arith, Bool-cases, Option-cases,
}
use adaptive_gateway.Prelude.Texts.{Text, str, among}
use adaptive_gateway.Prelude.Dicts.{Dict, lookup}
use adaptive_gateway.Prelude.Floats.{Float, FloatOrder}
use adaptive_gateway.Prelude.Results.{Result, ok}
use adaptive_gateway.Http.{NetworkQuality, good, degraded, poor, unknown, Request}
use adaptive_gateway.Rtt.{Thresholds}
use adaptive_gateway.Detector.{classify_rtt, parse_float, later_signal, explicit_signal}
use adaptive_gateway.Detector.State.{Codec}
use adaptive_gateway.Detector.Update.{Attempt}
use adaptive_gateway.Detector.Dispatch.{Inner, skip_paths, dispatch}

module _ (fl : Float) (laws : FloatOrder fl) (finite_zero : fl.is_finite (fl.of_ℕ 0) ≡ true) where
  open fl use {F, is_finite, lt, le, of_ℕ, parse}

  parse_float-accepted :
      (v : Option Text) (x : F)
      → parse_float fl v ≡ some x
      → (is_finite x ≡ true) × (le (of_ℕ 0) x ≡ true)
  unfolding parse_float
  parse_float-accepted v x h = ground arith

  -- The half-open interval of a tier, at a finite nonnegative RTT.
  abbrev pub InTier : F → NetworkQuality → Thresholds fl → Type 0
  InTier x good t = lt x t.good_ms ≡ true
  InTier x degraded t = (lt x t.good_ms ≡ false) × (lt x t.degraded_ms ≡ true)
  InTier x poor t = (lt x t.good_ms ≡ false) × (lt x t.degraded_ms ≡ false)
  InTier x unknown t = ⊥

  classify_rtt-InTier :
      (x : F) (t : Thresholds fl)
      → is_finite x ≡ true
      → le (of_ℕ 0) x ≡ true
      → (q : NetworkQuality) × InTier x q t × (classify_rtt fl x t ≡ ok q)
  unfolding classify_rtt
  classify_rtt-InTier x t fin nonneg =
      let below = laws.lt-eq-not-le x (of_ℕ 0) fin finite_zero in
      elim (Bool-cases (lt x t.good_ms)) [
        | inl g ↦ (good, g, ground arith)
        | inr g ↦ elim (Bool-cases (lt x t.degraded_ms)) [
          | inl d ↦ (degraded, (g, d), ground arith)
          | inr d ↦ (poor, (g, d), ground arith)
        ]
      ]

  -- Reading the hints never raises. A valid RTT hint decides the tier, by its interval, whatever
  -- the other headers say; without a valid one the result is that of the other hints, as if the
  -- RTT header were not there.
  pub signal_priority :
      (req : Request) (t : Thresholds fl)
      → ((x : F) × (q : NetworkQuality) × (parse_float fl (lookup (str "x-client-rtt") req.headers)
            ≡ some x)
          × InTier x q t
          × (explicit_signal fl req t ≡ ok (some (q, some x))))
        ⊎ (parse_float fl (lookup (str "x-client-rtt") req.headers) ≡ none)
          × (explicit_signal fl req t ≡ ok (later_signal fl req.headers))
  unfolding explicit_signal
  signal_priority req t =
      let hint = lookup (str "x-client-rtt") req.headers in
      elim (Option-cases (parse_float fl hint)) [
        | inl e ↦ inr (e, rw (e, explicit_signal))
        | inr (x, e) ↦
            let (fin, nonneg) = parse_float-accepted hint x e in
            let (q, tier, c) = classify_rtt-InTier x t fin nonneg in
            inl (x, q, e, tier, rw (e, explicit_signal) (rw c))
      ]

module _ (fl : Float) (codec : Codec fl.F) (t : Thresholds fl) (client_id : Text)
    (call_next : NetworkQuality → Inner fl.F) where
  -- With an explicit hint the outcome does not depend on what Redis would answer, or on what other
  -- workers do, and the shared state is left as it was.
  pub explicit_hint_avoids_redis :
      (reply reply' : Dict Text → Result (Option Text)) (schedule schedule' : List Attempt)
      (req : Request) (store : Dict Text) (signal : NetworkQuality × Option fl.F)
      → explicit_signal fl req t ≡ ok (some signal)
      → (dispatch fl codec t client_id call_next reply schedule req store
          ≡ dispatch fl codec t client_id call_next reply' schedule' req store)
        × ((dispatch fl codec t client_id call_next reply schedule req store).1 ≡ store)
  unfolding dispatch
  explicit_hint_avoids_redis reply reply' schedule schedule' req store signal e =
      elim (Bool-cases (among req.path skip_paths)) [
        | inl skip ↦ (rw skip, rw skip)
        | inr go ↦ (rw (go, e), rw (go, e))
      ]
