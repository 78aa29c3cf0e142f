-- ===== src/Detector.antt =====
-- gateway/middleware/network_detector.py: the tier of a request from the client's hints.
pub mod Corrupt
pub mod Dispatch
pub mod RoundTrip
pub mod Signals
pub mod State
mod Tests
pub mod Update
use adaptive_gateway.Prelude.{
  ℕ, Bool, true, false, not, ◌&&◌, ◌||◌, Option, none, some, List, [], ◌∷◌, default, if◌then◌else◌,
}
use adaptive_gateway.Prelude.Texts.{Text, str, text_eq, lower, strip}
use adaptive_gateway.Prelude.Dicts.{Dict, lookup}
use adaptive_gateway.Prelude.Floats.{Float}
use adaptive_gateway.Prelude.Results.{Result, ok, raise, value_error, ◌>>=◌}
use adaptive_gateway.Http.{NetworkQuality, good, degraded, poor, Request}
use adaptive_gateway.Rtt.{Thresholds}

-- ECT_MAP
abbrev pub ect_map : Dict NetworkQuality
ect_map = (str "4g", good) ∷ (str "3g", degraded) ∷ (str "2g", poor) ∷ (str "slow-2g", poor) ∷ []

abbrev pub is_empty : Text → Bool
is_empty [] = true
is_empty (c ∷ s) = false

module _ (fl : Float) where
  open fl use {F, is_finite, lt, le, of_ℕ, parse}

  unfoldable pub classify_rtt : F → Thresholds fl → Result NetworkQuality
  classify_rtt rtt_ms t =
      if not (is_finite rtt_ms) || lt rtt_ms (of_ℕ 0)
      then raise value_error
      else if lt rtt_ms t.good_ms
      then ok good
      else if lt rtt_ms t.degraded_ms
      then ok degraded
      else ok poor

  -- math.isfinite(parsed) and parsed >= 0
  abbrev pub accepted : F → Option F
  accepted x = if is_finite x && le (of_ℕ 0) x then some x else none

  unfoldable pub parse_float : Option Text → Option F
  parse_float none = none
  parse_float (some v) = elim (parse v) [ none ↦ none | some x ↦ accepted x ]

  -- The hints after the RTT: ECT, then Save-Data.
  unfoldable pub later_signal : Dict Text → Option (NetworkQuality × Option F)
  later_signal headers =
      let ect = strip (default (lookup (str "ect") headers) []) in
      let save_data = lower (strip (default (lookup (str "save-data") headers) [])) in
      let saved : Option (NetworkQuality × Option F) =
        if text_eq save_data (str "on") then some (degraded, none) else none in
      elim (if is_empty ect then none else lookup (lower ect) ect_map) [
        | some quality ↦ some (quality, none)
        | none ↦ saved
      ]

  unfoldable pub explicit_signal :
      Request → Thresholds fl → Result (Option (NetworkQuality × Option F))
  explicit_signal req t = elim (parse_float (lookup (str "x-client-rtt") req.headers)) [
    | some rtt ↦ classify_rtt rtt t >>= λ quality. ok (some (quality, some rtt))
    | none ↦ ok (later_signal req.headers)
  ]
