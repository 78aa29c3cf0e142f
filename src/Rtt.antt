-- ===== src/Rtt.antt =====
-- gateway/middleware/rtt_state.py: the tier state machine with hysteresis.
pub mod Bands
pub mod Hysteresis
mod Tests
use adaptive_gateway.Prelude.{
  ℕ, Bool, true, false, not, ◌||◌, Option, none, some, List, [], ◌∷◌, leb, ◌==◌, if◌then◌else◌,
}
use adaptive_gateway.Prelude.Floats.{Float}
use adaptive_gateway.Prelude.Ints.{ℤ, pos, succ, leb_ℤ}

-- The strings GOOD, DEGRADED and POOR.
pub data Tier : Type 0 where
  good degraded poor : Tier

-- _ORDER
abbrev pub order : Tier → ℕ
order good = 0
order degraded = 1
order poor = 2

abbrev pub tier_eq : Tier → Tier → Bool
tier_eq a b = order a == order b

-- candidate == state.pending_tier, where the pending tier may be None
abbrev pub is_pending : Tier → Option Tier → Bool
is_pending c none = false
is_pending c (some p) = tier_eq c p

module _ (fl : Float) where
  open fl use {F, is_finite, lt, le, add, sub, mul, of_ℕ}

  pub record RttState : Type 0 where
    pub ewma : Option F
    pub tier : Tier
    pub pending_tier : Option Tier
    pub pending_count : ℤ

  -- RttState()
  abbrev pub fresh : RttState
  fresh = record { ewma = none; tier = good; pending_tier = none; pending_count = pos 0 }

  pub record Thresholds : Type 0 where
    pub good_ms : F
    pub degraded_ms : F
    pub hysteresis_ms : F
    pub transition_samples : ℕ
    pub alpha : F

  -- The tier that the up-thresholds alone give.
  unfoldable pub up_tier : F → Thresholds → Tier
  up_tier value t =
      if le t.degraded_ms value then poor else if le t.good_ms value then degraded else good

  unfoldable pub candidate_tier : F → Tier → Thresholds → Tier
  unfolding up_tier
  candidate_tier value current t =
      let up = up_tier value t in
      let good_down = sub t.good_ms t.hysteresis_ms in
      let deg_down = sub t.degraded_ms t.hysteresis_ms in
      if leb (order current) (order up)
      then up
      else if tier_eq current poor
      then (if le deg_down value then poor else if lt value good_down then good else degraded)
      else if lt value good_down
      then good
      else degraded

  -- The new estimate: the first sample, or the exponentially weighted mean.
  unfoldable pub smooth : Option F → F → Thresholds → F
  smooth none sample t = sample
  smooth (some e) sample t = add (mul t.alpha sample) (mul (sub (of_ℕ 1) t.alpha) e)

  -- The end of `advance`: what becomes of a candidate.
  unfoldable pub settle : RttState → F → Tier → Thresholds → RttState
  settle s ewma candidate t =
      let count = if is_pending candidate s.pending_tier then succ s.pending_count else pos 1 in
      if tier_eq candidate s.tier
      then record { ewma = some ewma; tier = s.tier; pending_tier = none; pending_count = pos 0 }
      else if leb_ℤ (pos t.transition_samples) count
      then record { ewma = some ewma; tier = candidate; pending_tier = none; pending_count = pos 0 }
      else record {
        ewma = some ewma;
        tier = s.tier;
        pending_tier = some candidate;
        pending_count = count;
      }

  -- not math.isfinite(x) or x < 0
  unfoldable pub is_rejected : F → Bool
  is_rejected sample = not (is_finite sample) || lt sample (of_ℕ 0)

  unfoldable pub advance : RttState → F → Thresholds → RttState
  unfolding is_rejected
  advance s sample t =
      let ewma = smooth s.ewma sample t in
      if is_rejected sample then s else settle s ewma (candidate_tier ewma s.tier t) t

  -- One call of `advance` for each sample.
  unfoldable pub advance_all : RttState → List F → Thresholds → RttState
  advance_all s [] t = s
  advance_all s (x ∷ xs) t = advance_all (advance s x t) xs t
