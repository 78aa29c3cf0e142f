-- ===== src/Rtt/Tests.antt =====
-- Runs of the tier machine with the default settings, and the theorems at concrete inputs.
use adaptive_gateway.Prelude.{◌≡◌, refl, none, some, List, [], ◌∷◌, arith}
use adaptive_gateway.Prelude.Floats.{Fixed, fin, fixed, fixed_order}
use adaptive_gateway.Prelude.Ints.{pos}
use adaptive_gateway.Rtt.{
  good, degraded, RttState, fresh, Thresholds, candidate_tier, smooth, settle, is_rejected, advance,
  advance_all,
}
use adaptive_gateway.Rtt.Hysteresis.{few_samples_keep_tier, agreeing_samples_commit}
use adaptive_gateway.Rtt.Bands.{IsOrdered}

-- The defaults of config.py, with alpha 0.3.
abbrev defaults : Thresholds fixed
defaults = record {
  good_ms = fin 150_000;
  degraded_ms = fin 500_000;
  hysteresis_ms = fin 30_000;
  transition_samples = 3;
  alpha = fin 300;
}

abbrev counting : RttState fixed
counting = record {
  ewma = some (fin 400_000);
  tier = good;
  pending_tier = some degraded;
  pending_count = pos 2;
}

abbrev slow : List Fixed
slow = (fin 400_000) ∷ (fin 410_000) ∷ (fin 420_000) ∷ []

slow_degrades : (advance_all fixed (fresh fixed) slow defaults).tier ≡ degraded
unfolding advance_all advance candidate_tier smooth settle
slow_degrades = refl

band_holds : candidate_tier fixed (fin 140_000) degraded defaults ≡ degraded
unfolding candidate_tier
band_holds = refl

few_samples_keep_tier_example :
    (advance_all fixed (fresh fixed) ((fin 900_000) ∷ (fin 900_000) ∷ []) defaults).tier ≡ good
few_samples_keep_tier_example =
    few_samples_keep_tier fixed (fresh fixed) ((fin 900_000) ∷ (fin 900_000) ∷ []) defaults
      (omega arith)

agreeing_samples_commit_example :
    ((advance_all fixed (fresh fixed) slow defaults).tier ≡ degraded)
    × ((advance_all fixed (fresh fixed) slow defaults).pending_tier ≡ none)
unfolding advance candidate_tier smooth settle is_rejected
agreeing_samples_commit_example =
    agreeing_samples_commit fixed degraded (fresh fixed) slow defaults refl refl (omega arith) refl
      (refl, refl, (refl, refl, (refl, refl, tt)))

defaults-IsOrdered : IsOrdered fixed fixed_order defaults
defaults-IsOrdered = record {
  finite_good = refl;
  finite_degraded = refl;
  finite_hysteresis = refl;
  increasing = refl;
  hysteresis_nonneg = refl;
  hysteresis_below = refl;
}
