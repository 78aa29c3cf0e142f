-- ===== src/Rtt/Bands.antt =====
-- The dwell bands of `candidate_tier`: when it stays, and that it is monotone in the estimate.
use adaptive_gateway.Prelude.{◌≤◌, ◌≡◌, ◌↔◌, Bool, true, false, not, arith}
use adaptive_gateway.Prelude.Floats.{Float, FloatOrder}
use adaptive_gateway.Rtt.{Tier, good, degraded, poor, order, Thresholds, candidate_tier}

module _ (fl : Float) (laws : FloatOrder fl) where
  open fl use {F, is_finite, lt, le, add, sub, mul, of_ℕ}
  open laws use {lt-eq-not-le, le_trans, sub-le, sub-le-sub, sub_finite}

  -- What the settings' validator demands of the thresholds, `allow_inf_nan=False` included.
  pub record IsOrdered (t : Thresholds fl) : Type 0 where
    pub finite_good : is_finite t.good_ms ≡ true
    pub finite_degraded : is_finite t.degraded_ms ≡ true
    pub finite_hysteresis : is_finite t.hysteresis_ms ≡ true
    pub increasing : le t.good_ms t.degraded_ms ≡ true
    pub hysteresis_nonneg : le (of_ℕ 0) t.hysteresis_ms ≡ true
    pub hysteresis_below : le t.hysteresis_ms t.good_ms ≡ true

  -- The tests of `candidate_tier` on one value, each with what it implies.
  record Ladder (v : F) (t : Thresholds fl) : Type 0 where
    below : lt v (sub t.good_ms t.hysteresis_ms) ≡ not (le (sub t.good_ms t.hysteresis_ms) v)
    up : le t.degraded_ms v ≡ true → le t.good_ms v ≡ true
    down_good : le t.good_ms v ≡ true → le (sub t.good_ms t.hysteresis_ms) v ≡ true
    down_degraded : le t.degraded_ms v ≡ true → le (sub t.degraded_ms t.hysteresis_ms) v ≡ true
    down :
        le (sub t.degraded_ms t.hysteresis_ms) v ≡ true
        → le (sub t.good_ms t.hysteresis_ms) v ≡ true

  ladder : (v : F) (t : Thresholds fl) → IsOrdered t → is_finite v ≡ true → Ladder v t
  ladder v t o fv = record {
    below =
        lt-eq-not-le _ _ fv
          (sub_finite _ _ o.finite_good o.finite_hysteresis o.hysteresis_nonneg o.hysteresis_below);
    up = le_trans _ _ _ o.increasing;
    down_good = le_trans _ _ _ (sub-le _ _ o.finite_good o.finite_hysteresis o.hysteresis_nonneg);
    down_degraded =
        le_trans _ _ _ (sub-le _ _ o.finite_degraded o.finite_hysteresis o.hysteresis_nonneg);
    down =
        le_trans _ _ _
          (sub-le-sub _ _ _ o.finite_good o.finite_degraded o.finite_hysteresis o.increasing);
  }

  -- The lower end of the values that keep a tier, and whether a value is below the upper end.
  abbrev pub reaches : F → Tier → Thresholds fl → Bool
  reaches v good t = true
  reaches v degraded t = le (sub t.good_ms t.hysteresis_ms) v
  reaches v poor t = le (sub t.degraded_ms t.hysteresis_ms) v

  abbrev pub exceeds : F → Tier → Thresholds fl → Bool
  exceeds v good t = le t.good_ms v
  exceeds v degraded t = le t.degraded_ms v
  exceeds v poor t = false

  -- At a finite estimate the tier is kept exactly in its dwell band: from the down-threshold of
  -- the tier, up to and without the up-threshold of the next.
  pub kept_iff :
      (v : F) (current : Tier) (t : Thresholds fl)
      → IsOrdered t
      → is_finite v ≡ true
      → (candidate_tier fl v current t ≡ current)
        ↔ ((reaches v current t ≡ true) × (exceeds v current t ≡ false))
  unfolding candidate_tier
  kept_iff v current t o fv = let l = ladder v t o fv in ground arith

  -- A slower estimate never gets a better tier, from the same current tier.
  pub candidate_mono :
      (v w : F) (current : Tier) (t : Thresholds fl)
      → IsOrdered t
      → is_finite v ≡ true
      → is_finite w ≡ true
      → le v w ≡ true
      → order (candidate_tier fl v current t) ≤ order (candidate_tier fl w current t)
  unfolding candidate_tier
  candidate_mono v w current t o fv fw h =
      let a = ladder v t o fv in
      let b = ladder w t o fw in
      let up = λ (x : F). λ (k : le x v ≡ true). le_trans x v w k h in
      ground (
        arith,
        up t.good_ms,
        up t.degraded_ms,
        up (sub t.good_ms t.hysteresis_ms),
        up (sub t.degraded_ms t.hysteresis_ms),
      )
