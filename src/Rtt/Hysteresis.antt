-- ===== src/Rtt/Hysteresis.antt =====
-- A tier changes only after enough consecutive agreeing samples, and then it does.
use adaptive_gateway.Prelude.{
  ℕ, suc, ◌+◌, ◌≤◌, ◌<◌, ◌≡◌, refl, ◌∙◌, ◌⊎◌, inl, inr, true, false, Option, none, some, List, [],
  ◌∷◌, arith, length, Bool-cases,
}
use adaptive_gateway.Prelude.Floats.{Float}
use adaptive_gateway.Prelude.Ints.{ℤ, pos, pos_part, neg_part}
use adaptive_gateway.Rtt.{
  Tier, tier_eq, RttState, Thresholds, candidate_tier, smooth, settle, is_rejected, advance,
  advance_all,
}

tier_eq-eq : (a b : Tier) → tier_eq a b ≡ true → a ≡ b
tier_eq-eq a b h = ground arith

pub tier_eq_refl : (a : Tier) → tier_eq a a ≡ true
tier_eq_refl a = ground arith

-- A run that is pending is for another tier, has begun, and is short of the samples required.
abbrev pub Pending : Option Tier → Tier → ℤ → ℕ → Type 0
Pending none tier count required = count ≡ pos 0
Pending (some c) tier count required =
    (tier_eq c tier ≡ false)
    × (neg_part count ≡ 0)
    × (0 < pos_part count)
    × (pos_part count < required)

module _ (fl : Float) where
  open fl use {F, is_finite, lt, le, add, sub, mul, of_ℕ}

  abbrev pub IsSettled : Thresholds fl → RttState fl → Type 0
  IsSettled t s = Pending s.pending_tier s.tier s.pending_count t.transition_samples

  settle_cases :
      (s : RttState fl) (e : F) (c : Tier) (t : Thresholds fl)
      → pos_part s.pending_count + 1 < t.transition_samples
      → ((settle fl s e c t).tier ≡ s.tier)
        × (pos_part (settle fl s e c t).pending_count ≤ pos_part s.pending_count + 1)
  unfolding settle
  settle_cases s e c t h = ground arith

  -- A sample either leaves the tier and lengthens the pending run by one at most, or the run was
  -- one short.
  advance_cases :
      (s : RttState fl) (x : F) (t : Thresholds fl)
      → pos_part s.pending_count + 1 < t.transition_samples
      → ((advance fl s x t).tier ≡ s.tier)
        × (pos_part (advance fl s x t).pending_count ≤ pos_part s.pending_count + 1)
  unfolding advance
  advance_cases s x t h = elim (Bool-cases (is_rejected fl x)) [
    | inl e ↦ rw e (refl, omega arith)
    | inr e ↦ rw e (settle_cases s _ _ t h)
  ]

  settle-IsSettled :
      (s : RttState fl) (e : F) (c : Tier) (t : Thresholds fl)
      → IsSettled t s
      → IsSettled t (settle fl s e c t)
  unfolding settle
  settle-IsSettled s e c t h = ground arith

  -- Every sample keeps the invariant: a pending tier differs from the current one, and its run is
  -- nonempty and still short of the samples required.
  pub advance-IsSettled :
      (s : RttState fl) (x : F) (t : Thresholds fl) → IsSettled t s → IsSettled t (advance fl s x t)
  unfolding advance
  advance-IsSettled s x t h = elim (Bool-cases (is_rejected fl x)) [
    | inl e ↦ rw e h
    | inr e ↦ rw e (settle-IsSettled s _ _ t h)
  ]

  -- Fewer samples than are missing for a transition never change the tier, whatever they are.
  pub few_samples_keep_tier :
      (s : RttState fl) (xs : List F) (t : Thresholds fl)
      → pos_part s.pending_count + length xs < t.transition_samples
      → (advance_all fl s xs t).tier ≡ s.tier
  unfolding advance_all
  few_samples_keep_tier s [] t h = refl
  few_samples_keep_tier s (x ∷ xs) t h =
      let (same, grown) = advance_cases s x t (omega arith) in
      few_samples_keep_tier (advance fl s x t) xs t (omega arith) ∙ same

  -- Each sample is accepted and its candidate is `c`.
  abbrev pub Agrees : Tier → RttState fl → List F → Thresholds fl → Type 0
  Agrees c s [] t = Unit
  Agrees c s (x ∷ xs) t =
      (is_rejected fl x ≡ false)
      × (candidate_tier fl (smooth fl s.ewma x t) s.tier t ≡ c)
      × Agrees c (advance fl s x t) xs t

  -- One more agreeing sample on a run of `k`.
  continue_run :
      (c : Tier) (k : ℕ) (s : RttState fl) (x : F) (t : Thresholds fl)
      → is_rejected fl x ≡ false
      → candidate_tier fl (smooth fl s.ewma x t) s.tier t ≡ c
      → tier_eq c s.tier ≡ false
      → k ≡ 0 ⊎ (s.pending_tier ≡ some c) × (s.pending_count ≡ pos k)
      → suc k < t.transition_samples
      → s.pending_tier ≡ none ⊎ (0 < k)
      → ((advance fl s x t).pending_tier ≡ some c)
        × ((advance fl s x t).pending_count ≡ pos (suc k))
        × ((advance fl s x t).tier ≡ s.tier)
  unfolding advance settle
  continue_run c k s x t ok same ne run short begun = ground arith

  end_run :
      (c : Tier) (k : ℕ) (s : RttState fl) (x : F) (t : Thresholds fl)
      → is_rejected fl x ≡ false
      → candidate_tier fl (smooth fl s.ewma x t) s.tier t ≡ c
      → tier_eq c s.tier ≡ false
      → k ≡ 0 ⊎ (s.pending_tier ≡ some c) × (s.pending_count ≡ pos k)
      → s.pending_tier ≡ none ⊎ (0 < k)
      → suc k ≡ t.transition_samples
      → ((advance fl s x t).tier ≡ c) × ((advance fl s x t).pending_tier ≡ none)
  unfolding advance settle
  end_run c k s x t ok same ne run begun full = ground arith

  run_commits :
      (c : Tier) (k : ℕ) (s : RttState fl) (xs : List F) (t : Thresholds fl)
      → Agrees c s xs t
      → tier_eq c s.tier ≡ false
      → k ≡ 0 ⊎ (s.pending_tier ≡ some c) × (s.pending_count ≡ pos k)
      → s.pending_tier ≡ none ⊎ (0 < k)
      → k < t.transition_samples
      → k + length xs ≡ t.transition_samples
      → ((advance_all fl s xs t).tier ≡ c) × ((advance_all fl s xs t).pending_tier ≡ none)
  unfolding advance_all
  run_commits c k s [] t a ne run begun lt e = absurd (omega arith)
  run_commits c k s (x ∷ []) t (ok, same, rest) ne run begun lt e =
      end_run c k s x t ok same ne run begun (omega arith)
  run_commits c k s (x ∷ y ∷ xs) t (ok, same, rest) ne run begun lt e =
      let (p, n, tier) = continue_run c k s x t ok same ne run (omega arith) begun in
      run_commits c (suc k) (advance fl s x t) (y ∷ xs) t rest (rw tier ne) (inr (p, n))
        (inr (omega arith)) (omega arith) (omega arith)

  -- From a state with nothing pending, as many agreeing samples as are required commit the
  -- transition to their tier, and leave nothing pending.
  pub agreeing_samples_commit :
      (c : Tier) (s : RttState fl) (xs : List F) (t : Thresholds fl)
      → s.pending_tier ≡ none
      → tier_eq c s.tier ≡ false
      → 0 < t.transition_samples
      → length xs ≡ t.transition_samples
      → Agrees c s xs t
      → ((advance_all fl s xs t).tier ≡ c) × ((advance_all fl s xs t).pending_tier ≡ none)
  agreeing_samples_commit c s xs t idle ne required long a =
      run_commits c 0 s xs t a ne (inl refl) (inl idle) required (omega arith)
