-- ===== src/Study/Rotation/Balance.antt =====
-- benchmarks/run_study.py: how often a mode stands at a position of the schedule.
use native.Mathlib.Nat.{mod-eq_of_lt}
use adaptive_gateway.Prelude.{
  ℕ, zero, suc, ◌+◌, ◌-◌, ◌%◌, ◌<◌, ◌≡◌, refl, ap, ◌∙◌, Bool, true, false, ◌&&◌, ◌==◌, Option, none,
  some, List, [], ◌∷◌, length, get_elem?, arith,
}
use adaptive_gateway.Prelude.Texts.{Text, text_eq}
use adaptive_gateway.Prelude.Sorting.{bit, tally, tally-sorted, sorted}
use adaptive_gateway.Study.Pool.Sequence.{range}
use adaptive_gateway.Study.Rotation.{
  Turn, text_le, rotated, enumerate, trial_turns, initial_order, schedule,
}
use adaptive_gateway.Study.Rotation.Sums.{
  total, total-cong, total-split, total-shift, tally-concat, get-rotated_low, get-rotated_high,
}

-- Whether the mode is what stands there.
abbrev hit : Text → Option Text → ℕ
hit mode none = 0
hit mode (some m) = bit (text_eq mode m)

total-hit :
    (mode : Text) (modes : List Text)
    → total (λ t. hit mode (get_elem? modes t)) (range 0 (length modes))
      ≡ tally (text_eq mode) modes
total-hit mode [] = refl
total-hit mode (m ∷ ms) =
    let at : ℕ → ℕ = λ t. hit mode (get_elem? (m ∷ ms) t) in
    let shifted : total at (range 1 (length ms)) ≡ total (λ t. at (t + 1)) (range 0 (length ms)) =
      total-shift at 0 1 (length ms) in
    let same : total (λ t. at (t + 1)) (range 0 (length ms))
        ≡ total (λ t. hit mode (get_elem? ms t)) (range 0 (length ms)) =
      total-cong _ _ 0 (length ms) (λ t l h. let e : t + 1 ≡ suc t = omega arith in rw e refl) in
    omega (arith, shifted, same, total-hit mode ms)

-- The modes at one position, over as many trials as there are modes.
column :
    (mode : Text) (modes : List Text) (p : ℕ)
    → p < length modes
    → total (λ t. hit mode (get_elem? (rotated t modes) p)) (range 0 (length modes))
      ≡ tally (text_eq mode) modes
column mode modes p l =
    let n : ℕ = length modes in
    let rest : ℕ = n - p in
    let col : ℕ → ℕ = λ t. hit mode (get_elem? (rotated t modes) p) in
    let at : ℕ → ℕ = λ t. hit mode (get_elem? modes t) in
    let low : total col (range 0 rest) ≡ total (λ t. at (t + p)) (range 0 rest) =
      total-cong col _ 0 rest (λ t _ h. ap (hit mode) (get-rotated_low t p modes (omega arith))) in
    let high : total (λ t. col (t + rest)) (range 0 p) ≡ total at (range 0 p) =
      total-cong _ at 0 p (λ t _ h.
        let e : (n - (t + rest)) + t ≡ p = omega arith in
        let g : get_elem? (rotated (t + rest) modes) ((n - (t + rest)) + t) ≡ get_elem? modes t =
          get-rotated_high (t + rest) t modes (omega arith) (omega arith) in
        let back : get_elem? (rotated (t + rest) modes) p ≡ get_elem? modes t = rw e at g in
        ap (hit mode) back) in
    let there : n ≡ rest + p = omega arith in
    let back : p + rest ≡ n = omega arith in
    omega (
      arith,
      ap (λ m. total col (range 0 m)) there,
      total-split col 0 rest p,
      low,
      total-shift at 0 p rest,
      total-shift col 0 rest p,
      high,
      total-split at 0 p rest,
      ap (λ m. total at (range 0 m)) back,
      total-hit mode modes,
    )

-- a turn of the mode at the position
abbrev pub stands : ℕ → Text → Turn → Bool
stands position mode turn = (turn.position == position) && text_eq mode turn.mode

enumerate-later :
    (position from : ℕ) (mode trial_id : Text) (modes : List Text)
    → position < from
    → tally (stands position mode) (enumerate trial_id from modes) ≡ 0
enumerate-later position from mode trial_id [] l = refl
enumerate-later position from mode trial_id (m ∷ ms) l =
    let e : (from == position) ≡ false = ground arith in
    rw e (omega (arith, enumerate-later position (from + 1) mode trial_id ms (omega arith)))

enumerate-hit :
    (position from p : ℕ) (mode trial_id : Text) (modes : List Text)
    → position ≡ from + p
    → tally (stands position mode) (enumerate trial_id from modes) ≡ hit mode (get_elem? modes p)
enumerate-hit position from p mode trial_id [] e = refl
enumerate-hit position from zero mode trial_id (m ∷ ms) e =
    let h : (from == position) ≡ true = ground arith in
    rw h (omega (arith, enumerate-later position (from + 1) mode trial_id ms (omega arith)))
enumerate-hit position from (suc p) mode trial_id (m ∷ ms) e =
    let h : (from == position) ≡ false = ground arith in
    rw h (omega (arith, enumerate-hit position (from + 1) p mode trial_id ms (omega arith)))

tally-true : (xs : List Text) → tally (λ _. true) xs ≡ length xs
tally-true [] = refl
tally-true (x ∷ xs) = omega (arith, tally-true xs)

-- Where the shuffle keeps how many elements pass a test: over as many trials as there are modes, a mode stands at each position as often as it is given, so each of distinct modes
-- stands there once.
pub schedule-balanced :
    (shuffle : List Text → List Text) (modes : List Text) (mode : Text) (p : ℕ)
    → ((test : Text → Bool) (xs : List Text) → tally test (shuffle xs) ≡ tally test xs)
    → p < length modes
    → tally (stands (p + 1) mode) (schedule shuffle (length modes) modes)
      ≡ tally (text_eq mode) modes
unfolding schedule trial_turns
schedule-balanced shuffle modes mode p keeps l =
    let initial : List Text = initial_order shuffle modes in
    let size : length initial ≡ length modes = omega (
      arith,
      tally-true initial,
      tally-true modes,
      keeps (λ _. true) (sorted text_le modes),
      tally-sorted text_le (λ _. true) modes,
    ) in
    let turn : total (λ t. tally (stands (p + 1) mode) (trial_turns initial t))
          (range 0 (length modes))
        ≡ total (λ t. hit mode (get_elem? (rotated t initial) p)) (range 0 (length modes)) =
      total-cong _ _ 0 (length modes) (λ t _ h.
        let e : t % length initial ≡ t = mod-eq_of_lt (omega (arith, size)) in
        rw e (enumerate-hit (p + 1) 1 p mode _ _ (omega arith))) in
    let done : total (λ t. hit mode (get_elem? (rotated t initial) p)) (range 0 (length modes))
        ≡ tally (text_eq mode) initial =
      rw (← size) (column mode initial p (omega (arith, size))) in
    tally-concat (stands (p + 1) mode) (trial_turns initial) (range 0 (length modes))
    ∙ (turn
        ∙ (done
            ∙ (keeps (text_eq mode) (sorted text_le modes)
                ∙ tally-sorted text_le (text_eq mode) modes)))
