-- ===== src/Study/Rotation.antt =====
-- benchmarks/run_study.py: `schedule`, which shuffles the modes and rotates them by one for each trial.
pub mod Balance
mod Sums
mod Tests
use adaptive_gateway.Prelude.{
  ℕ, zero, suc, ◌+◌, ◌%◌, Bool, true, false, not, List, [], ◌∷◌, ◌++◌, map, take, length, ltb,
  if◌then◌else◌,
}
use adaptive_gateway.Prelude.Texts.{Text, str, decimal, less}
use adaptive_gateway.Prelude.Sorting.{sorted}
use adaptive_gateway.Study.Pool.Sequence.{range}
use adaptive_gateway.Study.Observations.{concat}

pub record Turn : Type 0 where
  pub trial_id : Text
  pub position : ℕ
  pub mode : Text

-- s <= t for strings
abbrev pub text_le : Text → Text → Bool
text_le s t = not (less t s)

abbrev pub drop {ℓ} : {A : Type ℓ} → ℕ → List A → List A
drop zero xs = xs
drop (suc n) [] = []
drop (suc n) (x ∷ xs) = drop n xs

-- initial[k:] + initial[:k]
abbrev pub rotated {ℓ} : {A : Type ℓ} → ℕ → List A → List A
rotated k xs = drop k xs ++ take k xs

-- f"{n:03d}"
abbrev padded : Text → Text
padded (c ∷ []) = str "00" ++ (c ∷ [])
padded (c ∷ d ∷ []) = str "0" ++ (c ∷ d ∷ [])
padded digits = digits

abbrev pub enumerate : Text → ℕ → List Text → List Turn
enumerate trial_id position [] = []
enumerate trial_id position (mode ∷ modes) =
    record { trial_id = trial_id; position = position; mode = mode }
    ∷ enumerate trial_id (position + 1) modes

-- The turns of one trial. `validate_args` has made sure that there are modes.
unfoldable pub trial_turns : List Text → ℕ → List Turn
trial_turns initial trial =
    enumerate (str "trial_" ++ padded (decimal (trial + 1))) 1
      (rotated (trial % length initial) initial)

-- `shuffle` is random.Random(seed).shuffle.
abbrev pub initial_order : (List Text → List Text) → List Text → List Text
initial_order shuffle modes = shuffle (sorted text_le modes)

unfoldable pub schedule : (List Text → List Text) → ℕ → List Text → List Turn
schedule shuffle trials modes =
    concat (map (trial_turns (initial_order shuffle modes)) (range 0 trials))
