-- ===== src/Study/Rotation/Tests.antt =====
-- Three modes, which the shuffle reverses.
use adaptive_gateway.Prelude.{◌≡◌, refl, Bool, List, [], ◌∷◌, ◌++◌, map, arith}
use adaptive_gateway.Prelude.Texts.{Text, str, texts}
use adaptive_gateway.Prelude.Sorting.{tally, tally-append, sorted, insert}
use adaptive_gateway.Study.Rotation.{initial_order, trial_turns, schedule}
use adaptive_gateway.Study.Rotation.Balance.{stands, schedule-balanced}

abbrev backwards : List Text → List Text
backwards [] = []
backwards (x ∷ xs) = backwards xs ++ x ∷ []

backwards-tally : (test : Text → Bool) (xs : List Text) → tally test (backwards xs) ≡ tally test xs
backwards-tally test [] = refl
backwards-tally test (x ∷ xs) =
    omega (arith, tally-append test (backwards xs) (x ∷ []), backwards-tally test xs)

abbrev modes : List Text
modes = str "full" ∷ str "removal" ∷ str "combined" ∷ []

second_trial :
    map (λ turn. turn.mode) (trial_turns (initial_order backwards modes) 1)
    ≡ str "full" ∷ str "combined" ∷ str "removal" ∷ []
unfolding trial_turns sorted insert texts
second_trial = refl

schedule-balanced_example : tally (stands 2 (str "full")) (schedule backwards 3 modes) ≡ 1
unfolding texts
schedule-balanced_example =
    schedule-balanced backwards modes (str "full") 1 backwards-tally (omega arith)
