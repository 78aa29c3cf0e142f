-- ===== src/Study/Pool/Tests.antt =====
-- Two workers on the two requests of a block, the second of which is answered first.
use adaptive_gateway.Prelude.{ℕ, ◌+◌, ◌*◌, ◌≤◌, ◌≡◌, refl, none, some, [], ◌∷◌, arith}
use adaptive_gateway.Prelude.Results.{Result, ok}
use adaptive_gateway.Prelude.Sorting.{tally, sorted, insert}
use adaptive_gateway.Study.Pool.{
  ready, awaiting, returned, Block, is_live, start, resume, loop, Step, run, Reach, here, later,
  outcome,
}
use adaptive_gateway.Study.Pool.Ending.{remaining, measure_block_ends}
use adaptive_gateway.Study.Pool.Sequence.{Refines, measure_block-one_by_one}

abbrev measure : ℕ → Result ℕ
measure id = ok (10 * id)

abbrev halfway : Block ℕ
halfway = record {
  next_id = 3;
  results = (2, 20) ∷ [];
  workers = awaiting 1 ∷ returned ∷ [];
  error = none;
}

abbrev over : Block ℕ
over = record {
  next_id = 3;
  results = (2, 20) ∷ (1, 10) ∷ [];
  workers = returned ∷ returned ∷ [];
  error = none;
}

to_halfway : Reach measure 2 (start 2 2) 3 halfway
unfolding resume loop
to_halfway =
    later
      (later (later here (run [] ready (ready ∷ []) refl refl))
        (run (awaiting 1 ∷ []) ready [] refl refl))
      (run (awaiting 1 ∷ []) (awaiting 2) [] refl refl)

to_over : Reach measure 2 (start 2 2) 4 over
unfolding resume loop
to_over = later to_halfway (run [] (awaiting 1) (returned ∷ []) refl refl)

over-outcome : outcome over ≡ some (ok ((1, 10) ∷ (2, 20) ∷ []))
unfolding outcome sorted insert
over-outcome = refl

measure_block_ends_example :
    (3 + remaining measure 2 halfway ≡ 4)
    × (tally is_live halfway.workers ≤ 2)
    × (outcome halfway ≡ none → (c : Block ℕ) × Step measure 2 halfway c)
measure_block_ends_example = measure_block_ends measure 2 2 to_halfway

measure_block-one_by_one_example : Refines measure 2 (ok ((1, 10) ∷ (2, 20) ∷ []))
measure_block-one_by_one_example =
    measure_block-one_by_one measure 2 2 to_over (omega arith) (ok ((1, 10) ∷ (2, 20) ∷ []))
      over-outcome
