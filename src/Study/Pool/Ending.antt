-- ===== src/Study/Pool/Ending.antt =====
-- benchmarks/study_measurement.py: how many steps `measure_block` takes.
use adaptive_gateway.Prelude.{
  ℕ, zero, suc, ◌+◌, ◌-◌, ◌≤◌, ◌≡◌, refl, ap, true, none, List, [], ◌∷◌, ◌++◌, leb, min, arith,
  Bool-cases, inl, inr, length, length-append,
}
use adaptive_gateway.Prelude.Results.{Result, Result-cases}
use adaptive_gateway.Prelude.Sorting.{bit, tally}
use adaptive_gateway.Study.Pool.{
  Worker, ready, awaiting, returned, failed, Block, is_live, any_live, repeat, start, loop, resume,
  Step, run, Reach, here, later, outcome,
}
use adaptive_gateway.Study.Pool.Flight.{is_returned, is_failed, tally-slot, IsFair, Reach-IsFair}

length-slot :
    (before : List Worker) (w v : Worker) (after : List Worker)
    → length (before ++ w ∷ after) ≡ length (before ++ v ∷ after)
length-slot before w v after =
    omega (arith, length-append before (w ∷ after), length-append before (v ∷ after))

-- every worker is live, has returned or has failed
pub three_kinds :
    (ws : List Worker) → tally is_live ws + (tally is_returned ws + tally is_failed ws) ≡ length ws
three_kinds [] = omega arith
three_kinds (ready ∷ ws) = omega (arith, three_kinds ws)
three_kinds (awaiting j ∷ ws) = omega (arith, three_kinds ws)
three_kinds (returned ∷ ws) = omega (arith, three_kinds ws)
three_kinds (failed j ∷ ws) = omega (arith, three_kinds ws)

module _ {R : Type 0} (measure_request : ℕ → Result R) (count : ℕ) where
  -- the ids not given out yet and the workers that have not ended
  abbrev pub remaining : Block R → ℕ
  remaining b = (count + 1 - b.next_id) + tally is_live b.workers

  abbrev pub Follows : Block R → Block R → Type 0
  Follows b c = (remaining b ≡ suc (remaining c)) × (length c.workers ≡ length b.workers)

  loop-Follows :
      (before : List Worker) (w : Worker) (after : List Worker) (b : Block R)
      (results : List (ℕ × R))
      → b.workers ≡ before ++ w ∷ after
      → is_live w ≡ true
      → b.next_id ≤ count + 1
      → Follows b (loop measure_request count before after b.next_id results b.error)
  unfolding loop
  loop-Follows before w after b results e l h =
      let slot : tally is_live b.workers
          ≡ bit (is_live w) + (tally is_live before + tally is_live after) =
        rw e (tally-slot is_live before w after) in
      elim (Bool-cases (leb b.next_id count)) [
        | inl t ↦
            let taken_id : b.next_id ≤ count = ground arith in
            rw t (
              omega (
                arith,
                slot,
                ap bit l,
                tally-slot is_live before (awaiting b.next_id) after,
                taken_id,
              ),
              rw e (length-slot before (awaiting b.next_id) w after),
            )
        | inr t ↦ rw t (
          omega (arith, slot, ap bit l, tally-slot is_live before returned after),
          rw e (length-slot before returned w after),
        )
      ]

  Step-Follows :
      {b c : Block R}
      → Step measure_request count b c
      → IsFair measure_request count b
      → Follows b c
  unfolding resume
  Step-Follows {b} (run before ready after e l) f =
      loop-Follows before ready after b b.results e l f.high
  Step-Follows {b} (run before (awaiting id) after e l) f =
      elim (Result-cases (measure_request id)) [
        | inl (row, m) ↦
            rw m
              (loop-Follows before (awaiting id) after b (b.results ++ (id, row) ∷ []) e l f.high)
        | inr (x, m) ↦
            let slot : tally is_live b.workers ≡ 1 + (tally is_live before + tally is_live after) =
              rw e (tally-slot is_live before (awaiting id) after) in
            rw m (
              omega (arith, slot, tally-slot is_live before (failed id) after),
              rw e (length-slot before (failed id) (awaiting id) after),
            )
      ]
  Step-Follows (run before returned after e l) f = cc
  Step-Follows (run before (failed id) after e l) f = cc

  length-repeat : (n : ℕ) → length (repeat n) ≡ n
  length-repeat zero = refl
  length-repeat (suc n) = ap suc (length-repeat n)

  live-repeat : (n : ℕ) → tally is_live (repeat n) ≡ n
  live-repeat zero = refl
  live-repeat (suc n) = omega (arith, live-repeat n)

  pub Reach-length :
      (concurrency : ℕ) {k : ℕ} {b : Block R}
      → Reach measure_request count (start count concurrency) k b
      → length b.workers ≡ min count concurrency
  Reach-length concurrency here = length-repeat (min count concurrency)
  Reach-length concurrency (later r s) = omega (
    arith,
    (Step-Follows s (Reach-IsFair measure_request count concurrency r)).1,
    Reach-length concurrency r,
  )

  Reach-remaining :
      (concurrency : ℕ) {k : ℕ} {b : Block R}
      → Reach measure_request count (start count concurrency) k b
      → k + remaining b ≡ count + min count concurrency
  Reach-remaining concurrency here = omega (arith, live-repeat (min count concurrency))
  Reach-remaining concurrency (later r s) = omega (
    arith,
    (Step-Follows s (Reach-IsFair measure_request count concurrency r)).0,
    Reach-remaining concurrency r,
  )

  live_slot :
      (ws : List Worker)
      → any_live ws ≡ true
      → (before : List Worker) × (w : Worker) × (after : List Worker) × (ws ≡ before ++ w ∷ after)
        × (is_live w ≡ true)
  live_slot [] h = cc
  live_slot (ready ∷ ws) h = ([], ready, ws, refl, refl)
  live_slot (awaiting j ∷ ws) h = ([], awaiting j, ws, refl, refl)
  live_slot (returned ∷ ws) h =
      let (before, w, after, e, l) = live_slot ws h in
      (returned ∷ before, w, after, ap (λ vs. returned ∷ vs) e, l)
  live_slot (failed j ∷ ws) h =
      let (before, w, after, e, l) = live_slot ws h in
      (failed j ∷ before, w, after, ap (λ vs. failed j ∷ vs) e, l)

  pending : (b : Block R) → outcome b ≡ none → any_live b.workers ≡ true
  unfolding outcome
  pending b h = ground arith

  -- After k steps from the start, the ids not given out and the workers not ended are together k fewer
  -- than count + min(count, concurrency), so no run is longer than that; at most min(count, concurrency)
  -- workers have not ended; and while the call has no outcome a step is possible.
  pub measure_block_ends :
      (concurrency : ℕ) {k : ℕ} {b : Block R}
      → Reach measure_request count (start count concurrency) k b
      → (k + remaining b ≡ count + min count concurrency)
        × (tally is_live b.workers ≤ min count concurrency)
        × (outcome b ≡ none → (c : Block R) × Step measure_request count b c)
  measure_block_ends concurrency {k} {b} r = (
    Reach-remaining concurrency r,
    omega (arith, three_kinds b.workers, Reach-length concurrency r),
    λ h.
        let (before, w, after, e, l) = live_slot b.workers (pending b h) in
        (resume measure_request count before w after b, run before w after e l),
  )
