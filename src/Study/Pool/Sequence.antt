-- ===== src/Study/Pool/Sequence.antt =====
-- benchmarks/study_measurement.py: `measure_block` against a loop that makes one request after another.
use adaptive_gateway.Prelude.{
  ℕ, zero, suc, ◌+◌, ◌≤◌, ◌≡◌, refl, ap, true, false, none, some, List, [], ◌∷◌, ◌&&◌, ◌==◌, leb,
  ltb, map, arith, Bool-cases, Option-cases, inl, inr, All, ◌⊎◌,
}
use adaptive_gateway.Prelude.Results.{Result, ok, raise, ◌>>=◌}
use adaptive_gateway.Prelude.Sorting.{
  bit, tally, sorted, IsSorted, tally-sorted, All-sorted, sorted-IsSorted,
}
use adaptive_gateway.Study.Pool.{
  Worker, ready, awaiting, returned, failed, Block, is_live, any_live, by_id, start, Reach, outcome,
}
use adaptive_gateway.Study.Pool.Ending.{three_kinds, Reach-length}
use adaptive_gateway.Study.Pool.Flight.{holds, is_failed, IsFair, Reach-IsFair}

-- from, from + 1, ... : range(from, from + n)
abbrev pub range : ℕ → ℕ → List ℕ
range from zero = []
range from (suc n) = from ∷ range (from + 1) n

-- for request_id in ids: rows.append((request_id, measure_request(request_id)))
unfoldable pub one_by_one : {R : Type 0} → (ℕ → Result R) → List ℕ → Result (List (ℕ × R))
one_by_one measure_request [] = ok []
one_by_one measure_request (id ∷ ids) =
    measure_request id >>= λ row. one_by_one measure_request ids >>= λ rows. ok ((id, row) ∷ rows)

abbrev between : ℕ → ℕ → ℕ → ℕ
between from n id = bit (leb from id && ltb id (from + n))

zero_or_more : (n : ℕ) → (n ≡ 0) ⊎ (1 ≤ n)
zero_or_more zero = inl refl
zero_or_more (suc n) = inr (omega arith)

between-low : (from n id : ℕ) → 1 ≤ between from n id → from ≤ id
between-low from n id h = ground arith

between-step :
    (from n id : ℕ) → between from (suc n) id ≡ bit (from == id) + between (from + 1) n id
between-step from n id = ground arith

module _ {R : Type 0} where
  -- A list in the order of its ids which has each id of a range once has the range's ids.
  tally-above :
      (id low : ℕ) (rows : List (ℕ × R))
      → All (λ r. leb low r.0 ≡ true) rows
      → 1 ≤ tally (λ r. r.0 == id) rows
      → low ≤ id
  tally-above id low [] a h = absurd (omega arith)
  tally-above id low (r ∷ rows) (l, a) h = elim (Bool-cases (r.0 == id)) [
    | inl e ↦ ground arith
    | inr e ↦ tally-above id low rows a (omega (arith, ap bit e))
  ]

  between-first :
      (from n : ℕ) (r : ℕ × R) (rows : List (ℕ × R))
      → IsSorted by_id (r ∷ rows)
      → ((id : ℕ) → tally (λ q. q.0 == id) (r ∷ rows) ≡ between from (suc n) id)
      → r.0 ≡ from
  between-first from n r rows (a, s) t =
      let e : (r.0 == r.0) ≡ true = ground arith in
      let h : between from (suc n) from ≡ 1 = ground arith in
      let above : 1 ≤ between from (suc n) r.0 = omega (arith, t r.0, ap bit e) in
      let below : r.0 ≤ from =
        tally-above from r.0 (r ∷ rows) (ground arith, a) (omega (arith, t from, h)) in
      omega (arith, between-low from (suc n) r.0 above)

  ids-range :
      (from n : ℕ) (rows : List (ℕ × R))
      → IsSorted by_id rows
      → ((id : ℕ) → tally (λ r. r.0 == id) rows ≡ between from n id)
      → map (λ r. r.0) rows ≡ range from n
  ids-range from zero [] s t = refl
  ids-range from zero (r ∷ rows) s t =
      let e : (r.0 == r.0) ≡ true = ground arith in
      let h : between from 0 r.0 ≡ 0 = ground arith in absurd (omega (arith, t r.0, h, ap bit e))
  ids-range from (suc n) [] s t =
      let h : between from (suc n) from ≡ 1 = ground arith in absurd (omega (arith, t from, h))
  ids-range from (suc n) (r ∷ rows) s t =
      let first = between-first from n r rows s t in
      rw first (
        ap (λ ids. from ∷ ids)
          (ids-range (from + 1) n rows s.1
            (λ id. omega (arith, t id, between-step from n id, ap (λ k. bit (k == id)) first))))

pub any_live-tally : (ws : List Worker) → any_live ws ≡ false → tally is_live ws ≡ 0
any_live-tally [] h = refl
any_live-tally (ready ∷ ws) h = cc
any_live-tally (awaiting j ∷ ws) h = cc
any_live-tally (returned ∷ ws) h = omega (arith, any_live-tally ws h)
any_live-tally (failed j ∷ ws) h = omega (arith, any_live-tally ws h)

-- a worker is live, or has returned, or has failed; only the first and the last hold an id
none_held :
    (id : ℕ) (ws : List Worker)
    → tally is_live ws ≡ 0
    → tally is_failed ws ≡ 0
    → tally (holds id) ws ≡ 0
none_held id [] l f = refl
none_held id (ready ∷ ws) l f = absurd (omega arith)
none_held id (awaiting j ∷ ws) l f = absurd (omega arith)
none_held id (returned ∷ ws) l f = omega (arith, none_held id ws (omega arith) (omega arith))
none_held id (failed j ∷ ws) l f = absurd (omega arith)

module _ {R : Type 0} (measure_request : ℕ → Result R) where
  rows-one_by_one :
      (rows : List (ℕ × R))
      → All (λ r. measure_request r.0 ≡ ok r.1) rows
      → one_by_one measure_request (map (λ r. r.0) rows) ≡ ok rows
  unfolding one_by_one
  rows-one_by_one [] a = refl
  rows-one_by_one (r ∷ rows) (h, a) = rw (h, rows-one_by_one rows a) refl

  no_failures :
      (count : ℕ) (b : Block R)
      → IsFair measure_request count b
      → b.error ≡ none
      → tally is_failed b.workers ≡ 0
  no_failures count b fair e = elim (zero_or_more (tally is_failed b.workers)) [
    | inl z ↦ z
    | inr p ↦ let (x, q) = fair.erred p in cc
  ]

  -- all ids have been given out when every worker has returned
  all_given :
      (count concurrency : ℕ) {k : ℕ} {b : Block R}
      → Reach measure_request count (start count concurrency) k b
      → 1 ≤ concurrency
      → tally is_live b.workers ≡ 0
      → tally is_failed b.workers ≡ 0
      → b.next_id ≡ count + 1
  all_given zero concurrency {k} {b} r c l f =
      let fair = Reach-IsFair measure_request 0 concurrency r in omega (arith, fair.low, fair.high)
  all_given (suc n) concurrency {k} {b} r c l f =
      (Reach-IsFair measure_request (suc n) concurrency r).ended
        (omega (arith, three_kinds b.workers, Reach-length measure_request (suc n) concurrency r))

  abbrev pub Refines : ℕ → Result (List (ℕ × R)) → Type 0
  Refines count (ok rows) = one_by_one measure_request (range 1 count) ≡ ok rows
  Refines count (raise e) = (id : ℕ) × (1 ≤ id) × (id ≤ count) × (measure_request id ≡ raise e)

  module _ (count concurrency : ℕ) {k : ℕ} {b : Block R}
      (r : Reach measure_request count (start count concurrency) k b) (c : 1 ≤ concurrency) where
    finished :
        any_live b.workers ≡ false → b.error ≡ none → Refines count (ok (sorted by_id b.results))
    finished h e =
        let fair = Reach-IsFair measure_request count concurrency r in
        let l = any_live-tally b.workers h in
        let f : tally is_failed b.workers ≡ 0 = no_failures count b fair e in
        let given : b.next_id ≡ 1 + count = omega (arith, all_given count concurrency r c l f) in
        let ids : map (λ row. row.0) (sorted by_id b.results) ≡ range 1 count =
          ids-range 1 count (sorted by_id b.results)
            (sorted-IsSorted by_id (λ x y h. ground arith) (λ x y z p q. ground arith) b.results)
            (λ id. omega (
              arith,
              tally-sorted by_id (λ row. row.0 == id) b.results,
              fair.once id,
              none_held id b.workers l f,
              ap (λ n. bit (leb 1 id && ltb id n)) given,
            )) in
        rw (← ids)
          (rows-one_by_one (sorted by_id b.results) (All-sorted by_id _ b.results fair.answered))

    -- With at least one worker, whatever order the event loop runs the workers in: a list that the call
    -- returns is the list that making the requests 1, ..., count one after another gives, in the order
    -- of their ids; and an exception it raises is that of one of these requests.
    pub measure_block-one_by_one :
        (answer : Result (List (ℕ × R))) → outcome b ≡ some answer → Refines count answer
    unfolding outcome
    measure_block-one_by_one answer h = elim (Option-cases b.error) [
      | inl e ↦ elim (Bool-cases (any_live b.workers)) [
        | inl l ↦ let g = rw e at h in let q = rw l at g in cc
        | inr l ↦
            let a : answer ≡ ok (sorted by_id b.results) =
              let g = rw e at h in let q = rw l at g in cc in
            rw a (finished l e)
      ]
      | inr (x, e) ↦
          let a : answer ≡ raise x = let g = rw e at h in cc in
          rw a ((Reach-IsFair measure_request count concurrency r).cause x e)
    ]
