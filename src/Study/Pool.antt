-- ===== src/Study/Pool.antt =====
-- benchmarks/study_measurement.py: `measure_block`, closed-loop workers that share the next request id
-- and the results. Between two awaits a worker runs alone.
pub mod Flight
pub mod Ending
pub mod Sequence
mod Tests
use adaptive_gateway.Prelude.{
  ℕ, zero, suc, ◌+◌, ◌≡◌, Bool, true, false, Option, none, some, List, [], ◌∷◌, ◌++◌, leb, min,
  if◌then◌else◌,
}
use adaptive_gateway.Prelude.Results.{Exc, Result, ok, raise}
use adaptive_gateway.Prelude.Sorting.{sorted}

-- A coroutine `worker`: before its first step, awaiting `measure_request`, or ended. The id in `failed`
-- is that of the request which raised.
pub data Worker : Type 0 where
  ready : Worker
  awaiting : ℕ → Worker
  returned : Worker
  failed : ℕ → Worker

pub record Block (R : Type 0) : Type 0 where
  pub next_id : ℕ
  pub results : List (ℕ × R)
  pub workers : List Worker
  -- the first exception, which asyncio.gather passes on
  pub error : Option Exc

abbrev pub is_live : Worker → Bool
is_live ready = true
is_live (awaiting _) = true
is_live returned = false
is_live (failed _) = false

abbrev pub first_error : Option Exc → Exc → Option Exc
first_error none e = some e
first_error (some e) _ = some e

abbrev pub repeat : ℕ → List Worker
repeat zero = []
repeat (suc n) = Worker.ready ∷ repeat n

-- worker() for _ in range(min(count, concurrency))
abbrev pub start : {R : Type 0} → ℕ → ℕ → Block R
start count concurrency = record {
  next_id = 1;
  results = [];
  workers = repeat (min count concurrency);
  error = none;
}

module _ {R : Type 0} (measure_request : ℕ → Result R) (count : ℕ) where
  -- while next_id <= count: the worker either takes the next id or returns.
  unfoldable pub loop : List Worker → List Worker → ℕ → List (ℕ × R) → Option Exc → Block R
  loop before after next results error =
      if leb next count
      then record {
        next_id = next + 1;
        results = results;
        workers = before ++ awaiting next ∷ after;
        error = error;
      }
      else record {
        next_id = next;
        results = results;
        workers = before ++ returned ∷ after;
        error = error;
      }

  abbrev pub receive : List Worker → ℕ → Result R → List Worker → Block R → Block R
  receive before id (ok row) after b =
      loop before after b.next_id (b.results ++ (id, row) ∷ []) b.error
  receive before id (raise e) after b = record b {
    workers = before ++ failed id ∷ after;
    error = first_error b.error e;
  }

  -- A worker that can run does so until its next await or its end.
  unfoldable pub resume : List Worker → Worker → List Worker → Block R → Block R
  resume before ready after b = loop before after b.next_id b.results b.error
  resume before (awaiting id) after b = receive before id (measure_request id) after b
  resume before returned after b = b
  resume before (failed _) after b = b

  -- The event loop chooses who runs next.
  pub data Step (b : Block R) : Block R → Type 0 where
    run :
        (before : List Worker) (w : Worker) (after : List Worker)
        → b.workers ≡ before ++ w ∷ after
        → is_live w ≡ true
        → Step b (resume before w after b)

  -- what can be reached in a number of steps
  pub data Reach (b : Block R) : ℕ → Block R → Type 0 where
    here : Reach b 0 b
    later : {k : ℕ} {c d : Block R} → Reach b k c → Step c d → Reach b (suc k) d

abbrev pub any_live : List Worker → Bool
any_live [] = false
any_live (w ∷ ws) = let rest = any_live ws in if is_live w then true else rest

abbrev pub by_id : {R : Type 0} → ℕ × R → ℕ × R → Bool
by_id x y = leb x.0 y.0

-- What the call answers: `gather` raises as soon as a worker does, and else waits for all of them.
unfoldable pub outcome : {R : Type 0} → Block R → Option (Result (List (ℕ × R)))
outcome b = elim b.error [
  | some e ↦ some (raise e)
  | none ↦ if any_live b.workers then none else some (ok (sorted by_id b.results))
]
