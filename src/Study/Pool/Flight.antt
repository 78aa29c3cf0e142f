-- ===== src/Study/Pool/Flight.antt =====
-- benchmarks/study_measurement.py: what holds between the steps of `measure_block`.
use adaptive_gateway.Prelude.{
  ℕ, zero, suc, ◌+◌, ◌≤◌, ◌<◌, ◌≡◌, refl, sym, ap, Bool, true, false, Option, none, some, List, [],
  ◌∷◌, ◌++◌, ◌&&◌, ◌==◌, leb, ltb, min, arith, Bool-cases, inl, inr, All, All-append,
}
use adaptive_gateway.Prelude.Results.{Exc, Result, ok, raise, Result-cases}
use adaptive_gateway.Prelude.Sorting.{bit, tally, tally-append}
use adaptive_gateway.Study.Pool.{
  Worker, ready, awaiting, returned, failed, Block, first_error, repeat, start, loop, receive,
  resume, Step, run, Reach, here, later,
}

-- the worker has taken the id and not delivered its row
abbrev pub holds : ℕ → Worker → Bool
holds id ready = false
holds id (awaiting j) = j == id
holds id returned = false
holds id (failed j) = j == id

abbrev pub is_returned : Worker → Bool
is_returned returned = true
is_returned _ = false

abbrev pub is_failed : Worker → Bool
is_failed (failed _) = true
is_failed _ = false

pub tally-slot :
    (p : Worker → Bool) (before : List Worker) (w : Worker) (after : List Worker)
    → tally p (before ++ w ∷ after) ≡ bit (p w) + (tally p before + tally p after)
tally-slot p before w after = omega (arith, tally-append p before (w ∷ after))

first_error-some : (o : Option Exc) (x : Exc) → (e : Exc) × (first_error o x ≡ some e)
first_error-some none x = (x, refl)
first_error-some (some e) x = (e, refl)

first_error-cause :
    (P : Exc → Type 0) (o : Option Exc) (x : Exc)
    → ((e : Exc) → o ≡ some e → P e)
    → P x
    → (e : Exc) → first_error o x ≡ some e
    → P e
first_error-cause P none x old new e h = let same : x ≡ e = cc in rw (← same) new
first_error-cause P (some y) x old new e h = old e h

given_bounds : (id n : ℕ) → 1 ≤ bit (leb 1 id && ltb id n) → (1 ≤ id) × (id < n)
given_bounds id n h = ground arith

none_below : (id : ℕ) → bit (leb 1 id && ltb id 1) ≡ 0
none_below id = ground arith

-- the ids below n + 1 are n and those below n
next_given :
    (n id : ℕ)
    → 1 ≤ n
    → bit (leb 1 id && ltb id (n + 1)) ≡ bit (n == id) + bit (leb 1 id && ltb id n)
next_given n id l = ground arith

module _ {R : Type 0} (measure_request : ℕ → Result R) (count : ℕ) where
  -- of the ids, how often this one has been submitted
  abbrev pub taken : ℕ → Block R → ℕ
  taken id b = tally (λ r. r.0 == id) b.results + tally (holds id) b.workers

  pub record IsFair (b : Block R) : Type 0 where
    pub low : 1 ≤ b.next_id
    pub high : b.next_id ≤ count + 1
    pub once : (id : ℕ) → taken id b ≡ bit (leb 1 id && ltb id b.next_id)
    pub answered : All (λ r. measure_request r.0 ≡ ok r.1) b.results
    pub ended : 1 ≤ tally is_returned b.workers → b.next_id ≡ count + 1
    pub erred : 1 ≤ tally is_failed b.workers → (e : Exc) × (b.error ≡ some e)
    pub cause :
        (e : Exc)
        → b.error ≡ some e
        → (id : ℕ) × (1 ≤ id) × (id ≤ count) × (measure_request id ≡ raise e)

  -- a row is received by the worker that waits for it, which then is where it began
  arrive :
      (before : List Worker) (id : ℕ) (row : R) (after : List Worker) (b : Block R)
      → b.workers ≡ before ++ awaiting id ∷ after
      → measure_request id ≡ ok row
      → IsFair b
      → IsFair
          (record b { results = b.results ++ (id, row) ∷ []; workers = before ++ ready ∷ after })
  arrive before id row after b e m f =
      let slot : (p : Worker → Bool)
          → tally p b.workers ≡ bit (p (awaiting id)) + (tally p before + tally p after) =
        λ p. rw e (tally-slot p before (awaiting id) after) in
      record {
        low = f.low;
        high = f.high;
        once = λ i. omega (
          arith,
          tally-append (λ r. r.0 == i) b.results ((id, row) ∷ []),
          slot (holds i),
          tally-slot (holds i) before ready after,
          f.once i,
        );
        answered = All-append _ b.results ((id, row) ∷ []) f.answered (m, tt);
        ended = λ h.
            f.ended (omega (arith, slot is_returned, tally-slot is_returned before ready after));
        erred =
            λ h. f.erred (omega (arith, slot is_failed, tally-slot is_failed before ready after));
        cause = f.cause;
      }

  take_id :
      (before after : List Worker) (b : Block R)
      → b.workers ≡ before ++ ready ∷ after
      → leb b.next_id count ≡ true
      → IsFair b
      → IsFair
          (record b { next_id = b.next_id + 1; workers = before ++ awaiting b.next_id ∷ after })
  take_id before after b e l f =
      let slot : (p : Worker → Bool)
          → tally p b.workers ≡ bit (p ready) + (tally p before + tally p after) =
        λ p. rw e (tally-slot p before ready after) in
      let new : (p : Worker → Bool)
          → tally p (before ++ awaiting b.next_id ∷ after)
            ≡ bit (p (awaiting b.next_id)) + (tally p before + tally p after) =
        λ p. tally-slot p before (awaiting b.next_id) after in
      let below : b.next_id ≤ count = ground arith in
      record {
        low = omega (arith, f.low);
        high = omega arith;
        once = λ i.
            omega (arith, slot (holds i), new (holds i), next_given b.next_id i f.low, f.once i);
        answered = f.answered;
        ended = λ h. omega (arith, f.ended (omega (arith, slot is_returned, new is_returned, h)));
        erred = λ h. f.erred (omega (arith, slot is_failed, new is_failed));
        cause = f.cause;
      }

  leave :
      (before after : List Worker) (b : Block R)
      → b.workers ≡ before ++ ready ∷ after
      → leb b.next_id count ≡ false
      → IsFair b
      → IsFair (record b { workers = before ++ returned ∷ after })
  leave before after b e l f =
      let slot : (p : Worker → Bool)
          → tally p b.workers ≡ bit (p ready) + (tally p before + tally p after) =
        λ p. rw e (tally-slot p before ready after) in
      let new : (p : Worker → Bool)
          → tally p (before ++ returned ∷ after)
            ≡ bit (p returned) + (tally p before + tally p after) =
        λ p. tally-slot p before returned after in
      let above : count < b.next_id = ground arith in
      record {
        low = f.low;
        high = f.high;
        once = λ i. omega (arith, slot (holds i), new (holds i), f.once i);
        answered = f.answered;
        ended = λ h. omega (arith, f.high);
        erred = λ h. f.erred (omega (arith, slot is_failed, new is_failed));
        cause = f.cause;
      }

  -- an id that a worker holds has been given out
  held_id :
      (before : List Worker) (id : ℕ) (after : List Worker) (b : Block R)
      → b.workers ≡ before ++ awaiting id ∷ after
      → IsFair b
      → (1 ≤ id) × (id ≤ count)
  held_id before id after b e f =
      let slot : tally (holds id) b.workers
          ≡ bit (id == id) + (tally (holds id) before + tally (holds id) after) =
        rw e (tally-slot (holds id) before (awaiting id) after) in
      let same : (id == id) ≡ true = ground arith in
      let t : bit (leb 1 id && ltb id b.next_id) ≡ taken id b = sym (f.once id) in
      let given : 1 ≤ bit (leb 1 id && ltb id b.next_id) =
        rw t (omega (arith, slot, ap bit same)) in
      let g = given_bounds id b.next_id given in (g.0, omega (arith, g.1, f.high))

  break_off :
      (before : List Worker) (id : ℕ) (x : Exc) (after : List Worker) (b : Block R)
      → b.workers ≡ before ++ awaiting id ∷ after
      → measure_request id ≡ raise x
      → IsFair b
      → IsFair (record b { workers = before ++ failed id ∷ after; error = first_error b.error x })
  break_off before id x after b e m f =
      let slot : (p : Worker → Bool)
          → tally p b.workers ≡ bit (p (awaiting id)) + (tally p before + tally p after) =
        λ p. rw e (tally-slot p before (awaiting id) after) in
      let new : (p : Worker → Bool)
          → tally p (before ++ failed id ∷ after)
            ≡ bit (p (failed id)) + (tally p before + tally p after) =
        λ p. tally-slot p before (failed id) after in
      record {
        low = f.low;
        high = f.high;
        once = λ i. omega (arith, slot (holds i), new (holds i), f.once i);
        answered = f.answered;
        ended = λ h. f.ended (omega (arith, slot is_returned, new is_returned));
        erred = λ h. first_error-some b.error x;
        cause =
            first_error-cause _ b.error x f.cause
              (let l = held_id before id after b e f in (id, l.0, l.1, m));
      }

  loop-IsFair :
      (before after : List Worker) (b : Block R)
      → b.workers ≡ before ++ ready ∷ after
      → IsFair b
      → IsFair (loop measure_request count before after b.next_id b.results b.error)
  unfolding loop
  loop-IsFair before after b e f = elim (Bool-cases (leb b.next_id count)) [
    | inl l ↦ rw l (take_id before after b e l f)
    | inr l ↦ rw l (leave before after b e l f)
  ]

  receive-IsFair :
      (before : List Worker) (id : ℕ) (after : List Worker) (b : Block R)
      → b.workers ≡ before ++ awaiting id ∷ after
      → IsFair b
      → IsFair (receive measure_request count before id (measure_request id) after b)
  receive-IsFair before id after b e f = elim (Result-cases (measure_request id)) [
    | inl (row, m) ↦ rw m (
        loop-IsFair before after
          (record b { results = b.results ++ (id, row) ∷ []; workers = before ++ ready ∷ after })
          refl (arrive before id row after b e m f))
    | inr (x, m) ↦ rw m (break_off before id x after b e m f)
  ]

  Step-IsFair : {b c : Block R} → Step measure_request count b c → IsFair b → IsFair c
  unfolding resume
  Step-IsFair (run before ready after e l) f = loop-IsFair before after _ e f
  Step-IsFair (run before (awaiting id) after e l) f = receive-IsFair before id after _ e f
  Step-IsFair (run before returned after e l) f = f
  Step-IsFair (run before (failed id) after e l) f = f

  tally-repeat : (p : Worker → Bool) → p ready ≡ false → (n : ℕ) → tally p (repeat n) ≡ 0
  tally-repeat p h zero = refl
  tally-repeat p h (suc n) = omega (arith, ap bit h, tally-repeat p h n)

  start-IsFair : (concurrency : ℕ) → IsFair (start count concurrency)
  start-IsFair concurrency =
      let idle : (p : Worker → Bool)
          → p ready ≡ false
          → tally p (repeat (min count concurrency)) ≡ 0 =
        λ p h. tally-repeat p h (min count concurrency) in
      record {
        low = omega arith;
        high = omega arith;
        once = λ i. omega (arith, idle (holds i) refl, none_below i);
        answered = tt;
        ended = λ h. absurd (omega (arith, idle is_returned refl));
        erred = λ h. absurd (omega (arith, idle is_failed refl));
        cause = λ x h. cc;
      }

  pub Reach-IsFair :
      (concurrency : ℕ) {k : ℕ} {b : Block R}
      → Reach measure_request count (start count concurrency) k b
      → IsFair b
  Reach-IsFair concurrency here = start-IsFair concurrency
  Reach-IsFair concurrency (later r s) = Step-IsFair s (Reach-IsFair concurrency r)
