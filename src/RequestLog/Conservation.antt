-- ===== src/RequestLog/Conservation.antt =====
-- No row is lost without being counted, and the queue stays within its bound.
use adaptive_gateway.Prelude.{
  ℕ, zero, suc, ◌+◌, ◌-◌, ◌≡◌, refl, sym, ap, ◌∙◌, inl, inr, Bool, true, false, List, [], ◌∷◌, ◌++◌,
  length, length-append, append_assoc, append-nil, arith, Bool-cases,
}
use adaptive_gateway.RequestLog.{
  Writer, enqueue, flush, fill, collect_batch, flush_some, turn, drained, drain_remaining, Event,
  enqueued, turned, stopped, run, is_full,
}

module _ {R : Type 0} where
  -- The rows of the writer, wherever they are, and those it has counted as dropped.
  abbrev pub total : Writer R → ℕ
  total w = length w.queue + length w.rows + w.dropped

  fill-append :
      (room : ℕ) (batch queue : List R)
      → (fill room batch queue).0 ++ (fill room batch queue).1 ≡ batch ++ queue
  unfolding fill
  fill-append zero batch queue = refl
  fill-append (suc room) batch [] = refl
  fill-append (suc room) batch (row ∷ queue) =
      fill-append room (batch ++ row ∷ []) queue ∙ append_assoc batch (row ∷ []) queue

  collect_batch-append :
      (batch_size : ℕ) (queue : List R)
      → (collect_batch batch_size queue).0 ++ (collect_batch batch_size queue).1 ≡ queue
  unfolding collect_batch
  collect_batch-append batch_size [] = refl
  collect_batch-append batch_size (first ∷ queue) = fill-append (batch_size - 1) (first ∷ []) queue

  drained-append : (rows queue : List R) → drained rows queue ≡ rows ++ queue
  unfolding drained
  drained-append rows [] = sym (append-nil rows)
  drained-append rows (row ∷ queue) =
      drained-append (rows ++ row ∷ []) queue ∙ append_assoc rows (row ∷ []) queue

  total-enqueue :
      (maxsize : ℕ) (row : R) (w : Writer R) → total (enqueue maxsize row w) ≡ total w + 1
  unfolding enqueue
  total-enqueue maxsize row w = elim (Bool-cases (is_full maxsize w.queue)) [
    | inl full ↦ rw (enqueue, full) (omega arith)
    | inr room ↦ rw (enqueue, room) (omega (arith, length-append w.queue (row ∷ [])))
  ]

  total-flush_some :
      (committed : Bool) (records : List R) (w : Writer R)
      → total (flush_some committed records w) ≡ total w + length records
  unfolding flush
  total-flush_some committed [] w = omega arith
  total-flush_some true (row ∷ records) w = omega (arith, length-append w.rows (row ∷ records))
  total-flush_some false (row ∷ records) w = omega arith

  total-turn :
      (batch_size : ℕ) (committed : Bool) (w : Writer R)
      → total (turn batch_size committed w) ≡ total w
  unfolding turn
  total-turn batch_size committed w =
      let (batch, rest) = collect_batch batch_size w.queue in
      omega (
        arith,
        total-flush_some committed batch (record w { queue = rest }),
        length-append batch rest,
        ap length (collect_batch-append batch_size w.queue),
      )

  total-drain_remaining :
      (committed : Bool) (w : Writer R) → total (drain_remaining committed w) ≡ total w
  unfolding drain_remaining
  total-drain_remaining committed w = omega (
    arith,
    total-flush_some committed (drained [] w.queue) (record w { queue = [] }),
    ap length (drained-append [] w.queue),
  )

  -- The rows that requests hand over.
  abbrev pub handed_over : List (Event R) → ℕ
  handed_over [] = 0
  handed_over (enqueued row ∷ events) = suc (handed_over events)
  handed_over (turned committed ∷ events) = handed_over events
  handed_over (stopped committed ∷ events) = handed_over events

  -- Every row that is handed over is in the queue, committed, or counted as dropped, whatever turns
  -- the writer takes and whichever of its commits fail.
  pub total-run :
      (maxsize batch_size : ℕ) (events : List (Event R)) (w : Writer R)
      → total (run maxsize batch_size events w) ≡ total w + handed_over events
  unfolding run
  total-run maxsize batch_size [] w = omega arith
  total-run maxsize batch_size (enqueued row ∷ events) w = omega (
    arith,
    total-run maxsize batch_size events (enqueue maxsize row w),
    total-enqueue maxsize row w,
  )
  total-run maxsize batch_size (turned committed ∷ events) w = omega (
    arith,
    total-run maxsize batch_size events (turn batch_size committed w),
    total-turn batch_size committed w,
  )
  total-run maxsize batch_size (stopped committed ∷ events) w = omega (
    arith,
    total-run maxsize batch_size events (drain_remaining committed w),
    total-drain_remaining committed w,
  )
