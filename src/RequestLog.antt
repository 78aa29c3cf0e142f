-- ===== src/RequestLog.antt =====
-- gateway/utils/request_logger.py: the bounded queue of log rows and its background writer. `R` is
-- the type of the records.
pub mod Conservation
mod Tests
use adaptive_gateway.Prelude.{
  ℕ, zero, suc, ◌+◌, ◌-◌, Bool, true, false, not, ◌&&◌, List, [], ◌∷◌, ◌++◌, length, take, leb,
  ◌==◌, if◌then◌else◌,
}

-- The queue, the rows that are committed, and gateway_request_log_dropped_total.
pub record Writer (R : Type 0) : Type 0 where
  pub queue : List R
  pub rows : List R
  pub dropped : ℕ

module _ {R : Type 0} where
  -- xs without its first n items
  abbrev pub drop : ℕ → List R → List R
  drop zero xs = xs
  drop (suc n) [] = []
  drop (suc n) (x ∷ xs) = drop n xs

  -- asyncio.Queue.full(): a queue of maxsize 0 is unbounded
  abbrev is_full : ℕ → List R → Bool
  is_full maxsize queue = not (maxsize == 0) && leb maxsize (length queue)

  unfoldable pub enqueue : ℕ → R → Writer R → Writer R
  enqueue maxsize row w =
      if is_full maxsize w.queue
      then record w { dropped = w.dropped + 1 }
      else record w { queue = w.queue ++ row ∷ [] }

  -- `committed` tells whether the insert and its commit succeed.
  unfoldable pub flush : Bool → List R → Writer R → Writer R
  flush true records w = record w { rows = w.rows ++ records }
  flush false records w = record w { dropped = w.dropped + length records }

  -- while len(batch) < batch_size: batch.append(get_nowait())
  unfoldable pub fill : ℕ → List R → List R → List R × List R
  fill zero batch queue = (batch, queue)
  fill (suc room) batch [] = (batch, [])
  fill (suc room) batch (row ∷ queue) = fill room (batch ++ row ∷ []) queue

  -- The batch and the queue that is left. On an empty queue the wait for a first row times out.
  unfoldable pub collect_batch : ℕ → List R → List R × List R
  collect_batch batch_size [] = ([], [])
  collect_batch batch_size (first ∷ queue) = fill (batch_size - 1) (first ∷ []) queue

  abbrev flush_some : Bool → List R → Writer R → Writer R
  flush_some committed [] w = w
  flush_some committed (row ∷ records) w = flush committed (row ∷ records) w

  -- One turn of the loop in run.
  unfoldable pub turn : ℕ → Bool → Writer R → Writer R
  turn batch_size committed w =
      let (batch, rest) = collect_batch batch_size w.queue in
      flush_some committed batch (record w { queue = rest })

  -- get_nowait until the queue is empty
  unfoldable pub drained : List R → List R → List R
  drained rows [] = rows
  drained rows (row ∷ queue) = drained (rows ++ row ∷ []) queue

  unfoldable pub drain_remaining : Bool → Writer R → Writer R
  drain_remaining committed w = flush_some committed (drained [] w.queue) (record w { queue = [] })

-- What happens to a writer: a request enqueues a row, the loop takes a turn, or stop flushes the
-- rest.
pub data Event (R : Type 0) : Type 0 where
  enqueued : R → Event R
  turned stopped : Bool → Event R

unfoldable pub run : {R : Type 0} → ℕ → ℕ → List (Event R) → Writer R → Writer R
run maxsize batch_size [] w = w
run maxsize batch_size (enqueued row ∷ events) w =
    run maxsize batch_size events (enqueue maxsize row w)
run maxsize batch_size (turned committed ∷ events) w =
    run maxsize batch_size events (turn batch_size committed w)
run maxsize batch_size (stopped committed ∷ events) w =
    run maxsize batch_size events (drain_remaining committed w)
