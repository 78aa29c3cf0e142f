-- ===== src/RequestLog/Tests.antt =====
-- A writer whose queue overflows and one of whose commits fails.
use adaptive_gateway.Prelude.{ℕ, ◌≡◌, refl, true, false, List, [], ◌∷◌}
use adaptive_gateway.RequestLog.{
  Writer, Event, enqueued, turned, stopped, run, enqueue, flush, fill, collect_batch, turn, drained,
  drain_remaining,
}
use adaptive_gateway.RequestLog.Conservation.{total, total-run}

abbrev empty : Writer ℕ
empty = record { queue = []; rows = []; dropped = 0 }

abbrev events : List (Event ℕ)
events =
    enqueued 1
    ∷ enqueued 2
    ∷ enqueued 3
    ∷ turned true
    ∷ enqueued 4
    ∷ turned false
    ∷ enqueued 5
    ∷ stopped true
    ∷ []

ended : run 2 1 events empty ≡ record { queue = []; rows = 1 ∷ 4 ∷ 5 ∷ []; dropped = 2 }
unfolding run enqueue flush fill collect_batch turn drained drain_remaining
ended = refl

total-run_example : total (run 2 1 events empty) ≡ 5
total-run_example = total-run 2 1 events empty
