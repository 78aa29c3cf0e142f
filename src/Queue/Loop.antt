-- ===== src/Queue/Loop.antt =====
-- gateway/offline_queue/sync_worker.py: SyncWorker with `run`, `_tick` and `_sample_depth`, over the
-- messages of the stream. What Redis hands out is an answer; a worker keeps a copy of the fields.
pub mod Group
pub mod Stale
mod Tests
use adaptive_gateway.Prelude.{
  ℕ, ◌≡◌, Bool, true, false, not, Option, none, some, List, [], ◌∷◌, if◌then◌else◌,
}
use adaptive_gateway.Prelude.Texts.{Text, text_eq}
use adaptive_gateway.Prelude.Dicts.{Dict}
use adaptive_gateway.Prelude.Floats.{Float}
use adaptive_gateway.Prelude.Results.{Exc, Result, ok, raise}
use adaptive_gateway.Json.{Json}
use adaptive_gateway.Config.{Url}
use adaptive_gateway.Queue.{Policy}
use adaptive_gateway.Queue.Message.{Message, Outcome, done, broke, Budget, Delivery}
use adaptive_gateway.Queue.Worker.{handle, final}

-- An entry that was ever added, with what has become of it.
pub record Entry (F : Type 0) : Type 0 where
  pub id : Text
  pub fields : Dict Text
  pub message : Message F

-- What Redis answers in one tick: the ids that XREADGROUP hands out for the first time, and those
-- that XAUTOCLAIM gives to this worker with the next cursor; how each of them fares.
pub record Answers (F : Type 0) : Type 0 where
  pub fresh : Result (List Text)
  pub claimed : Result (Text × List Text)
  pub serve_fresh : Text → Bool × Delivery F
  pub serve_claimed : Text → Bool × Delivery F

-- One turn of the loop of `run`: ensure_group, the tick, and `_sample_depth` with the answer of
-- queue_depth, which is `none` for RedisError.
pub record Round (F : Type 0) : Type 0 where
  pub ensured : Result (Unit {0})
  pub answers : Answers F
  pub now : F
  pub depth : Option ℕ

pub record SyncWorker (F : Type 0) : Type 0 where
  pub entries : List (Entry F)
  pub claim_cursor : Text
  pub last_sample : F
  -- gateway_queue_depth
  pub depth_gauge : Option ℕ

abbrev pub find : {F : Type 0} → Text → List (Entry F) → Option (Entry F)
find id [] = none
find id (e ∷ es) = let later = find id es in if text_eq e.id id then some e else later

abbrev pub kept_copy :
    {F : Type 0} → Text → Option (Entry F) → List (Text × Dict Text) → List (Text × Dict Text)
kept_copy id none held = held
kept_copy id (some e) held = if e.message.in_stream then (id, e.fields) ∷ held else held

-- The copies that come with ids. An entry that is deleted from the stream has no fields.
unfoldable pub fetch : {F : Type 0} → List (Entry F) → List Text → List (Text × Dict Text)
fetch entries [] = []
fetch entries (id ∷ ids) = kept_copy id (find id entries) (fetch entries ids)

module _ (fl : Float) (urlsplit : Text → Result Url) (loads : Text → Result (Json fl.F))
    (sendable : Dict (Json fl.F) → Result (Unit {0})) (policy : Policy fl.F) (budget : Budget) where
  open fl use {F}

  abbrev raised : Outcome F → Option Exc
  raised (done w) = none
  raised (broke e w) = some e

  abbrev pub outcome : Bool × Delivery F → Dict Text → Message F → Outcome F
  outcome (leased, d) fields w = handle fl urlsplit loads sendable policy budget fields d leased w

  abbrev pub after : Outcome F → Message F
  after = final fl urlsplit loads sendable policy budget

  -- await self._handle(http, msg_id, fields)
  unfoldable pub handle_entry :
      Bool × Delivery F → Text → Dict Text → List (Entry F) → List (Entry F) × Option Exc
  handle_entry serve id fields [] = ([], none)
  handle_entry serve id fields (e ∷ es) =
      let (es', later) = handle_entry serve id fields es in
      let o = outcome serve fields e.message in
      if text_eq e.id id then (record e { message = after o } ∷ es, raised o) else (e ∷ es', later)

  abbrev pub unless_raised :
      Option Exc → List (Entry F) → List (Entry F) × Option Exc → List (Entry F) × Option Exc
  unless_raised none entries rest = rest
  unless_raised (some e) entries rest = (entries, some e)

  -- for msg_id, fields in entries: an exception ends the loop.
  unfoldable pub handle_all :
      (Text → Bool × Delivery F)
      → List (Text × Dict Text)
      → List (Entry F)
      → List (Entry F) × Option Exc
  handle_all serve [] entries = (entries, none)
  handle_all serve ((id, fields) ∷ held) entries =
      let (entries', e) = handle_entry (serve id) id fields entries in
      unless_raised e entries' (handle_all serve held entries')

  abbrev pub claim :
      (Text → Bool × Delivery F)
      → Result (Text × List Text)
      → SyncWorker F
      → SyncWorker F × Option Exc
  claim serve (raise e) w = (w, some e)
  claim serve (ok (cursor, ids)) w =
      let (entries, e) = handle_all serve (fetch w.entries ids) w.entries in
      (record w { entries = entries; claim_cursor = cursor }, e)

  abbrev pub then_claim :
      Answers F → SyncWorker F → List (Entry F) × Option Exc → SyncWorker F × Option Exc
  then_claim answers w (entries, none) =
      claim answers.serve_claimed answers.claimed (record w { entries = entries })
  then_claim answers w (entries, some e) = (record w { entries = entries }, some e)

  abbrev pub read_fresh : Answers F → Result (List Text) → SyncWorker F → SyncWorker F × Option Exc
  read_fresh answers (raise e) w = (w, some e)
  read_fresh answers (ok ids) w =
      then_claim answers w (handle_all answers.serve_fresh (fetch w.entries ids) w.entries)

  unfoldable pub tick : Answers F → SyncWorker F → SyncWorker F × Option Exc
  tick answers w = read_fresh answers answers.fresh w

  abbrev sampled : Option ℕ → Option ℕ → Option ℕ
  sampled none gauge = gauge
  sampled (some n) gauge = some n

  unfoldable pub sample_depth : ℕ → F → Option ℕ → SyncWorker F → SyncWorker F
  sample_depth interval now depth w =
      if fl.le (fl.of_ℕ interval) (fl.sub now w.last_sample)
      then record w { last_sample = now; depth_gauge = sampled depth w.depth_gauge }
      else w

  -- What ensure_group or the tick raises is logged, and the loop goes on.
  abbrev pub take_turn : Result (Unit {0}) → Answers F → SyncWorker F → SyncWorker F
  take_turn (raise e) answers w = w
  take_turn (ok _) answers w = (tick answers w).0

  -- while not self._stop.is_set()
  unfoldable pub run : ℕ → List (Round F) → SyncWorker F → SyncWorker F
  run interval [] w = w
  run interval (round ∷ rounds) w =
      run interval rounds
        (sample_depth interval round.now round.depth (take_turn round.ensured round.answers w))
