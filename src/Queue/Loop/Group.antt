-- ===== src/Queue/Loop/Group.antt =====
-- One worker alone: every message of the stream keeps its budget and is never lost.
use adaptive_gateway.Prelude.{
  ℕ, ◌≡◌, refl, ◌∙◌, ap, inl, inr, Bool, true, false, Option, none, some, List, [], ◌∷◌, arith, All,
  Bool-cases,
}
use adaptive_gateway.Prelude.Texts.{Text, text_eq, text_eq_iff}
use adaptive_gateway.Prelude.Dicts.{Dict}
use adaptive_gateway.Prelude.Floats.{Float}
use adaptive_gateway.Prelude.Results.{Exc, Result, ok, raise}
use adaptive_gateway.Json.{Json}
use adaptive_gateway.Config.{Url}
use adaptive_gateway.Queue.{Policy}
use adaptive_gateway.Queue.Message.{Message, Budget, Delivery}
use adaptive_gateway.Queue.Worker.Settlement.{IsAccounted, handle-IsAccounted, final-IsAccounted}
use adaptive_gateway.Queue.Loop.{
  Entry, Answers, Round, SyncWorker, find, kept_copy, fetch, outcome, after, handle_entry,
  handle_all, unless_raised, claim, then_claim, read_fresh, tick, take_turn, sample_depth, run,
}

-- The entry with an id is in the stream.
abbrev pub IsInside : {F : Type 0} → List (Entry F) → Text → Type 0
IsInside {F} entries id = (e : Entry F) × (find id entries ≡ some e) × (e.message.in_stream ≡ true)

abbrev pub Distinct : List Text → Type 0
Distinct [] = Unit
Distinct (id ∷ ids) = All (λ j. text_eq id j ≡ false) ids × Distinct ids

-- No id is handed out twice by one answer.
abbrev pub HasDistinct : {A : Type 0} → (A → List Text) → Result A → Type 0
HasDistinct ids (raise e) = Unit
HasDistinct ids (ok a) = Distinct (ids a)

abbrev pub IsFair : {F : Type 0} → Round F → Type 0
IsFair round =
    HasDistinct (λ ids. ids) round.answers.fresh
    × HasDistinct (λ answer. answer.1) round.answers.claimed

abbrev Apart : List (Text × Dict Text) → Type 0
Apart [] = Unit
Apart ((id, _) ∷ held) = All (λ copy. text_eq id copy.0 ≡ false) held × Apart held

module _ {F : Type 0} where
  kept_copy-All :
      (P : Text → Type 0) (id : Text) (o : Option (Entry F)) (held : List (Text × Dict Text))
      → ((e : Entry F) → o ≡ some e → e.message.in_stream ≡ true → P id)
      → All (λ copy. P copy.0) held
      → All (λ copy. P copy.0) (kept_copy id o held)
  kept_copy-All P id none held p h = h
  kept_copy-All P id (some e) held p h = elim (Bool-cases e.message.in_stream) [
    | inl inside ↦ rw inside (p e refl inside, h)
    | inr outside ↦ rw outside h
  ]

  fetch-All :
      (P : Text → Type 0) (entries : List (Entry F)) (ids : List Text)
      → All P ids
      → All (λ copy. P copy.0) (fetch entries ids)
  unfolding fetch
  fetch-All P entries [] h = tt
  fetch-All P entries (id ∷ ids) (p, h) =
      kept_copy-All P id (find id entries) (fetch entries ids) (λ e _ _. p)
        (fetch-All P entries ids h)

  fetch-IsInside :
      (entries : List (Entry F)) (ids : List Text)
      → All (λ copy. IsInside entries copy.0) (fetch entries ids)
  unfolding fetch
  fetch-IsInside entries [] = tt
  fetch-IsInside entries (id ∷ ids) =
      kept_copy-All (IsInside entries) id (find id entries) (fetch entries ids)
        (λ e found inside. (e, found, inside)) (fetch-IsInside entries ids)

  kept_copy-Apart :
      (id : Text) (o : Option (Entry F)) (held : List (Text × Dict Text))
      → All (λ copy. text_eq id copy.0 ≡ false) held
      → Apart held
      → Apart (kept_copy id o held)
  kept_copy-Apart id none held new apart = apart
  kept_copy-Apart id (some e) held new apart = elim (Bool-cases e.message.in_stream) [
    | inl inside ↦ rw inside (new, apart)
    | inr outside ↦ rw outside apart
  ]

  fetch-Apart :
      (entries : List (Entry F)) (ids : List Text) → Distinct ids → Apart (fetch entries ids)
  unfolding fetch
  fetch-Apart entries [] distinct = tt
  fetch-Apart entries (id ∷ ids) (new, distinct) =
      kept_copy-Apart id (find id entries) (fetch entries ids)
        (fetch-All (λ j. text_eq id j ≡ false) entries ids new) (fetch-Apart entries ids distinct)

module _ (fl : Float) (urlsplit : Text → Result Url) (loads : Text → Result (Json fl.F))
    (sendable : Dict (Json fl.F) → Result (Unit {0})) (policy : Policy fl.F) (budget : Budget) where
  open fl use {F}

  abbrev pub AreAccounted : List (Entry F) → Type 0
  AreAccounted entries =
      All (λ e. IsAccounted fl urlsplit loads sendable policy budget e.message) entries

  abbrev handled :
      Bool × Delivery F → Text → Dict Text → List (Entry F) → List (Entry F) × Option Exc
  handled = handle_entry fl urlsplit loads sendable policy budget

  find-handled :
      (serve : Bool × Delivery F) (id j : Text) (fields : Dict Text) (entries : List (Entry F))
      → text_eq id j ≡ false
      → find j (handled serve id fields entries).0 ≡ find j entries
  unfolding handle_entry
  find-handled serve id j fields [] other = refl
  find-handled serve id j fields (e ∷ es) other = elim (Bool-cases (text_eq e.id id)) [
    | inl same ↦
        let e' : e.id ≡ id = (text_eq_iff e.id id).0 same in
        rw (same, ap (λ k. text_eq k j) e' ∙ other) refl
    | inr different ↦ rw (different, find-handled serve id j fields es other) refl
  ]

  outcome-IsAccounted :
      (serve : Bool × Delivery F) (fields : Dict Text) (w : Message F)
      → IsAccounted fl urlsplit loads sendable policy budget w
      → w.in_stream ≡ true
      → IsAccounted fl urlsplit loads sendable policy budget (
          after fl urlsplit loads sendable policy budget
            (outcome fl urlsplit loads sendable policy budget serve fields w))
  outcome-IsAccounted (leased, d) fields w accounted inside =
      final-IsAccounted fl urlsplit loads sendable policy budget _ (
        handle-IsAccounted fl urlsplit loads sendable policy budget fields d leased w accounted
          inside)

  handled-AreAccounted :
      (serve : Bool × Delivery F) (id : Text) (fields : Dict Text) (entries : List (Entry F))
      → AreAccounted entries
      → IsInside entries id
      → AreAccounted (handled serve id fields entries).0
  unfolding handle_entry
  handled-AreAccounted serve id fields [] accounted inside = tt
  handled-AreAccounted serve id fields (e ∷ es) (a, accounted) (found, f, inside) =
      elim (Bool-cases (text_eq e.id id)) [
        | inl same ↦
            let is_e : e ≡ found = ground arith in
            rw same (
              outcome-IsAccounted serve fields e.message a
                  (ap (λ x. x.message.in_stream) is_e ∙ inside),
              accounted,
            )
        | inr different ↦ rw different (
          a,
          handled-AreAccounted serve id fields es accounted (found, rw different at f, inside),
        )
      ]

  still-IsInside :
      (serve : Bool × Delivery F) (id : Text) (fields : Dict Text) (entries : List (Entry F))
      (held : List (Text × Dict Text))
      → All (λ copy. text_eq id copy.0 ≡ false) held
      → All (λ copy. IsInside entries copy.0) held
      → All (λ copy. IsInside (handled serve id fields entries).0 copy.0) held
  still-IsInside serve id fields entries [] new inside = tt
  still-IsInside serve id fields entries ((j, _) ∷ held) (other, new) ((e, found, i), inside) = (
    (e, find-handled serve id j fields entries other ∙ found, i),
    still-IsInside serve id fields entries held new inside,
  )

  abbrev all_handled :
      (Text → Bool × Delivery F)
      → List (Text × Dict Text)
      → List (Entry F)
      → List (Entry F) × Option Exc
  all_handled = handle_all fl urlsplit loads sendable policy budget

  unless_raised-AreAccounted :
      (e : Option Exc) (entries : List (Entry F)) (rest : List (Entry F) × Option Exc)
      → AreAccounted entries
      → AreAccounted rest.0
      → AreAccounted (unless_raised fl urlsplit loads sendable policy budget e entries rest).0
  unless_raised-AreAccounted none entries rest a b = b
  unless_raised-AreAccounted (some e) entries rest a b = a

  handle_all-AreAccounted :
      (serve : Text → Bool × Delivery F) (held : List (Text × Dict Text)) (entries : List (Entry F))
      → AreAccounted entries
      → All (λ copy. IsInside entries copy.0) held
      → Apart held
      → AreAccounted (all_handled serve held entries).0
  unfolding handle_all
  handle_all-AreAccounted serve [] entries accounted inside apart = accounted
  handle_all-AreAccounted serve ((id, fields) ∷ held) entries accounted (i, inside) (new, apart) =
      let next = handled (serve id) id fields entries in
      let a = handled-AreAccounted (serve id) id fields entries accounted i in
      let rest =
        handle_all-AreAccounted serve held next.0 a
          (still-IsInside (serve id) id fields entries held new inside) apart in
      unless_raised-AreAccounted next.1 next.0 _ a rest

  batch-AreAccounted :
      (serve : Text → Bool × Delivery F) (ids : List Text) (entries : List (Entry F))
      → Distinct ids
      → AreAccounted entries
      → AreAccounted (all_handled serve (fetch entries ids) entries).0
  batch-AreAccounted serve ids entries distinct accounted =
      handle_all-AreAccounted serve (fetch entries ids) entries accounted
        (fetch-IsInside entries ids) (fetch-Apart entries ids distinct)

  claim-AreAccounted :
      (serve : Text → Bool × Delivery F) (claimed : Result (Text × List Text)) (w : SyncWorker F)
      → HasDistinct (λ answer. answer.1) claimed
      → AreAccounted w.entries
      → AreAccounted (claim fl urlsplit loads sendable policy budget serve claimed w).0.entries
  claim-AreAccounted serve (raise e) w distinct accounted = accounted
  claim-AreAccounted serve (ok (cursor, ids)) w distinct accounted =
      batch-AreAccounted serve ids w.entries distinct accounted

  then_claim-AreAccounted :
      (answers : Answers F) (w : SyncWorker F) (handled : List (Entry F) × Option Exc)
      → HasDistinct (λ answer. answer.1) answers.claimed
      → AreAccounted handled.0
      → AreAccounted
          (then_claim fl urlsplit loads sendable policy budget answers w handled).0.entries
  then_claim-AreAccounted answers w (entries, none) distinct accounted =
      claim-AreAccounted answers.serve_claimed answers.claimed (record w { entries = entries })
        distinct accounted
  then_claim-AreAccounted answers w (entries, some e) distinct accounted = accounted

  read_fresh-AreAccounted :
      (answers : Answers F) (fresh : Result (List Text)) (w : SyncWorker F)
      → HasDistinct (λ ids. ids) fresh
      → HasDistinct (λ answer. answer.1) answers.claimed
      → AreAccounted w.entries
      → AreAccounted (read_fresh fl urlsplit loads sendable policy budget answers fresh w).0.entries
  read_fresh-AreAccounted answers (raise e) w new distinct accounted = accounted
  read_fresh-AreAccounted answers (ok ids) w new distinct accounted =
      then_claim-AreAccounted answers w _ distinct
        (batch-AreAccounted answers.serve_fresh ids w.entries new accounted)

  sample_depth_entries :
      (interval : ℕ) (now : F) (depth : Option ℕ) (w : SyncWorker F)
      → (sample_depth fl urlsplit loads sendable policy budget interval now depth w).entries
        ≡ w.entries
  unfolding sample_depth
  sample_depth_entries interval now depth w = ground arith

  take_turn-AreAccounted :
      (ensured : Result (Unit {0})) (round : Round F) (w : SyncWorker F)
      → IsFair round
      → AreAccounted w.entries
      → AreAccounted
          (take_turn fl urlsplit loads sendable policy budget ensured round.answers w).entries
  unfolding tick
  take_turn-AreAccounted (raise e) round w fair accounted = accounted
  take_turn-AreAccounted (ok _) round w (new, distinct) accounted =
      read_fresh-AreAccounted round.answers round.answers.fresh w new distinct accounted

  -- A worker that runs alone, for any number of turns with any faults, batches broken off by an
  -- exception included, sends each message of the stream at most as often as its budget allows,
  -- and each stays in the stream until a request succeeded or it has a row of failed_requests. No
  -- answer of Redis hands an id out twice.
  pub run-AreAccounted :
      (interval : ℕ) (rounds : List (Round F)) (w : SyncWorker F)
      → All IsFair rounds
      → AreAccounted w.entries
      → AreAccounted (run fl urlsplit loads sendable policy budget interval rounds w).entries
  unfolding run
  run-AreAccounted interval [] w fair accounted = accounted
  run-AreAccounted interval (round ∷ rounds) w (f, fair) accounted =
      let next = take_turn fl urlsplit loads sendable policy budget round.ensured round.answers w in
      run-AreAccounted interval rounds _ fair (
        rw (sample_depth_entries interval round.now round.depth next)
          (take_turn-AreAccounted round.ensured round w f accounted))
