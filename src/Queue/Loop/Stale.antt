-- ===== src/Queue/Loop/Stale.antt =====
-- Two workers: a copy that one still holds after the other has settled the message.
use adaptive_gateway.Prelude.{
  ◌+◌, ◌≡◌, ap, inl, inr, Bool, true, none, some, List, [], ◌∷◌, arith, Bool-cases,
}
use adaptive_gateway.Prelude.Texts.{Text, text_eq}
use adaptive_gateway.Prelude.Dicts.{Dict}
use adaptive_gateway.Prelude.Floats.{Float}
use adaptive_gateway.Prelude.Results.{Result}
use adaptive_gateway.Json.{Json}
use adaptive_gateway.Config.{Url}
use adaptive_gateway.Queue.{Policy}
use adaptive_gateway.Queue.Message.{Budget, Delivery}
use adaptive_gateway.Queue.Worker.Resend.{IsSendable, handle_resends}
use adaptive_gateway.Queue.Loop.{Entry, find, outcome, after, handle_entry}

module _ (fl : Float) (urlsplit : Text → Result Url) (loads : Text → Result (Json fl.F))
    (sendable : Dict (Json fl.F) → Result (Unit {0})) (policy : Policy fl.F) (budget : Budget) where
  open fl use {F}

  abbrev served : Bool × Delivery F → Dict Text → Entry F → Entry F
  served serve fields e = record e {
    message =
        after fl urlsplit loads sendable policy budget
          (outcome fl urlsplit loads sendable policy budget serve fields e.message);
  }

  find-handle_entry_self :
      (serve : Bool × Delivery F) (id : Text) (fields : Dict Text) (entries : List (Entry F))
      (e : Entry F)
      → find id entries ≡ some e
      → find id (handle_entry fl urlsplit loads sendable policy budget serve id fields entries).0
        ≡ some (served serve fields e)
  unfolding handle_entry
  find-handle_entry_self serve id fields [] e found = cc
  find-handle_entry_self serve id fields (x ∷ xs) e found = elim (Bool-cases (text_eq x.id id)) [
    | inl same ↦
        let is_e : x ≡ e = ground arith in
        rw same (rw same (ap (λ y. some (served serve fields y)) is_e))
    | inr other ↦
        rw other (rw other (find-handle_entry_self serve id fields xs e (rw other at found)))
  ]

  -- A worker that handles a copy which it fetched earlier sends the request again, as a first
  -- attempt, when the entry has no counters: also where another worker has meanwhile acknowledged
  -- it or moved it to failed_requests, deleted it from the stream and used up its budget.
  pub stale_copy_resends :
      (entries : List (Entry F)) (id : Text) (e : Entry F) (fields : Dict Text) (d : Delivery F)
      (headers : Dict (Json F))
      → find id entries ≡ some e
      → e.message.attempts ≡ none
      → e.message.due ≡ none
      → IsSendable fl urlsplit loads sendable policy budget fields d headers
      → (e' : Entry F) × (find id
            (handle_entry fl urlsplit loads sendable policy budget (true, d) id fields entries).0
          ≡ some e')
        × (e'.message.sent ≡ e.message.sent + 1)
  stale_copy_resends entries id e fields d headers found a b s = (
    served (true, d) fields e,
    find-handle_entry_self (true, d) id fields entries e found,
    handle_resends fl urlsplit loads sendable policy budget fields d headers e.message a b s,
  )
