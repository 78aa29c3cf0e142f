-- ===== src/Queue/Worker/Settlement.antt =====
-- The retry budget of a message, and that none is lost.
use adaptive_gateway.Prelude.{
  ℕ, ◌+◌, ◌≤◌, ◌≡◌, ◌≢◌, refl, ◌⊎◌, inl, inr, Bool, true, false, not, ◌||◌, ◌&&◌, Option, none,
  some, List, [], ◌∷◌, ◌++◌, arith, ltb, leb, Bool-cases,
}
use adaptive_gateway.Prelude.Texts.{Text}
use adaptive_gateway.Prelude.Dicts.{Dict}
use adaptive_gateway.Prelude.Floats.{Float}
use adaptive_gateway.Prelude.Results.{Result, Result-cases, redis_error, database_error}
use adaptive_gateway.Json.{Json}
use adaptive_gateway.Config.{Url}
use adaptive_gateway.ProxyHttp.Bounded.{Fetched, fetched, unfetched}
use adaptive_gateway.Queue.{Policy}
use adaptive_gateway.Queue.Message.{FailedRequest, Message, Outcome, done, broke, Budget, Delivery}
use adaptive_gateway.Queue.Message.Logic.{
  After, and_then-After, command-Then, command-After, query-After,
}
use adaptive_gateway.Queue.Worker.{
  max_attempts, attempts_of, ack, bury, conclude, send, charge, try_send, deliver, handle,
  retry_or_bury, rescued, judge, encoded, is_early, is_malformed, final,
}

module _ (fl : Float) (urlsplit : Text → Result Url) (loads : Text → Result (Json fl.F))
    (sendable : Dict (Json fl.F) → Result (Unit {0})) (policy : Policy fl.F) (budget : Budget) where
  open fl use {F}

  abbrev limit : ℕ
  limit = max_attempts fl urlsplit loads sendable policy budget

  abbrev charged_for : Message F → ℕ
  charged_for = attempts_of fl urlsplit loads sendable policy budget

  -- A success or a row of failed_requests.
  abbrev pub IsSettled : Message F → Type 0
  IsSettled w = (w.succeeded ≡ true) ⊎ (w.dead ≢ [])

  -- The requests stay within the budget, and while the message is in the stream, within what it has
  -- been charged for; the message is in the stream or settled.
  abbrev pub IsAccounted : Message F → Type 0
  IsAccounted w =
      (w.sent ≤ budget.queue_max_retries + 1)
      × (w.in_stream ≡ true
          → (w.sent ≤ charged_for w) × (charged_for w ≤ budget.queue_max_retries + 1))
      × ((w.in_stream ≡ true) ⊎ IsSettled w)

  module _ (fields : Dict Text) (d : Delivery F) where
    abbrev acked : Message F → Outcome F
    acked = ack fl urlsplit loads sendable policy budget fields d

    -- Out of the stream for good.
    abbrev IsGone : Message F → Type 0
    IsGone w = (w.sent ≤ budget.queue_max_retries + 1) × (w.in_stream ≡ false) × IsSettled w

    gone-IsAccounted : (w : Message F) → IsGone w → IsAccounted w
    gone-IsAccounted w (sent, out, settled) = (sent, (λ inside. ground arith), inr settled)

    abbrev IsAcked : Message F → Type 0
    IsAcked w = IsAccounted w × IsSettled w

    ack-IsAccounted : (w : Message F) → IsAccounted w → IsSettled w → After IsAccounted (acked w)
    unfolding ack
    ack-IsAccounted w accounted settled =
        and_then-After IsAccounted IsAcked _ _
          (command-Then IsAccounted IsAcked d.xack redis_error _ w accounted (accounted, settled)
            accounted)
          λ w₁ (a₁, s₁).
            and_then-After IsAccounted IsGone _ _
              (command-Then IsAccounted IsGone d.xdel redis_error _ w₁ a₁ (a₁.0, refl, s₁)
                (gone-IsAccounted (record w₁ { in_stream = false }) (a₁.0, refl, s₁)))
              λ w₂ g₂.
                and_then-After IsAccounted IsGone _ _
                  (command-Then IsAccounted IsGone d.attempts_delete redis_error _ w₂
                    (gone-IsAccounted w₂ g₂) g₂
                    (gone-IsAccounted (record w₂ { attempts = none }) g₂))
                  λ w₃ g₃.
                    command-After IsAccounted d.due_delete redis_error _ w₃ (gone-IsAccounted w₃ g₃)
                      (gone-IsAccounted (record w₃ { due = none }) g₃)

    append-nonempty :
        (rows : List (FailedRequest F)) (row : FailedRequest F) → rows ++ row ∷ [] ≢ []
    append-nonempty [] row e = cc e
    append-nonempty (x ∷ rows) row e = cc e

    buried-IsAccounted :
        (retries : ℕ) (error : Option Text) (w : Message F)
        → IsAccounted w
        → After IsAccounted (bury fl urlsplit loads sendable policy budget fields d retries error w)
    unfolding bury
    buried-IsAccounted retries error w accounted =
        and_then-After IsAccounted IsAcked _ _
          (command-Then IsAccounted IsAcked d.commit database_error _ w accounted
            (
              (accounted.0, accounted.1, inr (inr (append-nonempty w.dead _))),
              inr (append-nonempty w.dead _),
            )
            (accounted.0, accounted.1, inr (inr (append-nonempty w.dead _))))
          λ w₁ (a₁, s₁). ack-IsAccounted w₁ a₁ s₁

    retried-IsAccounted :
        (attempts : ℕ) (retryable : Bool) (error : Text) (w : Message F)
        → IsAccounted w
        → After IsAccounted (
            retry_or_bury fl urlsplit loads sendable policy budget fields d attempts retryable error
              w)
    retried-IsAccounted attempts retryable error w accounted =
        elim (Bool-cases (leb limit attempts || not retryable)) [
          | inl last ↦ rw last (buried-IsAccounted attempts (some error) w accounted)
          | inr more ↦ rw more accounted
        ]

    conclude-IsAccounted :
        (attempts : ℕ) (f : Fetched) (w : Message F)
        → IsAccounted w
        → After IsAccounted
            (conclude fl urlsplit loads sendable policy budget fields d attempts f w)
    unfolding conclude
    conclude-IsAccounted attempts (unfetched _) w accounted =
        retried-IsAccounted attempts true d.error_name w accounted
    conclude-IsAccounted attempts (fetched response) w accounted =
        elim (Bool-cases (leb 200 response.status && ltb response.status 300)) [
          | inl success ↦
              rw (conclude, success)
                (ack-IsAccounted (record w { succeeded = true })
                  (accounted.0, accounted.1, inr (inl refl)) (inl refl))
          | inr failure ↦ rw (conclude, failure) (retried-IsAccounted attempts _ _ w accounted)
        ]

    -- Charged for one request more than was sent.
    abbrev IsCharged : Message F → Type 0
    IsCharged w =
        (w.sent + 1 ≤ charged_for w)
        × (charged_for w ≤ budget.queue_max_retries + 1)
        × ((w.in_stream ≡ true) ⊎ IsSettled w)

    charged-IsAccounted : (w : Message F) → IsCharged w → IsAccounted w
    charged-IsAccounted w (more, within, rest) =
        (omega (arith, more, within), (λ _. (omega (arith, more), within)), rest)

    send-IsAccounted :
        (headers : Dict (Json F)) (attempts : ℕ) (w : Message F)
        → IsCharged w
        → After IsAccounted
            (send fl urlsplit loads sendable policy budget fields d headers attempts w)
    unfolding send
    send-IsAccounted headers attempts w charged =
        elim (Result-cases (encoded fl urlsplit loads sendable policy budget fields d headers)) [
          | inr (e, failed) ↦ rw (send, failed) (charged-IsAccounted w charged)
          | inl (_, fine) ↦
              rw (send, fine)
                (conclude-IsAccounted attempts _ (record w { sent = w.sent + 1 })
                  (omega (arith, charged.0, charged.1), (λ _. (charged.0, charged.1)), charged.2))
        ]

    charge-IsAccounted :
        (headers : Dict (Json F)) (w : Message F)
        → IsAccounted w
        → w.in_stream ≡ true
        → charged_for w + 1 ≤ budget.queue_max_retries + 1
        → After IsAccounted
            (charge fl urlsplit loads sendable policy budget fields d headers (charged_for w + 1) w)
    unfolding charge
    charge-IsAccounted headers w accounted inside room =
        let (sent, within) = accounted.1 inside in
        let charged : IsCharged (record w { attempts = some (charged_for w + 1) }) =
          (omega (arith, sent), room, accounted.2) in
        and_then-After IsAccounted IsCharged _ _
          (command-Then IsAccounted IsCharged d.attempts_write redis_error _ w accounted charged
            (charged-IsAccounted (record w { attempts = some (charged_for w + 1) }) charged))
          λ w₁ c₁.
            and_then-After IsAccounted IsCharged _ _
              (command-Then IsAccounted IsCharged d.due_write redis_error _ w₁
                (charged-IsAccounted w₁ c₁) c₁ (charged-IsAccounted w₁ c₁))
              (send-IsAccounted headers (charged_for w + 1))

    try_send-IsAccounted :
        (w : Message F)
        → IsAccounted w
        → w.in_stream ≡ true
        → After IsAccounted
            (try_send fl urlsplit loads sendable policy budget fields d (charged_for w + 1) w)
    unfolding try_send
    try_send-IsAccounted w accounted inside =
        elim (Result-cases (judge fl urlsplit loads sendable policy budget fields d.now)) [
          | inr (e, failed) ↦ rw (try_send, failed) accounted
          | inl ((headers, eligible), judged) ↦
              elim (Bool-cases (not eligible || ltb limit (charged_for w + 1))) [
                | inl spent ↦ rw (try_send, judged, spent) (buried-IsAccounted _ _ w accounted)
                | inr room ↦
                    rw (try_send, judged, room)
                      (charge-IsAccounted headers w accounted inside (ground arith))
              ]
        ]

    abbrev pub handled : Bool → Message F → Outcome F
    handled = handle fl urlsplit loads sendable policy budget fields d

    deliver-IsAccounted :
        (w : Message F)
        → IsAccounted w
        → w.in_stream ≡ true
        → After IsAccounted (deliver fl urlsplit loads sendable policy budget fields d w)
    unfolding deliver
    deliver-IsAccounted w accounted inside =
        query-After IsAccounted d.due_read w.due _ w accounted
          (elim (Bool-cases (is_early fl urlsplit loads sendable policy budget fields d w.due)) [
            | inl early ↦ rw early accounted
            | inr due ↦ rw due (
                query-After IsAccounted d.attempts_read (charged_for w + 1)
                  (λ attempts.
                    try_send fl urlsplit loads sendable policy budget fields d attempts w)
                  w accounted (try_send-IsAccounted w accounted inside))
          ])

    rescued-IsAccounted :
        (o : Outcome F)
        → After IsAccounted o
        → After IsAccounted (rescued fl urlsplit loads sendable policy budget fields d o)
    rescued-IsAccounted (done w) accounted = accounted
    rescued-IsAccounted (broke e w) accounted =
        elim (Bool-cases (is_malformed fl urlsplit loads sendable policy budget fields d e)) [
          | inr other ↦ rw other accounted
          | inl malformed ↦ rw malformed (
              query-After IsAccounted d.attempts_again (charged_for w)
                (λ attempts. bury fl urlsplit loads sendable policy budget fields d attempts _ w) w
                accounted (buried-IsAccounted (charged_for w) _ w accounted))
        ]

    pub handle-IsAccounted :
        (leased : Bool) (w : Message F)
        → IsAccounted w
        → w.in_stream ≡ true
        → After IsAccounted (handled leased w)
    unfolding handle
    handle-IsAccounted false w accounted inside = accounted
    handle-IsAccounted true w accounted inside =
        rescued-IsAccounted _ (deliver-IsAccounted w accounted inside)

  pub final-IsAccounted :
      (o : Outcome F)
      → After IsAccounted o
      → IsAccounted (final fl urlsplit loads sendable policy budget o)
  final-IsAccounted (done w) accounted = accounted
  final-IsAccounted (broke e w) accounted = accounted
