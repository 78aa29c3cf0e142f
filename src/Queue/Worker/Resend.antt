-- ===== src/Queue/Worker/Resend.antt =====
-- A delivery of a message that was settled before: it is sent as if it were new.
use mathlib.Core.Path.{subst}
use adaptive_gateway.Prelude.{
  ℕ, ◌+◌, ◌≡◌, refl, ◌∙◌, inl, inr, Bool, true, false, not, ◌&&◌, ◌||◌, Option, none, some, arith,
  Bool-cases, leb, ltb, if◌then◌else◌,
}
use adaptive_gateway.Prelude.Texts.{Text}
use adaptive_gateway.Prelude.Dicts.{Dict}
use adaptive_gateway.Prelude.Floats.{Float}
use adaptive_gateway.Prelude.Results.{Result, ok}
use adaptive_gateway.Json.{Json}
use adaptive_gateway.Config.{Url}
use adaptive_gateway.ProxyHttp.Bounded.{Fetched, fetched, unfetched}
use adaptive_gateway.Redis.{answered}
use adaptive_gateway.Queue.{Policy}
use adaptive_gateway.Queue.Message.{Message, Outcome, done, broke, Budget, Delivery}
use adaptive_gateway.Queue.Message.Logic.{
  After, and_then-After, command-Then, command-After, query-After, and_then_answered,
  query_answered,
}
use adaptive_gateway.Queue.Worker.{
  is_early, is_malformed, max_attempts, backoff_seconds, attempts_of, ack, bury, conclude, send,
  charge, try_send, deliver, handle, retry_or_bury, rescued, judge, encoded, final,
}

module _ (fl : Float) (urlsplit : Text → Result Url) (loads : Text → Result (Json fl.F))
    (sendable : Dict (Json fl.F) → Result (Unit {0})) (policy : Policy fl.F) (budget : Budget)
    (fields : Dict Text) (d : Delivery fl.F) where
  open fl use {F}

  abbrev HasSent : ℕ → Message F → Type 0
  HasSent n w = w.sent ≡ n

  ack-HasSent :
      (n : ℕ) (w : Message F)
      → HasSent n w
      → After (HasSent n) (ack fl urlsplit loads sendable policy budget fields d w)
  unfolding ack
  ack-HasSent n w h =
      and_then-After (HasSent n) (HasSent n) _ _ (command-Then _ _ d.xack _ _ w h h h) λ w₁ h₁.
        and_then-After (HasSent n) (HasSent n) _ _ (command-Then _ _ d.xdel _ _ w₁ h₁ h₁ h₁)
          λ w₂ h₂.
            and_then-After (HasSent n) (HasSent n) _ _
              (command-Then _ _ d.attempts_delete _ _ w₂ h₂ h₂ h₂)
              λ w₃ h₃. command-After _ d.due_delete _ _ w₃ h₃ h₃

  bury-HasSent :
      (n retries : ℕ) (error : Option Text) (w : Message F)
      → HasSent n w
      → After (HasSent n) (bury fl urlsplit loads sendable policy budget fields d retries error w)
  unfolding bury
  bury-HasSent n retries error w h =
      and_then-After (HasSent n) (HasSent n) _ _ (command-Then _ _ d.commit _ _ w h h h)
        (ack-HasSent n)

  retry_or_bury-HasSent :
      (n attempts : ℕ) (retryable : Bool) (error : Text) (w : Message F)
      → HasSent n w
      → After (HasSent n) (
          retry_or_bury fl urlsplit loads sendable policy budget fields d attempts retryable error
            w)
  retry_or_bury-HasSent n attempts retryable error w h =
      elim (Bool-cases
        (leb (max_attempts fl urlsplit loads sendable policy budget) attempts || not retryable)) [
          | inl last ↦ rw last (bury-HasSent n attempts (some error) w h)
          | inr more ↦ rw more h
        ]

  conclude-HasSent :
      (n attempts : ℕ) (f : Fetched) (w : Message F)
      → HasSent n w
      → After (HasSent n) (conclude fl urlsplit loads sendable policy budget fields d attempts f w)
  unfolding conclude
  conclude-HasSent n attempts (unfetched _) w h =
      retry_or_bury-HasSent n attempts true d.error_name w h
  conclude-HasSent n attempts (fetched response) w h =
      elim (Bool-cases (leb 200 response.status && ltb response.status 300)) [
        | inl success ↦ rw (conclude, success) (ack-HasSent n (record w { succeeded = true }) h)
        | inr failure ↦ rw (conclude, failure) (retry_or_bury-HasSent n attempts _ _ w h)
      ]

  -- Redis answers the reads and the charge of this delivery, it is eligible, and its body and headers can be sent.
  pub record IsSendable (headers : Dict (Json F)) : Type 0 where
    pub due_read : d.due_read ≡ answered
    pub attempts_read : d.attempts_read ≡ answered
    pub attempts_write : d.attempts_write ≡ answered
    pub due_write : d.due_write ≡ answered
    pub eligible : judge fl urlsplit loads sendable policy budget fields d.now ≡ ok (headers, true)
    pub encodes : encoded fl urlsplit loads sendable policy budget fields d headers ≡ ok tt

  send-HasSent :
      (headers : Dict (Json F)) (attempts : ℕ) (w : Message F)
      → encoded fl urlsplit loads sendable policy budget fields d headers ≡ ok tt
      → After
          (HasSent (w.sent + 1))
          (send fl urlsplit loads sendable policy budget fields d headers attempts w)
  unfolding send
  send-HasSent headers attempts w e =
      rw (send, e) (conclude-HasSent (w.sent + 1) attempts _ (record w { sent = w.sent + 1 }) refl)

  charge-send :
      (headers : Dict (Json F)) (attempts : ℕ) (w : Message F)
      → d.attempts_write ≡ answered
      → d.due_write ≡ answered
      → (w' : Message F) × (charge fl urlsplit loads sendable policy budget fields d headers
            attempts w
          ≡ send fl urlsplit loads sendable policy budget fields d headers attempts w')
        × (w'.sent ≡ w.sent)
  unfolding charge
  charge-send headers attempts w a b =
      let due = some (
        fl.add d.now
          (fl.of_ℕ (backoff_seconds fl urlsplit loads sendable policy budget attempts))) in
      (
        record w { attempts = some attempts; due = due },
        and_then_answered d.attempts_write _ _ w _ a ∙ and_then_answered d.due_write _ _ _ _ b,
        refl,
      )

  try_send-HasSent :
      (headers : Dict (Json F)) (attempts : ℕ) (w : Message F)
      → IsSendable headers
      → ltb (max_attempts fl urlsplit loads sendable policy budget) attempts ≡ false
      → After
          (HasSent (w.sent + 1))
          (try_send fl urlsplit loads sendable policy budget fields d attempts w)
  unfolding try_send
  try_send-HasSent headers attempts w s within =
      let (w', e, same) = charge-send headers attempts w s.attempts_write s.due_write in
      rw (try_send, s.eligible, within, e)
        (subst
          (λ n.
            After (HasSent (n + 1))
              (send fl urlsplit loads sendable policy budget fields d headers attempts w'))
          same (send-HasSent headers attempts w' s.encodes))

  rescued-HasSent :
      (n : ℕ) (o : Outcome F)
      → After (HasSent n) o
      → After (HasSent n) (rescued fl urlsplit loads sendable policy budget fields d o)
  rescued-HasSent n (done w) h = h
  rescued-HasSent n (broke e w) h =
      elim (Bool-cases (is_malformed fl urlsplit loads sendable policy budget fields d e)) [
        | inr other ↦ rw other h
        | inl malformed ↦
            rw malformed (query-After (HasSent n) d.attempts_again _ _ w h (bury-HasSent n _ _ w h))
      ]

  final-HasSent :
      (n : ℕ) (o : Outcome F)
      → After (HasSent n) o
      → HasSent n (final fl urlsplit loads sendable policy budget o)
  final-HasSent n (done w) h = h
  final-HasSent n (broke e w) h = h

  not_early :
      (due : Option F) (w : Message F) (tried : Outcome F)
      → due ≡ none
      → (if is_early fl urlsplit loads sendable policy budget fields d due then done w else tried)
        ≡ tried
  not_early due w tried q = rw q refl

  deliver_fresh :
      (w : Message F)
      → w.due ≡ none
      → d.due_read ≡ answered
      → d.attempts_read ≡ answered
      → deliver fl urlsplit loads sendable policy budget fields d w
        ≡ try_send fl urlsplit loads sendable policy budget fields d
            (attempts_of fl urlsplit loads sendable policy budget w + 1)
            w
  unfolding deliver
  deliver_fresh w b r₁ r₂ =
      query_answered d.due_read w.due _ w r₁
      ∙ not_early w.due w _ b
      ∙ query_answered d.attempts_read _ _ w r₂

  -- A message without counters, such as one that another worker has acknowledged, is charged as a
  -- first attempt and sent again, whatever was sent for it before.
  pub handle_resends :
      (headers : Dict (Json F)) (w : Message F)
      → w.attempts ≡ none
      → w.due ≡ none
      → IsSendable headers
      → (final fl urlsplit loads sendable policy budget
          (handle fl urlsplit loads sendable policy budget fields d true w)).sent
        ≡ w.sent + 1
  unfolding handle
  handle_resends headers w a b s =
      let delivered = deliver fl urlsplit loads sendable policy budget fields d w in
      final-HasSent (w.sent + 1)
        (rescued fl urlsplit loads sendable policy budget fields d delivered)
        (rescued-HasSent (w.sent + 1) delivered (
          rw (deliver_fresh w b s.due_read s.attempts_read)
            (try_send-HasSent headers _ w s (ground arith))))
