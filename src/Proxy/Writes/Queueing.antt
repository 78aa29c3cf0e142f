-- ===== src/Proxy/Writes/Queueing.antt =====
-- When a write is queued, and what its client is told.
use adaptive_gateway.Prelude.{ℕ, ◌<◌, ◌≡◌, refl, ◌∙◌, ◌⊎◌, inl, inr, Bool, true, List, Bool-cases}
use adaptive_gateway.Prelude.Texts.{Text}
use adaptive_gateway.Prelude.Dicts.{Dict}
use adaptive_gateway.Prelude.Floats.{Float}
use adaptive_gateway.Prelude.Results.{Result, ok, raise}
use adaptive_gateway.Http.{Request}
use adaptive_gateway.Config.{Url}
use adaptive_gateway.ProxyHttp.Bounded.{
  Failure, Exchange, Fetched, fetched, unfetched, bounded_request,
}
use adaptive_gateway.Redis.{Reply}
use adaptive_gateway.Queue.{Stream, Policy, Write, entry_of, enqueue_write}
use adaptive_gateway.Queue.Depth.{IsEligible, enqueue_write_cases}
use adaptive_gateway.Proxy.{Caller}
use adaptive_gateway.Proxy.Writes.{
  Written, is_eligible, is_ambiguous, write_of, accepted, ambiguous, answer_write, handle_write,
}

module _ (fl : Float) (urlsplit : Text → Result Url) (dumps : Dict Text → Text) (q : Stream)
    (policy : Policy fl.F) (limit : ℕ) where
  open fl use {F}

  module _ (caller : Caller) (request : Request) (elapsed : F) (timestamp : Text)
      (reply : Reply) where
    abbrev write : Bool → Text → Dict Text → List ℕ → Exchange → q.Q → Result (Written F) × q.Q
    write = handle_write fl urlsplit dumps q policy limit caller request elapsed timestamp reply

    abbrev entry : Text → Dict Text → List ℕ → Write
    entry = write_of fl urlsplit dumps q policy limit caller request elapsed timestamp reply

    abbrev pub IsQueued : Bool → Text → Dict Text → List ℕ → Exchange → q.Q → q.Q → Type 0
    IsQueued queue_writes target headers body exchange s s' =
        (s' ≡ s)
        ⊎ ((failure : Failure) × (bounded_request limit exchange ≡ unfetched failure)
            × (is_ambiguous failure ≡ true))
          × (is_eligible queue_writes request ≡ true)
          × ((service : Text) × IsEligible F urlsplit dumps q policy (entry target headers body)
                service)
          × (q.xlen s < policy.queue_max_depth)
          × (s' ≡ (q.xadd (entry_of F urlsplit dumps (entry target headers body) timestamp) s).1)

    accepted_queue :
        (done : Result Text × q.Q)
        → (accepted fl urlsplit dumps q policy limit caller request elapsed timestamp reply done).1
          ≡ done.1
    accepted_queue (ok id, s) = refl
    accepted_queue (raise e, s) = refl

    answered_queue :
        (queue_writes : Bool) (target : Text) (headers : Dict Text) (body : List ℕ) (f : Fetched)
        (exchange : Exchange) (s : q.Q)
        → bounded_request limit exchange ≡ f
        → IsQueued queue_writes target headers body exchange s
            (answer_write fl urlsplit dumps q policy limit caller request elapsed timestamp reply
              queue_writes target headers body f s).1
    unfolding answer_write ambiguous
    answered_queue queue_writes target headers body (fetched response) exchange s e = inl refl
    answered_queue queue_writes target headers body (unfetched failure) exchange s e =
        let w = entry target headers body in
        elim (Bool-cases (is_ambiguous failure)) [
          | inr final ↦ inl (rw final refl)
          | inl lost ↦ elim (Bool-cases (is_eligible queue_writes request)) [
            | inr unfit ↦ inl (rw (lost, unfit) refl)
            | inl fit ↦
                let done = enqueue_write F urlsplit dumps q policy reply timestamp w s in
                let shown = accepted_queue done in
                elim (enqueue_write_cases F urlsplit dumps q policy reply timestamp w s) [
                  | inl (_, same) ↦ inl (rw (lost, fit) (shown ∙ same))
                  | inr (service, room, added) ↦
                      inr ((failure, e, lost), fit, service, room, rw (lost, fit) (shown ∙ added))
                ]
          ]
        ]

    -- The queue is as before, or the upstream's answer was lost by a timeout or a refused
    -- connection, the route queues writes, the request has a valid idempotency key, the write is fit
    -- for replay at its target, the stream had room, and exactly the entry of this write was added.
    pub handle_write_queue :
        (queue_writes : Bool) (target : Text) (headers : Dict Text) (body : List ℕ)
        (exchange : Exchange) (s : q.Q)
        → IsQueued queue_writes target headers body exchange s
            (write queue_writes target headers body exchange s).1
    unfolding handle_write
    handle_write_queue queue_writes target headers body exchange s =
        answered_queue queue_writes target headers body _ exchange s refl
