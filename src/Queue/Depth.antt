-- ===== src/Queue/Depth.antt =====
-- What may enter the queue, and how much.
use adaptive_gateway.Prelude.{
  ℕ, ◌≡◌, ◌≤◌, ◌<◌, refl, ◌⊎◌, inl, inr, true, false, Option, none, some, [], arith, length,
  default, leb, Bool-cases,
}
use adaptive_gateway.Prelude.Texts.{Text, str, among}
use adaptive_gateway.Prelude.Dicts.{Dict, lookup}
use adaptive_gateway.Prelude.Results.{
  Exc, redis_error, Result, ok, raise, value_error, Result-cases,
}
use adaptive_gateway.Redis.{Reply, answered, lost_before, lost_after}
use adaptive_gateway.Config.{Url, is_empty, get_route_rule}
use adaptive_gateway.ProxyHttp.Target.{destination_service}
use adaptive_gateway.Queue.{
  Stream, StreamLaws, Policy, Write, write_methods, is_refused, entry_of, add_bounded, replied,
  enqueue_write,
}

module _ (F : Type 0) (urlsplit : Text → Result Url) (dumps : Dict Text → Text) (q : Stream) where
  -- What makes a write fit for replay.
  abbrev pub IsEligible : Policy F → Write → Text → Type 0
  IsEligible policy w service =
      (destination_service urlsplit policy.services w.url ≡ ok (some service))
      × ((get_route_rule policy.rules policy.default_rule service).queue_writes ≡ true)
      × (among w.method write_methods ≡ true)
      × (is_empty (default (lookup (str "idempotency-key") w.headers) []) ≡ false)
      × (length w.body ≤ policy.max_request_body_bytes)

  abbrev Added : Type 0
  Added = Result Text × q.Q

  -- The call raised and left the stream as it was.
  abbrev pub IsRefused : q.Q → Added → Type 0
  IsRefused s done = ((e : Exc) × (done.0 ≡ raise e)) × (done.1 ≡ s)

  added_cases :
      (depth : ℕ) (reply : Reply) (fields : Dict Text) (s : q.Q)
      → IsRefused s
          (replied F urlsplit dumps q reply s (add_bounded F urlsplit dumps q depth fields s))
        ⊎ (q.xlen s < depth)
          × ((replied F urlsplit dumps q reply s (add_bounded F urlsplit dumps q depth fields s)).1
              ≡ (q.xadd fields s).1)
  added_cases depth lost_before fields s = inl ((redis_error, refl), refl)
  added_cases depth answered fields s = elim (Bool-cases (leb depth (q.xlen s))) [
    | inl full ↦ inl (rw full ((value_error, refl), refl))
    | inr room ↦ inr (ground arith, rw room refl)
  ]
  added_cases depth lost_after fields s = elim (Bool-cases (leb depth (q.xlen s))) [
    | inl full ↦ inl (rw full ((redis_error, refl), refl))
    | inr room ↦ inr (ground arith, rw room refl)
  ]

  eligible_lem :
      (policy : Policy F) (w : Write) (service : Option Text)
      → destination_service urlsplit policy.services w.url ≡ ok service
      → is_refused F urlsplit dumps policy w service ≡ false
      → (name : Text) × IsEligible policy w name
  eligible_lem policy w none destined fit = ground arith
  eligible_lem policy w (some name) destined fit =
      (name, (destined, ground arith, ground arith, ground arith, ground arith))

  -- A write enters the stream only if it is bound for a configured service whose rule queues
  -- writes, has a writing method, an idempotency key and a body within the limit, and the stream is
  -- not full; the stream then has its entry, whether or not Redis's answer arrives. Otherwise the
  -- call raises and the stream is as before.
  pub enqueue_write_cases :
      (policy : Policy F) (reply : Reply) (timestamp : Text) (w : Write) (s : q.Q)
      → IsRefused s (enqueue_write F urlsplit dumps q policy reply timestamp w s)
        ⊎ ((service : Text) × IsEligible policy w service)
          × (q.xlen s < policy.queue_max_depth)
          × ((enqueue_write F urlsplit dumps q policy reply timestamp w s).1
              ≡ (q.xadd (entry_of F urlsplit dumps w timestamp) s).1)
  unfolding enqueue_write
  enqueue_write_cases policy reply timestamp w s =
      elim (Result-cases (destination_service urlsplit policy.services w.url)) [
        | inr (e, lost) ↦ inl (rw (enqueue_write, lost) ((e, refl), refl))
        | inl (service, destined) ↦
            elim (Bool-cases (is_refused F urlsplit dumps policy w service)) [
              | inl refused ↦
                  inl (rw (enqueue_write, destined, refused) ((value_error, refl), refl))
              | inr fit ↦
                  elim (added_cases policy.queue_max_depth reply
                    (entry_of F urlsplit dumps w timestamp) s) [
                      | inl unchanged ↦ inl (rw (enqueue_write, destined, fit) unchanged)
                      | inr (room, added) ↦ inr (
                        eligible_lem policy w service destined fit,
                        room,
                        rw (enqueue_write, destined, fit) added,
                      )
                    ]
            ]
      ]

  -- A stream within its bound stays within it, whatever is written and however Redis answers.
  pub enqueue_write-bounded :
      StreamLaws q
      → (policy : Policy F) (reply : Reply) (timestamp : Text) (w : Write) (s : q.Q)
      → q.xlen s ≤ policy.queue_max_depth
      → q.xlen (enqueue_write F urlsplit dumps q policy reply timestamp w s).1
        ≤ policy.queue_max_depth
  enqueue_write-bounded laws policy reply timestamp w s within =
      elim (enqueue_write_cases policy reply timestamp w s) [
        | inl unchanged ↦ rw unchanged.1 within
        | inr (_, room, added) ↦
            rw added
              (rw (laws.xlen-xadd (entry_of F urlsplit dumps w timestamp) s) (omega (arith, room)))
      ]
