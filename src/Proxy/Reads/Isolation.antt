-- ===== src/Proxy/Reads/Isolation.antt =====
-- What a GET may read from the cache and what it may put there.
use adaptive_gateway.Prelude.{
  ◌≡◌, refl, sym, ap, ◌∙◌, ◌⊎◌, inl, inr, true, false, none, some, Bool-cases,
}
use adaptive_gateway.Prelude.Texts.{Text}
use adaptive_gateway.Prelude.Floats.{Float}
use adaptive_gateway.Prelude.Results.{Result, ok, Result-cases}
use adaptive_gateway.Http.{Request}
use adaptive_gateway.Config.{RouteRule}
use adaptive_gateway.ProxyHttp.Bounded.{Upstream, Fetched, fetched, unfetched, bounded_request}
use adaptive_gateway.Redis.{Redis}
use adaptive_gateway.Cache.{hit, miss, stale, Envelope, Found}
use adaptive_gateway.Cache.Locks.{acquire_lock}
use adaptive_gateway.Proxy.{Caller, response_cacheable}
use adaptive_gateway.Proxy.Reads.{
  Moment, Limits, Served, is_cacheable, handle_get, answer_found, stale_read, missed, store,
  lock_ttl, revalidate_lock, look_up,
}

module _ (fl : Float) (env : Envelope fl.F) (r : Redis) (limits : Limits fl.F) where
  open fl use {F}

  module _ (caller : Caller) (request : Request) (rule : RouteRule F) (key : Text) where
    abbrev get : Moment F → r.S → Result (Served fl env r limits) × r.S
    get = handle_get fl env r limits caller request rule key

    private_look_up :
        (m : Moment F) (s : r.S)
        → is_cacheable fl env r limits caller request rule key ≡ false
        → look_up fl env r limits caller request rule key m s ≡ ok (miss, none)
    private_look_up m s private = rw private refl

    pub get_found :
        (m : Moment F) (s : r.S) (found : Found fl env)
        → look_up fl env r limits caller request rule key m s ≡ ok found
        → get m s ≡ answer_found fl env r limits caller request rule key m found s
    unfolding handle_get
    get_found m s found e = rw (handle_get, e) refl

    abbrev miss_of : Moment F → Fetched → r.S → Served fl env r limits × r.S
    miss_of = missed fl env r limits caller request rule key

    missed_private :
        (m : Moment F) (f : Fetched) (s : r.S)
        → is_cacheable fl env r limits caller request rule key ≡ false
        → (miss_of m f s).1 ≡ s
    unfolding missed
    missed_private m (unfetched _) s private = refl
    missed_private m (fetched response) s private = rw private refl

    missed_same :
        (m : Moment F) (f : Fetched) (s s' : r.S)
        → ((miss_of m f s).0 ≡ (miss_of m f s').0)
          × ((miss_of m f s).0.called_upstream ≡ true)
          × ((miss_of m f s).0.served_from_cache ≡ false)
    unfolding missed
    missed_same m (unfetched _) s s' = (refl, refl, refl)
    missed_same m (fetched response) s s' = (refl, refl, refl)

    -- A GET that may not use the cache, because of its route's rule, a credential, a condition, a
    -- range or a directive, leaves the store as it is and is answered in the same way whatever the
    -- store holds, by a call of the upstream.
    pub private_get_avoids_cache :
        (m : Moment F) (s s' : r.S)
        → is_cacheable fl env r limits caller request rule key ≡ false
        → ((get m s).1 ≡ s)
          × ((get m s).0 ≡ (get m s').0)
          × (served : Served fl env r limits) × ((get m s).0 ≡ ok served)
          × (served.called_upstream ≡ true)
          × (served.served_from_cache ≡ false)
    unfolding answer_found
    private_get_avoids_cache m s s' private =
        let f = bounded_request limits.max_response_body_bytes m.exchange in
        let found = get_found m s (miss, none) (private_look_up m s private) in
        let found' = get_found m s' (miss, none) (private_look_up m s' private) in
        let (same, called, uncached) = missed_same m f s s' in
        (
          ap (λ x. x.1) found ∙ missed_private m f s private,
          ap (λ x. x.0) found ∙ ap ok same ∙ sym (ap (λ x. x.0) found'),
          (miss_of m f s).0,
          ap (λ x. x.0) found,
          called,
          uncached,
        )

    -- The three ways a GET leaves the store.
    abbrev pub IsLeft : Moment F → r.S → r.S → Type 0
    IsLeft m s s' =
        (s' ≡ s)
        ⊎ ((s'
              ≡ (acquire_lock r m.lock_reply m.second m.token (revalidate_lock fl env r limits key)
                  (lock_ttl fl env r limits rule) s).1)
            ⊎ (response : Upstream) × (is_cacheable fl env r limits caller request rule key ≡ true)
              × (bounded_request limits.max_response_body_bytes m.exchange ≡ fetched response)
              × (response_cacheable response ≡ true)
              × (s'
                  ≡ store fl env r limits m.write_reply m.later_second m.later_now rule key response
                      s))

    missed_store :
        (m : Moment F) (f : Fetched) (s : r.S)
        → bounded_request limits.max_response_body_bytes m.exchange ≡ f
        → IsLeft m s (miss_of m f s).1
    unfolding missed
    missed_store m (unfetched _) s e = inl refl
    missed_store m (fetched response) s e =
        elim (Bool-cases (is_cacheable fl env r limits caller request rule key)) [
          | inr private ↦ inl (rw private refl)
          | inl shared ↦ elim (Bool-cases (response_cacheable response)) [
            | inl cacheable ↦
                inr (inr (response, shared, e, cacheable, rw (shared, cacheable) refl))
            | inr restricted ↦ inl (rw (shared, restricted) refl)
          ]
        ]

    answered_store :
        (m : Moment F) (found : Found fl env) (s : r.S)
        → IsLeft m s (answer_found fl env r limits caller request rule key m found s).1
    unfolding answer_found stale_read
    answered_store m (hit, some entry) s = inl refl
    answered_store m (stale, some entry) s = inr (inl refl)
    answered_store m (miss, found) s = missed_store m _ s refl
    answered_store m (hit, none) s = missed_store m _ s refl
    answered_store m (stale, none) s = missed_store m _ s refl

    -- What a GET may leave in the store: what was there, what taking the revalidation lock leaves,
    -- or an entry made from its own exchange, when the request may use the cache and the response
    -- was complete, has the status 200 and no header that restricts caching.
    pub handle_get_store : (m : Moment F) (s : r.S) → IsLeft m s (get m s).1
    unfolding handle_get
    handle_get_store m s =
        elim (Result-cases (look_up fl env r limits caller request rule key m s)) [
          | inr (e, failed) ↦ inl (rw (handle_get, failed) refl)
          | inl (found, e) ↦ rw (get_found m s found e) (answered_store m found s)
        ]
