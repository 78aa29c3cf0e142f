-- ===== src/Proxy/Reads/Flight.antt =====
-- Serving from the cache, and the single flight of its revalidation.
use adaptive_gateway.Prelude.{
  ℕ, ◌≡◌, refl, ◌⊎◌, inl, inr, true, false, Option, none, some, List, arith, Bool-cases,
  if◌then◌else◌,
}
use adaptive_gateway.Prelude.Texts.{Text, str}
use adaptive_gateway.Prelude.Floats.{Float}
use adaptive_gateway.Prelude.Results.{Result, ok}
use adaptive_gateway.Http.{Request}
use adaptive_gateway.Config.{RouteRule}
use adaptive_gateway.Redis.{Redis, answered}
use adaptive_gateway.Cache.{hit, stale, CachedResponse, Envelope, is_stale, body_of, cache_get}
use adaptive_gateway.Cache.Locks.{acquire_lock}
use adaptive_gateway.Proxy.{Caller, from_cache}
use adaptive_gateway.Proxy.Reads.{
  Moment, Limits, Served, is_cacheable, handle_get, answer_found, stale_read, lock_ttl,
  revalidate_lock, look_up, refresh_of, Refresh, cached,
}
use adaptive_gateway.Proxy.Reads.Isolation.{get_found}

module _ (fl : Float) (env : Envelope fl.F) (r : Redis) (limits : Limits fl.F) where
  open fl use {F}

  module _ (caller : Caller) (request : Request) (rule : RouteRule F) (key : Text) where
    abbrev get : Moment F → r.S → Result (Served fl env r limits) × r.S
    get = handle_get fl env r limits caller request rule key

    abbrev cached_in :
        Moment F
        → Text
        → Option (Refresh fl env r limits)
        → CachedResponse F
        → List ℕ
        → Served fl env r limits
    cached_in = cached fl env r limits caller request rule key

    abbrev lock_call : Moment F → r.S → Option Text × r.S
    lock_call m s =
        acquire_lock r m.lock_reply m.second m.token (revalidate_lock fl env r limits key)
          (lock_ttl fl env r limits rule) s

    cached_look_up :
        (m : Moment F) (s : r.S) (raw : Text) (entry : CachedResponse F) (body : List ℕ)
        → is_cacheable fl env r limits caller request rule key ≡ true
        → m.read_reply ≡ answered
        → r.get m.second key s ≡ some raw
        → env.validate raw ≡ ok entry
        → body_of fl env entry ≡ ok body
        → look_up fl env r limits caller request rule key m s
          ≡ ok (if is_stale fl env m.now entry then stale else hit, some entry)
    unfolding cache_get
    cached_look_up m s raw entry body shared reply present valid decoded =
        rw (shared, reply, cache_get, present, valid, decoded) refl

    -- A GET that may use the cache, and finds an entry there, is answered with the entry's status
    -- and body without a call of the upstream, so also while the upstream is down. A fresh entry
    -- spawns nothing.
    pub cached_get_needs_no_upstream :
        (m : Moment F) (s : r.S) (raw : Text) (entry : CachedResponse F) (body : List ℕ)
        → is_cacheable fl env r limits caller request rule key ≡ true
        → m.read_reply ≡ answered
        → r.get m.second key s ≡ some raw
        → env.validate raw ≡ ok entry
        → body_of fl env entry ≡ ok body
        → (served : Served fl env r limits) × ((get m s).0 ≡ ok served)
          × (served.called_upstream ≡ false)
          × (served.response.status ≡ entry.status)
          × (served.response.body ≡ body)
          × (is_stale fl env m.now entry ≡ false → served.spawned ≡ none)
    unfolding from_cache answer_found stale_read
    cached_get_needs_no_upstream m s raw entry body shared reply present valid decoded =
        let found = cached_look_up m s raw entry body shared reply present valid decoded in
        elim (Bool-cases (is_stale fl env m.now entry)) [
          | inr fresh ↦ (
            cached_in m (str "HIT") none entry body,
            rw
                (get_found fl env r limits caller request rule key m s (hit, some entry)
                  (rw fresh at found))
                (rw decoded refl),
            refl,
            refl,
            refl,
            λ _. refl,
          )
          | inl old ↦ (
            cached_in m (str "STALE")
                (refresh_of fl env r limits caller request rule key (lock_call m s).0) entry body,
            rw
                (get_found fl env r limits caller request rule key m s (stale, some entry)
                  (rw old at found))
                (rw decoded refl),
            refl,
            refl,
            refl,
            λ fresh. ground arith,
          )
        ]

    -- What a GET spawns: nothing, or the refresh for the token that its call of acquire_lock gave.
    abbrev IsSpawn : Moment F → r.S → Served fl env r limits → r.S → Type 0
    IsSpawn m s served s' =
        (served.spawned ≡ none)
        ⊎ (served.spawned ≡ refresh_of fl env r limits caller request rule key (lock_call m s).0)
          × (s' ≡ (lock_call m s).1)
