-- ===== src/Cache/Locks/Exclusion.antt =====
-- Mutual exclusion of the locks, and that they become free again.
use adaptive_gateway.Prelude.{
  ℕ, ◌≤◌, ◌<◌, ◌+◌, ◌≡◌, ◌≢◌, inl, inr, Bool-cases, false, Option, none, some, List, [], ◌∷◌, All,
  refl, arith, ltb, if◌then◌else◌,
}
use adaptive_gateway.Prelude.Texts.{Text, text_eq, text_eq_refl}
use adaptive_gateway.Redis.{Redis, RedisLaws, Reply, answered, lost_before, lost_after}
use adaptive_gateway.Cache.Locks.{acquire_lock, release_lock, lock_key, delete_if_held}

-- A call of another client: Redis's answer, the second, and the client's token.
pub data Call : Type 0 where
  acquiring releasing : Reply → ℕ → Text → Call

-- It comes within the ttl of a lock that was taken at the second t, with a token of its own.
abbrev pub IsForeign : ℕ → ℕ → Text → Call → Type 0
IsForeign t ttl token (acquiring reply u other) =
    (t ≤ u) × (u < t + ttl) × (text_eq token other ≡ false)
IsForeign t ttl token (releasing reply u other) =
    (t ≤ u) × (u < t + ttl) × (text_eq token other ≡ false)

abbrev won : Option Text → List Text → List Text
won none tokens = tokens
won (some token) tokens = token ∷ tokens

module _ (r : Redis) where
  open r use {S}

  -- The tokens that the calls of acquire_lock return, and the store after all calls.
  abbrev pub calls : Text → ℕ → List Call → S → List Text × S
  calls name ttl [] s = ([], s)
  calls name ttl (acquiring reply u other ∷ cs) s =
      let (token, s') = acquire_lock r reply u other name ttl s in
      let (tokens, s'') = calls name ttl cs s' in (won token tokens, s'')
  calls name ttl (releasing reply u other ∷ cs) s =
      calls name ttl cs (release_lock r reply u name other s)

  -- The lock holds `token` at every second of its ttl.
  abbrev pub Holds : ℕ → ℕ → Text → Text → S → Type 0
  Holds t ttl name token s = (u : ℕ) → t ≤ u → u < t + ttl → r.get u (lock_key name) s ≡ some token

  acquire_lock-get :
      RedisLaws r
      → (t ttl u : ℕ) (token name : Text) (s s' : S) → t ≤ u
      → acquire_lock r answered t token name ttl s ≡ (some token, s')
      → r.get u (lock_key name) s' ≡ (if ltb u (t + ttl) then some token else none)
  unfolding acquire_lock
  acquire_lock-get laws t ttl u token name s s' later h = ground (
    arith,
    laws.set_nx_lem t ttl (lock_key name) token s,
    laws.get-set_ex t u ttl (lock_key name) (lock_key name) token s later,
    text_eq_refl (lock_key name),
  )

  pub acquire_lock-Holds :
      RedisLaws r
      → (t ttl : ℕ) (token name : Text) (s s' : S)
      → acquire_lock r answered t token name ttl s ≡ (some token, s')
      → Holds t ttl name token s'
  acquire_lock-Holds laws t ttl token name s s' h u later before =
      ground (arith, acquire_lock-get laws t ttl u token name s s' later h)

  -- A call that gives a token gives its own.
  own_token :
      (t ttl : ℕ) (token name : Text) (s : S)
      → (acquire_lock r answered t token name ttl s).0 ≢ none
      → acquire_lock r answered t token name ttl s
        ≡ (some token, (acquire_lock r answered t token name ttl s).1)
  unfolding acquire_lock
  own_token t ttl token name s won = elim (Bool-cases (r.set_nx t ttl (lock_key name) token s).1) [
    | inl set ↦ rw set refl
    | inr kept ↦ absurd (won (rw (acquire_lock, kept) refl))
  ]

  pub won_lock-Holds :
      RedisLaws r
      → (reply : Reply) (t ttl : ℕ) (token name : Text) (s : S) → reply ≡ answered
      → (acquire_lock r reply t token name ttl s).0 ≢ none
      → Holds t ttl name token (acquire_lock r reply t token name ttl s).1
  won_lock-Holds laws answered t ttl token name s _ won =
      acquire_lock-Holds laws t ttl token name s _ (own_token t ttl token name s won)
  won_lock-Holds laws lost_before t ttl token name s e won = cc e
  won_lock-Holds laws lost_after t ttl token name s e won = cc e

  free_acquire :
      RedisLaws r
      → (v ttl : ℕ) (other name : Text) (s : S) → r.get v (lock_key name) s ≡ none
      → (acquire_lock r answered v other name ttl s).0 ≡ some other
  unfolding acquire_lock
  free_acquire laws v ttl other name s free =
      rw (laws.set_nx_lem v ttl (lock_key name) other s, free)

  pub foreign_acquire :
      RedisLaws r
      → (t ttl ttl' u : ℕ) (token other name : Text) (reply : Reply) (s : S)
      → Holds t ttl name token s
      → t ≤ u
      → u < t + ttl
      → acquire_lock r reply u other name ttl' s ≡ (none, s)
  unfolding acquire_lock
  foreign_acquire laws t ttl ttl' u token other name answered s held later before =
      rw (laws.set_nx_lem u ttl' (lock_key name) other s, held u later before)
  foreign_acquire laws t ttl ttl' u token other name lost_before s held later before = refl
  foreign_acquire laws t ttl ttl' u token other name lost_after s held later before =
      rw (laws.set_nx_lem u ttl' (lock_key name) other s, held u later before)

  foreign_release :
      (t ttl u : ℕ) (token other name : Text) (reply : Reply) (s : S)
      → Holds t ttl name token s
      → t ≤ u
      → u < t + ttl
      → text_eq token other ≡ false
      → release_lock r reply u name other s ≡ s
  unfolding release_lock delete_if_held
  foreign_release t ttl u token other name answered s held later before apart =
      rw (held u later before, apart)
  foreign_release t ttl u token other name lost_before s held later before apart = refl
  foreign_release t ttl u token other name lost_after s held later before apart =
      rw (held u later before, apart)

  run_foreign :
      RedisLaws r
      → (t ttl ttl' : ℕ) (token name : Text) (s : S) → Holds t ttl name token s
      → (cs : List Call) → All (IsForeign t ttl token) cs
      → calls name ttl' cs s ≡ ([], s)
  run_foreign laws t ttl ttl' token name s held [] _ = refl
  run_foreign laws t ttl ttl' token name s held (acquiring reply u other ∷ cs)
        ((later, before, apart), rest) =
      rw (
        foreign_acquire laws t ttl ttl' u token other name reply s held later before,
        run_foreign laws t ttl ttl' token name s held cs rest,
      )
  run_foreign laws t ttl ttl' token name s held (releasing reply u other ∷ cs)
        ((later, before, apart), rest) =
      rw (
        foreign_release t ttl u token other name reply s held later before apart,
        run_foreign laws t ttl ttl' token name s held cs rest,
      )

  -- Once a client has acquired a lock, the calls that others make within its ttl, in any order and
  -- with any faults of Redis, acquire nothing and leave the store as it is: a lost or a late release
  -- with another token does not free the lock.
  pub acquired_lock_excludes :
      RedisLaws r
      → (t ttl ttl' : ℕ) (token name : Text) (s s' : S) (cs : List Call)
      → acquire_lock r answered t token name ttl s ≡ (some token, s')
      → All (IsForeign t ttl token) cs
      → calls name ttl' cs s' ≡ ([], s')
  acquired_lock_excludes laws t ttl ttl' token name s s' cs won foreign =
      run_foreign laws t ttl ttl' token name s' (acquire_lock-Holds laws t ttl token name s s' won)
        cs foreign

  -- A lock is free for the next client when its ttl has passed, and as soon as its holder has
  -- released it.
  pub lock_frees :
      RedisLaws r
      → (t u v ttl : ℕ) (token other name : Text) (s s' : S) → t ≤ u
      → u ≤ v
      → acquire_lock r answered t token name ttl s ≡ (some token, s')
      → (t + ttl ≤ v → (acquire_lock r answered v other name ttl s').0 ≡ some other)
        × (u < t + ttl
            → (acquire_lock r answered v other name ttl (release_lock r answered u name token s')).0
              ≡ some other)
  unfolding release_lock delete_if_held
  lock_frees laws t u v ttl token other name s s' t≤u u≤v won = (
    (λ late. free_acquire laws v ttl other name s' (
        ground
          (arith, acquire_lock-get laws t ttl v token name s s' (omega (arith, t≤u, u≤v)) won))),
    (λ early. free_acquire laws v ttl other name (release_lock r answered u name token s') (
        rw (
          acquire_lock-Holds laws t ttl token name s s' won u t≤u early,
          text_eq_refl token,
          laws.get-delete u v (lock_key name) (lock_key name) s' u≤v,
          text_eq_refl (lock_key name),
        ))),
  )
