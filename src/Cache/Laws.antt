-- ===== src/Cache/Laws.antt =====
-- What a reader of the cache gets, over time and under faults.
use adaptive_gateway.Prelude.{
  ℕ, ◌≤◌, ◌+◌, ◌≡◌, refl, ◌⊎◌, inl, inr, true, none, some, List, arith, ltb, Bool-cases,
  Option-cases, if◌then◌else◌,
}
use adaptive_gateway.Prelude.Texts.{Text, text_eq_refl}
use adaptive_gateway.Prelude.Floats.{Float}
use adaptive_gateway.Prelude.Results.{Exc, ok, raise, Result-cases}
use adaptive_gateway.Redis.{Redis, RedisLaws, Reply, answered, lost_before, lost_after}
use adaptive_gateway.Cache.{
  hit, miss, stale, CachedResponse, Envelope, is_malformed, is_stale, body_of, cache_get, cache_set,
  physical_ttl,
}

module _ (fl : Float) (env : Envelope fl.F) (r : Redis) where
  open fl use {F}

  -- After an entry whose JSON form and body are read back is stored at the second t, a read of the
  -- same key in an unchanged store gives it until fresh_for + 86400 seconds have passed, as a HIT
  -- while its age is below fresh_for and as STALE from then on, and is a MISS afterwards.
  pub cache_get-cache_set :
      RedisLaws r
      → (t t' : ℕ) (now : F) (key : Text) (entry : CachedResponse F) (body : List ℕ) (s : r.S)
      → t ≤ t'
      → env.validate (env.dump entry) ≡ ok entry
      → body_of fl env entry ≡ ok body
      → cache_get fl env r answered t' now key (cache_set fl env r answered t key entry s)
        ≡ ok (
            if ltb t' (t + (entry.fresh_for + 86400))
            then (if is_stale fl env now entry then stale else hit, some entry)
            else (miss, none))
  unfolding cache_get cache_set
  cache_get-cache_set laws t t' now key entry body s later back decoded =
      elim (Bool-cases (ltb t' (t + (entry.fresh_for + 86400)))) [
        | inl e ↦ rw (seen, e, back, decoded)
        | inr e ↦ rw (seen, e)
      ]
    where
      lasting : physical_ttl fl env r entry ≡ entry.fresh_for + 86400
      lasting = omega arith

      seen :
          r.get t' key (r.set_ex t (physical_ttl fl env r entry) key (env.dump entry) s)
          ≡ (if ltb t' (t + (entry.fresh_for + 86400)) then some (env.dump entry) else none)
      seen = rw (lasting, laws.get-set_ex t t' _ key key (env.dump entry) s later, text_eq_refl key)

  -- Where the parsers raise only the exceptions that `cache_get` forgives, a read never raises,
  -- whatever the store holds and however Redis answers: it gives a MISS without an entry, a HIT
  -- with an entry younger than its fresh_for, or STALE with one that is not.
  pub cache_get_cases :
      ((raw : Text) (e : Exc) → env.validate raw ≡ raise e → is_malformed e ≡ true)
      → ((raw : Text) (e : Exc) → env.b64decode raw ≡ raise e → is_malformed e ≡ true)
      → (reply : Reply) (t : ℕ) (now : F) (key : Text) (s : r.S)
      → (cache_get fl env r reply t now key s ≡ ok (miss, none))
        ⊎ (entry : CachedResponse F) × (raw : Text) × (r.get t key s ≡ some raw)
          × (env.validate raw ≡ ok entry)
          × (cache_get fl env r reply t now key s
              ≡ ok (if is_stale fl env now entry then stale else hit, some entry))
  unfolding cache_get
  cache_get_cases parses decodes answered t now key s = elim (Option-cases (r.get t key s)) [
    | inl absent ↦ inl (rw (absent))
    | inr (raw, e) ↦ elim (Result-cases (env.validate raw)) [
      | inl (entry, valid) ↦ elim (Result-cases (env.b64decode entry.body_b64)) [
        | inl (body, decoded) ↦ inr (entry, raw, e, valid, rw (e, valid, decoded))
        | inr (exc, bad) ↦ inl (rw (e, valid, bad, decodes entry.body_b64 exc bad))
      ]
      | inr (exc, bad) ↦ inl (rw (e, bad, parses raw exc bad))
    ]
  ]
  cache_get_cases parses decodes lost_before t now key s = inl refl
  cache_get_cases parses decodes lost_after t now key s = inl refl
