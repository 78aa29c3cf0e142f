-- ===== src/RateLimit/Window.antt =====
-- How many requests a window lets through.
use adaptive_gateway.Prelude.{
  ℕ, suc, ◌+◌, ◌-◌, ◌≤◌, ◌<◌, ◌≡◌, Bool, true, none, some, List, [], ◌∷◌, arith, length, min,
}
use adaptive_gateway.Prelude.Texts.{Text}
use adaptive_gateway.Redis.{answered}
use adaptive_gateway.RateLimit.{
  Counters, CounterLaws, Verdict, verdict, count_hit, check_rate_limit,
}

module _ (c : Counters) (is_production : Bool) (key : Text) (limit window : ℕ) where
  abbrev tally : Verdict → ℕ
  tally (verdict true remaining) = 1
  tally _ = 0

  -- How many requests at the given times are allowed.
  abbrev pub allowed : List ℕ → c.S → ℕ
  allowed [] s = 0
  allowed (t ∷ ts) s =
      let (v, s') = check_rate_limit c is_production answered t key limit window s in
      tally v + allowed ts s'

  -- The times follow each other from `t` and come before `d`.
  abbrev pub IsWithin : ℕ → ℕ → List ℕ → Type 0
  IsWithin t d [] = Unit
  IsWithin t d (u ∷ us) = (t ≤ u) × (u < d) × IsWithin u d us

  -- From `t` until `d` the counter reads n.
  abbrev Reads : ℕ → ℕ → ℕ → c.S → Type 0
  Reads n t d s = (c.deadline key s ≡ some d) × ((u : ℕ) → t ≤ u → u < d → c.count u key s ≡ n)

  next_hit :
      CounterLaws c
      → (n t u d : ℕ) (s : c.S) → Reads (suc n) t d s
      → t ≤ u
      → u < d
      → (count_hit c is_production u window key s ≡ (suc (suc n), (c.incr u key s).1))
        × Reads (suc (suc n)) u d (c.incr u key s).1
  unfolding count_hit
  next_hit laws n t u d s (ends, reads) later before = (
    ground (arith, laws.incr-count u key s, reads u later before),
    (
      kept,
      λ v after early. ground (arith, laws.count-incr u v key s after, kept, reads u later before),
    ),
  )
    where
      kept : c.deadline key (c.incr u key s).1 ≡ some d
      kept = ground (arith, laws.deadline-incr u key s, ends, reads u later before)

  rest_allowed :
      CounterLaws c
      → (n t d : ℕ) (us : List ℕ) (s : c.S) → Reads (suc n) t d s
      → IsWithin t d us
      → allowed us s ≡ min (length us) (limit - suc n)
  unfolding check_rate_limit
  rest_allowed laws n t d [] s reads _ = omega arith
  rest_allowed laws n t d (u ∷ us) s reads (later, before, rest) =
      let (hit, next) = next_hit laws n t u d s reads later before in
      rw (hit, rest_allowed laws (suc n) u d us (c.incr u key s).1 next rest) (ground arith)

  first_hit :
      CounterLaws c
      → (t : ℕ) (s : c.S) → c.count t key s ≡ 0
      → ((count_hit c is_production t window key s).0 ≡ 1)
        × Reads 1 t (t + window) (count_hit c is_production t window key s).1
  unfolding count_hit
  first_hit laws t s empty = (
    one,
    (
      rw one (laws.deadline-expire t window key (c.incr t key s).1),
      λ u after early.
          rw one
            (ground (arith, laws.count-expire t u window key (c.incr t key s).1 after, now_one)),
    ),
  )
    where
      one : (c.incr t key s).0 ≡ 1
      one = ground (arith, laws.incr-count t key s)

      unbounded : c.deadline key (c.incr t key s).1 ≡ none
      unbounded = ground (arith, laws.deadline-incr t key s)

      now_one : c.count t key (c.incr t key s).1 ≡ 1
      now_one = ground (arith, laws.count-incr t t key s (omega arith), unbounded)

  -- Of the requests in a window, from the first one that finds no counter until the window's length
  -- has passed, exactly the first `limit` are allowed, as long as Redis answers.
  pub allowed_lem :
      CounterLaws c
      → (t : ℕ) (ts : List ℕ) (s : c.S) → c.count t key s ≡ 0
      → IsWithin t (t + window) ts
      → allowed (t ∷ ts) s ≡ min (length (t ∷ ts)) limit
  unfolding check_rate_limit
  allowed_lem laws t ts s empty within =
      let (hit, next) = first_hit laws t s empty in
      rw
        (
          hit,
          rest_allowed laws 0 t (t + window) ts (count_hit c is_production t window key s).1 next
              within,
        )
        (ground arith)
