-- ===== src/RateLimit.antt =====
-- gateway/middleware/rate_limit.py: the fixed-window counters in Redis, and the middleware. Counters
-- are the commands INCR and EXPIRE on the keys of the limiter.
mod Window
mod Tests
use adaptive_gateway.Prelude.{
  ℕ, ◌+◌, ◌-◌, ◌≤◌, ◌≡◌, Bool, true, false, Option, none, some, List, [], ◌∷◌, ◌++◌, any, leb, ltb,
  ◌==◌, if◌then◌else◌,
}
use adaptive_gateway.Prelude.Texts.{Text, str, starts_with, decimal}
use adaptive_gateway.Prelude.Dicts.{Dict, insert}
use adaptive_gateway.Http.{Request, Response}
use adaptive_gateway.Proxy.{json_response}
use adaptive_gateway.Redis.{Reply, answered, lost_before, lost_after, effect}

pub record Counters : Type 1 where
  pub S : Type 0
  -- GET k as a number, 0 where there is no key, and EXPIRETIME k
  pub count : ℕ → Text → S → ℕ
  pub deadline : Text → S → Option ℕ
  -- INCR k, EXPIRE k window
  pub incr : ℕ → Text → S → ℕ × S
  pub expire : ℕ → ℕ → Text → S → S

abbrev pub lapsed : ℕ → Option ℕ → Bool
lapsed t none = false
lapsed t (some d) = leb d t

-- INCR keeps the deadline of a key that is there and makes a new key without one; EXPIRE sets it.
pub record CounterLaws (c : Counters) : Type 0 where
  pub incr-count : (t : ℕ) (k : Text) (s : c.S) → (c.incr t k s).0 ≡ c.count t k s + 1
  pub deadline-incr :
      (t : ℕ) (k : Text) (s : c.S)
      → c.deadline k (c.incr t k s).1 ≡ (if c.count t k s == 0 then none else c.deadline k s)
  pub count-incr :
      (t t' : ℕ) (k : Text) (s : c.S)
      → t ≤ t'
      → c.count t' k (c.incr t k s).1
        ≡ (if lapsed t' (c.deadline k (c.incr t k s).1) then 0 else c.count t k s + 1)
  pub deadline-expire :
      (t window : ℕ) (k : Text) (s : c.S) → c.deadline k (c.expire t window k s) ≡ some (t + window)
  pub count-expire :
      (t t' window : ℕ) (k : Text) (s : c.S)
      → t ≤ t'
      → c.count t' k (c.expire t window k s) ≡ (if ltb t' (t + window) then c.count t k s else 0)

-- What check_rate_limit returns, or the status of the HTTPException that it raises.
pub data Verdict : Type 0 where
  verdict : Bool → ℕ → Verdict
  unavailable : Verdict

module _ (c : Counters) (is_production : Bool) where
  unfoldable pub count_hit : ℕ → ℕ → Text → c.S → ℕ × c.S
  count_hit t window key s =
      let (n, s') = c.incr t key s in (n, if n == 1 then c.expire t window key s' else s')

  abbrev judged : Reply → ℕ → ℕ → Verdict
  judged answered limit n = verdict (leb n limit) (limit - n)
  judged _ limit n = if is_production then unavailable else verdict true limit

  unfoldable pub check_rate_limit : Reply → ℕ → Text → ℕ → ℕ → c.S → Verdict × c.S
  check_rate_limit reply t key limit window s =
      let (n, s') = count_hit t window key s in (judged reply limit n, effect reply s s')

  -- The status that enforce_rate_limit raises, if it does.
  abbrev raised : Verdict → Option (ℕ × Text)
  raised (verdict true remaining) = none
  raised (verdict false remaining) = some (429, str "rate limit exceeded")
  raised unavailable = some (503, str "rate limiter unavailable")

  unfoldable pub enforce_rate_limit :
      Reply → ℕ → Text → Text → ℕ → ℕ → c.S → Option (ℕ × Text) × c.S
  enforce_rate_limit reply t scope ip limit window s =
      let (v, s') =
        check_rate_limit reply t (str "ratelimit:" ++ (scope ++ (str ":" ++ ip))) limit window s in
      (raised v, s')

  abbrev pub skip_prefixes : List Text
  skip_prefixes =
      str "/health" ∷ str "/metrics" ∷ str "/docs" ∷ str "/redoc" ∷ str "/openapi.json" ∷ []

  abbrev pub with_limits : ℕ → ℕ → Response → Response
  with_limits limit remaining response = record response {
    headers =
        insert (str "x-ratelimit-remaining") (decimal remaining)
          (insert (str "x-ratelimit-limit") (decimal limit) response.headers);
  }

  abbrev pub too_many : ℕ → Response
  too_many window = record {
    status = 429;
    headers =
        (str "retry-after", decimal window) ∷ (str "content-type", str "application/json") ∷ [];
    body = str "{\"detail\":\"rate limit exceeded\"}";
  }

  abbrev pub no_limiter : Response
  no_limiter = json_response 503 (str "{\"detail\":\"rate limiter unavailable\"}")

  abbrev pub answered_with : Verdict → ℕ → ℕ → Response → Response
  answered_with unavailable limit window inner = no_limiter
  answered_with (verdict false remaining) limit window inner = too_many window
  answered_with (verdict true remaining) limit window inner = with_limits limit remaining inner

  -- `inner` is what call_next returns, which is only called when the request is allowed.
  unfoldable pub dispatch : Reply → ℕ → Text → ℕ → ℕ → Request → Response → c.S → Response × c.S
  dispatch reply t ip limit window request inner s =
      let (v, s') = check_rate_limit reply t (str "ratelimit:global:" ++ ip) limit window s in
      if any (starts_with request.path) skip_prefixes
      then (inner, s)
      else (answered_with v limit window inner, s')
