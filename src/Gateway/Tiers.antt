-- ===== src/Gateway/Tiers.antt =====
-- gateway/main.py: the tier that a client is told, through all the middleware.
use adaptive_gateway.Prelude.{ℕ, Bool, Option, List, ◌++◌}
use adaptive_gateway.Prelude.Texts.{Text, str}
use adaptive_gateway.Prelude.Dicts.{Dict}
use adaptive_gateway.Prelude.Floats.{Float}
use adaptive_gateway.Prelude.Results.{Result}
use adaptive_gateway.Http.{NetworkQuality, Request, Response}
use adaptive_gateway.Rtt.{Thresholds}
use adaptive_gateway.Auth.Middleware.{State, Claims, Accounts}
use adaptive_gateway.RateLimit.{Counters, Verdict, check_rate_limit}
use adaptive_gateway.Detector.State.{Codec}
use adaptive_gateway.Detector.Dispatch.{Inner}
use adaptive_gateway.Optimizer.Modes.{Policy}
use adaptive_gateway.BodyLimit as Body
use adaptive_gateway.Gateway.{Handled, Surroundings, Limits, authenticated, detected, limited}

module _ (fl : Float) (codec : Codec fl.F) (compress : List ℕ → List ℕ)
    (jwt_decode : Text → Option Claims) (uuid : Text → Option Text) (hash_token : Text → Text)
    (accounts : Option Accounts) (c : Counters) (is_production : Bool) (t : Thresholds fl)
    (policy : Policy) (limits : Limits) where
  open fl use {F}

  -- what the detector guards, at a tier
  abbrev pub guarded_by :
      Surroundings F → Request → (State → NetworkQuality → Handled F) → NetworkQuality → Inner F
  guarded_by around req route quality =
      authenticated fl codec compress jwt_decode uuid hash_token accounts c is_production t policy
        limits req around.elapsed_ms route quality

  abbrev pub inside :
      Surroundings F → Request → (State → NetworkQuality → Handled F) → NetworkQuality → Response
  inside around req route quality = (guarded_by around req route quality).response

  abbrev answer_inside :
      Surroundings F
      → Text
      → Request
      → (State → NetworkQuality → Handled F)
      → Dict Text
      → Result Response × Dict Text
  answer_inside =
      detected fl codec compress jwt_decode uuid hash_token accounts c is_production t policy limits

  abbrev verdict_of : Surroundings F → Text → c.S → Verdict
  verdict_of around ip counters =
      (check_rate_limit c is_production around.limiter_reply around.now
        (str "ratelimit:global:" ++ ip) limits.global_rate_limit limits.global_rate_window_seconds
        counters).0

  abbrev pub limited_by :
      Surroundings F
      → Text
      → Text
      → Request
      → (State → NetworkQuality → Handled F)
      → c.S
      → Dict Text
      → (Result Response × Dict Text) × c.S
  limited_by =
      limited fl codec compress jwt_decode uuid hash_token accounts c is_production t policy limits
