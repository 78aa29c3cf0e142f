-- ===== src/Config/Settings.antt =====
-- gateway/config.py: the settings that `validate_boundaries` reads, and the validator. A field that
-- pydantic itself bounds from below by gt=0 is a ℕ; any other int may be negative.
pub mod Valid
pub mod Promises
use adaptive_gateway.Prelude.{
  ℕ, ◌<◌, Bool, true, false, not, ◌&&◌, ◌||◌, Option, none, some, List, [], ◌∷◌, map, any, length,
  ltb, leb, is_some, if◌then◌else◌,
}
use adaptive_gateway.Prelude.Texts.{Text, str, text_eq, among, lower, starts_with}
use adaptive_gateway.Prelude.Dicts.{Dict}
use adaptive_gateway.Prelude.Floats.{Float}
use adaptive_gateway.Prelude.Ints.{ℤ, pos, negsuc, leb_ℤ}
use adaptive_gateway.Prelude.Results.{Result, ok, raise, value_error, ◌>>=◌, refuse_if}
use adaptive_gateway.Config.{Url, is_empty, validate_upstream_url}

pub record Settings (F : Type 0) : Type 0 where
  pub environment : Text
  pub secret_key : Text
  pub database_url : Text
  pub rtt_good_threshold_ms : F
  pub rtt_degraded_threshold_ms : F
  pub rtt_hysteresis_ms : F
  pub rtt_transition_samples : ℤ
  pub rtt_ewma_alpha : F
  pub rtt_state_ttl_seconds : ℤ
  pub jwt_algorithm : Text
  pub access_token_ttl_minutes : ℤ
  pub refresh_token_ttl_days : ℤ
  pub bcrypt_rounds : ℤ
  pub cache_default_ttl : ℤ
  pub revalidate_lock_ttl_seconds : ℤ
  pub upstream_timeout_seconds : F
  pub upstream_services : Dict Text
  pub allow_unlisted_upstreams : Bool
  pub upstream_discovery_domains : List Text
  pub max_response_body_bytes : ℕ
  pub trusted_proxy_networks : List Text
  pub login_rate_limit : ℤ
  pub login_rate_window_seconds : ℤ
  pub global_rate_limit : ℤ
  pub global_rate_window_seconds : ℤ
  pub queue_max_retries : ℤ
  pub queue_backoff_schedule : List ℤ
  pub queue_sample_interval_seconds : ℤ
  pub queue_claim_idle_seconds : ℕ
  pub queue_max_age_seconds : ℕ
  pub allowed_origins : List Text

-- n <= 0
abbrev pub is_nonpositive : ℤ → Bool
is_nonpositive n = leb_ℤ n (pos 0)

abbrev pub is_negative : ℤ → Bool
is_negative (pos _) = false
is_negative (negsuc _) = true

-- The fields that the loop over names reads.
abbrev pub positive_fields : {F : Type 0} → Settings F → List ℤ
positive_fields s =
    s.rtt_transition_samples ∷ s.rtt_state_ttl_seconds ∷ s.access_token_ttl_minutes
    ∷ s.refresh_token_ttl_days ∷ s.cache_default_ttl ∷ s.revalidate_lock_ttl_seconds
    ∷ s.login_rate_limit ∷ s.login_rate_window_seconds ∷ s.global_rate_limit
    ∷ s.global_rate_window_seconds ∷ s.queue_sample_interval_seconds ∷ []

abbrev pub no_items : {A : Type 0} → List A → Bool
no_items [] = true
no_items (_ ∷ _) = false

unfoldable pub is_production : {F : Type 0} → Settings F → Bool
is_production s = among (lower s.environment) (str "production" ∷ str "prod" ∷ [])

abbrev pub weak_secret : Text → Bool
weak_secret key =
    ltb (length key) 32 || starts_with key (str "change-me") || starts_with key (str "your-secret")

abbrev pub weak_password : Option Text → Bool
weak_password none = true
weak_password (some password) =
    among password (str "gateway" ∷ str "postgres" ∷ str "password" ∷ [])

-- for item in items: check(item)
abbrev pub each : {A B : Type 0} → (A → Result B) → List A → Result (Unit {0})
each check [] = ok tt
each check (x ∷ xs) = check x >>= λ _. each check xs

abbrev pub in_order : List (Result (Unit {0})) → Result (Unit {0})
in_order = each (λ check. check)

-- ipaddress.ip_network and urlsplit, with their ValueError
module _ (fl : Float) (ip_network : Text → Result (Unit {0})) (urlsplit : Text → Result Url) where
  open fl use {F, lt, le, of_ℕ}

  abbrev pub refused_thresholds : Settings F → Bool
  refused_thresholds s = not (
      lt (of_ℕ 0) s.rtt_good_threshold_ms && lt s.rtt_good_threshold_ms s.rtt_degraded_threshold_ms)

  abbrev pub refused_hysteresis : Settings F → Bool
  refused_hysteresis s =
      not (le (of_ℕ 0) s.rtt_hysteresis_ms && lt s.rtt_hysteresis_ms s.rtt_good_threshold_ms)

  abbrev pub refused_alpha : Settings F → Bool
  refused_alpha s = not (lt (of_ℕ 0) s.rtt_ewma_alpha && le s.rtt_ewma_alpha (of_ℕ 1))

  abbrev pub refused_budget : Settings F → Bool
  refused_budget s = le s.upstream_timeout_seconds (of_ℕ 0) || is_negative s.queue_max_retries

  abbrev pub refused_backoff : Settings F → Bool
  refused_backoff s =
      no_items s.queue_backoff_schedule || any is_nonpositive s.queue_backoff_schedule

  abbrev pub refused_hashing : Settings F → Bool
  refused_hashing s =
      not (leb_ℤ (pos 4) s.bcrypt_rounds && leb_ℤ s.bcrypt_rounds (pos 16))
      || not (text_eq s.jwt_algorithm (str "HS256"))

  abbrev pub check_password : Settings F → Result (Unit {0})
  check_password s =
      urlsplit s.database_url >>= λ url. refuse_if (weak_password url.password) value_error

  -- What a production environment demands.
  abbrev pub production_checks : Settings F → List (Result (Unit {0}))
  production_checks s =
      refuse_if (weak_secret s.secret_key) value_error
      ∷ refuse_if (among (str "*") s.allowed_origins) value_error
      ∷ (if starts_with s.database_url (str "postgresql") then check_password s else ok tt)
      ∷ []

  unfoldable pub validate_production : Settings F → Result (Unit {0})
  validate_production s = in_order (production_checks s)

  -- The checks, in the order in which the first that fails raises.
  abbrev pub boundary_checks : Settings F → List (Result (Unit {0}))
  boundary_checks s =
      refuse_if (refused_thresholds s) value_error
      ∷ refuse_if (refused_hysteresis s) value_error
      ∷ refuse_if (refused_alpha s) value_error
      ∷ refuse_if (any is_nonpositive (positive_fields s)) value_error
      ∷ refuse_if (refused_budget s) value_error
      ∷ refuse_if (refused_backoff s) value_error
      ∷ refuse_if (le (of_ℕ s.queue_claim_idle_seconds) s.upstream_timeout_seconds) value_error
      ∷ refuse_if (refused_hashing s) value_error
      ∷ each ip_network s.trusted_proxy_networks
      ∷ each (λ item. validate_upstream_url urlsplit item.1) s.upstream_services
      ∷ refuse_if (s.allow_unlisted_upstreams && no_items s.upstream_discovery_domains) value_error
      ∷ (if is_production s then validate_production s else ok tt)
      ∷ []

  unfoldable pub validate_boundaries : Settings F → Result (Settings F)
  validate_boundaries s = in_order (boundary_checks s) >>= λ _. ok s
