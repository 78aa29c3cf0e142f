-- ===== src/Http.antt =====
-- Requests and responses as the middleware and the routes see them. Header names are in lower case,
-- as Starlette's `Headers` holds them; a name may occur twice.
use adaptive_gateway.Prelude.{ℕ, Option, List}
use adaptive_gateway.Prelude.Texts.{Text, str}
use adaptive_gateway.Prelude.Dicts.{Dict}

pub data NetworkQuality : Type 0 where
  good degraded poor unknown : NetworkQuality

pub record Request : Type 0 where
  pub method : Text
  pub path : Text
  pub query : Text
  pub headers : Dict Text
  -- the address of the socket's peer
  pub peer : Option Text

pub record Response : Type 0 where
  pub status : ℕ
  pub headers : Dict Text
  -- bytes
  pub body : List ℕ

-- A research log row. `F` is the type of the floating-point numbers.
pub record LogRecord (F : Type 0) : Type 0 where
  pub method : Text
  pub path : Text
  pub network_quality : Text
  pub cache_status : Text
  pub status_code : ℕ
  pub rtt_ms : F
  pub upstream_latency_ms : Option F
  pub response_size_original : ℕ
  pub response_size_optimized : Option ℕ
  pub client_id : Text

-- quality.value
abbrev pub value : NetworkQuality → Text
value good = str "GOOD"
value degraded = str "DEGRADED"
value poor = str "POOR"
value unknown = str "UNKNOWN"
