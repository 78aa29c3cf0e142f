-- ===== src/Config.antt =====
-- gateway/config.py: the rule of a route and the check of an upstream's URL, which the proxy, the
-- queue and the settings share. Config/Settings has the settings with their validator, and
-- Config/Rules the loading of gateway.yaml.
pub mod Settings
pub mod Rules
mod Tests
use adaptive_gateway.Prelude.{
  ℕ, Bool, true, false, not, ◌||◌, Option, List, [], ◌∷◌, default, is_some, if◌then◌else◌,
}
use adaptive_gateway.Prelude.Texts.{Text, str, among, contains_text}
use adaptive_gateway.Prelude.Dicts.{Dict, lookup}
use adaptive_gateway.Prelude.Results.{Result, ok, raise, value_error, ◌>>=◌}

pub record RouteRule (F : Type 0) : Type 0 where
  pub cacheable : Bool
  pub cache_ttl : ℕ
  pub optional_fields : List Text
  pub upstream_timeout : Option F
  pub queue_writes : Bool

-- What urllib's urlsplit finds in a URL. The port is read later, and may be refused then.
pub record Url : Type 0 where
  pub scheme : Text
  pub netloc : Text
  pub path : Text
  pub query : Text
  pub fragment : Text
  pub hostname : Option Text
  pub username : Option Text
  pub password : Option Text
  pub port : Result (Option ℕ)

abbrev pub is_empty : Text → Bool
is_empty [] = true
is_empty (_ ∷ _) = false

abbrev refused_url : Text → Url → Bool
refused_url base parsed =
    not (among parsed.scheme (str "http" ∷ str "https" ∷ []))
    || is_empty (default parsed.hostname [])
    || is_some parsed.username
    || is_some parsed.password
    || not (is_empty parsed.query)
    || not (is_empty parsed.fragment)
    || contains_text base (str "\\")

module _ (urlsplit : Text → Result Url) where
  unfoldable pub validate_upstream_url : Text → Result Text
  validate_upstream_url base = urlsplit base >>= λ parsed.
      if refused_url base parsed then raise value_error else parsed.port >>= λ _. ok base

-- ROUTE_RULES.get(service, ROUTE_RULES["_default"]), where the dictionary has the default
unfoldable pub get_route_rule : {F : Type 0} → Dict (RouteRule F) → RouteRule F → Text → RouteRule F
get_route_rule rules fallback service = default (lookup service rules) fallback
