-- ===== src/Config/Tests.antt =====
-- A file that is loaded, one that is refused, and valid settings.
use adaptive_gateway.Prelude.{◌≡◌, refl, true, false, none, some, [], ◌∷◌, ◌++◌}
use adaptive_gateway.Prelude.Texts.{Text, str, texts}
use adaptive_gateway.Prelude.Dicts.{Dict, lookup, insert}
use adaptive_gateway.Prelude.Floats.{Fixed, fin, fixed, fixed_order}
use adaptive_gateway.Prelude.Ints.{pos}
use adaptive_gateway.Prelude.Results.{Result, ok, raise, value_error}
use adaptive_gateway.Json.{Json, null}
use adaptive_gateway.Config.{RouteRule, Url, validate_upstream_url}
use adaptive_gateway.Config.Settings.{Settings, is_production, validate_boundaries}
use adaptive_gateway.Config.Settings.Promises.{Promises, validate_boundaries-Promises}
use adaptive_gateway.Config.Rules.{
  Node, text, other, mapping, end, entry, Source, Active, builtin_rules, plain_rule, update,
  section_of, add_upstreams, parse_entries, parse_rules, configured, load_route_rules, reload_all,
}
use adaptive_gateway.Config.Rules.Reload.{IsSound, reload_all-IsSound}
use adaptive_gateway.Queue.{Policy}

-- A host under http, whatever the text is.
abbrev urlsplit : Text → Result Url
urlsplit s = ok (record {
  scheme = str "http";
  netloc = s;
  path = [];
  query = [];
  fragment = [];
  hostname = some s;
  username = none;
  password = none;
  port = ok none;
})

abbrev rule : RouteRule Fixed
rule = record plain_rule { queue_writes = true }

abbrev model_validate : Node → Result (RouteRule Fixed)
model_validate (mapping _) = ok rule
model_validate _ = raise value_error

abbrev document : Node
document = mapping (
    entry (text (str "upstreams")) (mapping (entry (text (str "s")) (text (str "h")) end))
      (entry (text (str "rules")) (mapping (entry (text (str "s")) (mapping end) end)) end))

abbrev file : Node → Source
file node = record { path = some (str "g"); read_text = ok []; safe_load = λ _. ok node }

abbrev started : Active Fixed
started = record { rules = builtin_rules; upstreams = []; loaded = none }

abbrev loaded : Active Fixed
loaded = record {
  rules = builtin_rules ++ (str "s", rule) ∷ [];
  upstreams = (str "s", str "h") ∷ [];
  loaded = some (str "g");
}

loads_document :
    load_route_rules urlsplit model_validate [] (file document) started
    ≡ (ok (some (str "g")), loaded)
unfolding load_route_rules configured section_of add_upstreams parse_rules parse_entries update
    insert validate_upstream_url texts
loads_document = refl

refuses_text :
    (active : Active Fixed)
    → load_route_rules urlsplit model_validate [] (file (text (str "x"))) active
      ≡ (raise value_error, active)
unfolding load_route_rules configured
refuses_text active = refl

started-IsSound : IsSound urlsplit model_validate started
unfolding lookup texts
started-IsSound = record { has_default = (plain_rule, refl); upstreams = tt }

reload_all-IsSound_example :
    IsSound urlsplit model_validate
      (reload_all urlsplit model_validate [] (file document ∷ file other ∷ []) started)
reload_all-IsSound_example =
    reload_all-IsSound urlsplit model_validate [] tt (file document ∷ file other ∷ []) started
      started-IsSound

abbrev settings : Settings Fixed
settings = record {
  environment = str "test";
  secret_key = [];
  database_url = [];
  rtt_good_threshold_ms = fin 150000;
  rtt_degraded_threshold_ms = fin 500000;
  rtt_hysteresis_ms = fin 30000;
  rtt_transition_samples = pos 3;
  rtt_ewma_alpha = fin 300;
  rtt_state_ttl_seconds = pos 3600;
  jwt_algorithm = str "HS256";
  access_token_ttl_minutes = pos 15;
  refresh_token_ttl_days = pos 7;
  bcrypt_rounds = pos 12;
  cache_default_ttl = pos 60;
  revalidate_lock_ttl_seconds = pos 10;
  upstream_timeout_seconds = fin 10000;
  upstream_services = (str "s", str "h") ∷ [];
  allow_unlisted_upstreams = false;
  upstream_discovery_domains = [];
  max_response_body_bytes = 8388608;
  trusted_proxy_networks = [];
  login_rate_limit = pos 5;
  login_rate_window_seconds = pos 60;
  global_rate_limit = pos 1000;
  global_rate_window_seconds = pos 60;
  queue_max_retries = pos 4;
  queue_backoff_schedule = pos 5 ∷ pos 30 ∷ pos 120 ∷ pos 600 ∷ [];
  queue_sample_interval_seconds = pos 15;
  queue_claim_idle_seconds = 60;
  queue_max_age_seconds = 3600;
  allowed_origins = [];
}

abbrev ip_network : Text → Result (Unit {0})
ip_network _ = ok tt

passes : validate_boundaries fixed ip_network urlsplit settings ≡ ok settings
unfolding validate_boundaries is_production validate_upstream_url texts
passes = refl

-- A lease that a request may outlast.
short_lease :
    validate_boundaries fixed ip_network urlsplit
      (record settings { queue_claim_idle_seconds = 10 })
    ≡ raise value_error
unfolding validate_boundaries
short_lease = refl

abbrev loads : Text → Result (Json Fixed)
loads _ = ok null

abbrev sendable : Dict (Json Fixed) → Result (Unit {0})
sendable _ = ok tt

abbrev policy : Policy Fixed
policy = record {
  services = [];
  rules = [];
  default_rule = rule;
  max_request_body_bytes = 10;
  queue_max_depth = 3;
}

validate_boundaries-Promises_example :
    (settings ≡ settings)
    × Promises fixed fixed_order ip_network urlsplit loads sendable policy settings
validate_boundaries-Promises_example =
    validate_boundaries-Promises fixed fixed_order ip_network urlsplit loads sendable policy
      settings settings refl refl refl passes
