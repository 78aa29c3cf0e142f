-- ===== src/ProxyHttp/Tests.antt =====
-- Forwarded headers, targets, responses and discovery at concrete values.
use adaptive_gateway.Prelude.{◌≡◌, refl, Bool, true, none, some, List, [], ◌∷◌, ◌++◌, All, any}
use adaptive_gateway.Prelude.Texts.{Text, str, lower, texts}
use adaptive_gateway.Prelude.Dicts.{Dict}
use adaptive_gateway.Prelude.Results.{Result, ok}
use adaptive_gateway.Config.{Url, validate_upstream_url}
use adaptive_gateway.ProxyHttp.Target.{
  build_target, quote, quote_bytes, quote_byte, utf8_bytes, utf8_char, is_safe, rstrip,
  is_traversal,
}
use adaptive_gateway.ProxyHttp.Discovery.{
  Discovery, discover_upstream, is_host_name, is_below, first_sorted, any_private, authority,
  lstrip_dots,
}
use adaptive_gateway.ProxyHttp.Discovery.Pinning.{discover_upstream-IsGlobal}

abbrev sent : Dict Text
sent =
    (str "connection", str "close, X-Secret")
    ∷ (str "x-secret", str "1")
    ∷ (str "accept", str "text/html")
    ∷ []

-- A parser that finds the parts of http://h.
abbrev pub parts : Text → Result Url
parts _ = ok (record {
  scheme = str "http";
  netloc = str "h";
  path = [];
  query = [];
  fragment = [];
  hostname = some (str "h");
  username = none;
  password = none;
  port = ok none;
})

-- Everything that a target computes with.
unfoldable pub target_parts : Unit {0}
unfolding build_target validate_upstream_url texts quote quote_bytes quote_byte utf8_bytes utf8_char
    is_safe rstrip is_traversal
target_parts = tt

abbrev below_example : Discovery
below_example = record {
  allow_unlisted_upstreams = true;
  upstream_discovery_domains = str ".Example.org" ∷ [];
}

abbrev resolve : Text → Result (List Text)
resolve host = ok (str "9.9.9.9" ∷ str "1.1.1.1" ∷ [])

abbrev is_global : Text → Result Bool
is_global ip = ok true

discovered :
    discover_upstream resolve is_global below_example (str "Api.example.org")
    ≡ ok (str "http://1.1.1.1", str "api.example.org")
unfolding discover_upstream is_host_name is_below first_sorted any_private lstrip_dots texts
discovered = refl

discover_upstream-IsGlobal_example :
    (true ≡ true)
    × (is_host_name (str "Api.example.org") ≡ true)
    × (str "api.example.org" ≡ lower (str "Api.example.org"))
    × (any (is_below (str "api.example.org")) (str ".Example.org" ∷ []) ≡ true)
    × (ips : List Text) × (resolve (str "api.example.org") ≡ ok ips)
    × All (λ ip. is_global ip ≡ ok true) ips
    × (address : Text) × (is_global address ≡ ok true)
    × (str "http://1.1.1.1" ≡ str "http://" ++ authority address)
discover_upstream-IsGlobal_example =
    discover_upstream-IsGlobal resolve is_global below_example (str "Api.example.org")
      (str "http://1.1.1.1") (str "api.example.org") discovered
