-- ===== src/ProxyHttp/Discovery.antt =====
-- gateway/utils/proxy_http.py: `discover_upstream`. The resolver and the test for global addresses
-- are arguments.
pub mod Pinning
use adaptive_gateway.Prelude.{
  ℕ, Bool, true, false, not, ◌&&◌, ◌||◌, List, [], ◌∷◌, ◌++◌, any, all, length, ltb, leb, ◌==◌,
  if◌then◌else◌,
}
use adaptive_gateway.Prelude.Texts.{Text, str, less, lower, ends_with, contains_text}
use adaptive_gateway.Prelude.Results.{Result, ok, raise, value_error, ◌>>=◌}

abbrev is_alphanumeric : ℕ → Bool
is_alphanumeric c =
    (leb b'A' c && leb c b'Z') || (leb b'a' c && leb c b'z') || (leb b'0' c && leb c b'9')

abbrev is_host_char : ℕ → Bool
is_host_char c = is_alphanumeric c || c == b'.' || c == b'-'

abbrev ends_alphanumeric : ℕ → Text → Bool
ends_alphanumeric c [] = is_alphanumeric c
ends_alphanumeric c (d ∷ s) = ends_alphanumeric d s

-- [A-Za-z0-9](?:[A-Za-z0-9.-]{0,251}[A-Za-z0-9])?
unfoldable pub is_host_name : Text → Bool
is_host_name [] = false
is_host_name (c ∷ s) =
    is_alphanumeric c && all is_host_char s && ends_alphanumeric c s && leb (length s) 252

-- domain.lstrip(".")
unfoldable pub lstrip_dots : Text → Text
lstrip_dots [] = []
lstrip_dots (c ∷ s) = let rest = lstrip_dots s in if c == b'.' then rest else c ∷ s

unfoldable pub is_below : Text → Text → Bool
is_below host domain = ends_with host (str "." ++ lstrip_dots (lower domain))

-- sorted(ips)[0]
unfoldable pub first_sorted : Text → List Text → Text
first_sorted ip [] = ip
first_sorted ip (other ∷ ips) =
    let later = first_sorted other ips in
    let kept = first_sorted ip ips in if less other ip then later else kept

abbrev pub authority : Text → Text
authority address =
    if contains_text address (str ":") then str "[" ++ (address ++ str "]") else address

pub record Discovery : Type 0 where
  pub allow_unlisted_upstreams : Bool
  pub upstream_discovery_domains : List Text

-- `resolve` is getaddrinfo of port 80 under its timeout, and `is_global` is what ip_address finds.
module _ (resolve : Text → Result (List Text)) (is_global : Text → Result Bool) where
  -- any(not ip_address(value).is_global for value in ips)
  unfoldable pub any_private : List Text → Result Bool
  any_private [] = ok false
  any_private (ip ∷ ips) =
      let later = any_private ips in is_global ip >>= λ global. if global then later else ok true

  abbrev pub pinned : Text → List Text → Result (Text × Text)
  pinned host [] = raise value_error
  pinned host (ip ∷ ips) = any_private (ip ∷ ips) >>= λ private.
      if private
      then raise value_error
      else ok (str "http://" ++ authority (first_sorted ip ips), host)

  unfoldable pub discover_upstream : Discovery → Text → Result (Text × Text)
  discover_upstream settings service =
      let host = lower service in
      let domains = settings.upstream_discovery_domains in
      if not (is_host_name service)
      then raise value_error
      else if not settings.allow_unlisted_upstreams || not (any (is_below host) domains)
      then raise value_error
      else resolve host >>= pinned host
