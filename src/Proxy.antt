-- ===== src/Proxy.antt =====
-- gateway/routes/proxy.py: the headers that are forwarded, what may be cached, and the responses.
-- Proxy/Reads has the cached GET, Proxy/Writes the other methods, Proxy/Route the entry point.
pub mod Reads
pub mod Writes
pub mod Route
pub mod Forwarding
mod Tests
use adaptive_gateway.Prelude.{
  ℕ, Bool, true, false, not, ◌&&◌, ◌||◌, Option, none, some, List, [], ◌∷◌, ◌++◌, any, default, map,
  length, ◌==◌, if◌then◌else◌, is_some,
}
use adaptive_gateway.Prelude.Texts.{Text, str, text_eq, less, lower, contains_text}
use adaptive_gateway.Prelude.Dicts.{Dict, lookup, has_key, insert, pop}
use adaptive_gateway.Prelude.Floats.{Float}
use adaptive_gateway.Http.{NetworkQuality, value, Request, Response, LogRecord}
use adaptive_gateway.ProxyHttp.{clean_headers}
use adaptive_gateway.ProxyHttp.Bounded.{Upstream}
use adaptive_gateway.Cache.{CachedResponse, build_cache_key}

-- What the outer middlewares and the server have put on the request, besides the request itself:
-- client_ip(request), request.state.network_quality and request.state.user_id.
pub record Caller : Type 0 where
  pub ip : Text
  pub network_quality : NetworkQuality
  pub user_id : Option Text

-- the names that the loop pops
abbrev pub overwritten : List Text
overwritten =
    str "x-forwarded-for"
    ∷ str "x-forwarded-host"
    ∷ str "x-forwarded-proto"
    ∷ str "forwarded"
    ∷ str "x-network-quality"
    ∷ []

abbrev pub without : List Text → Dict Text → Dict Text
without [] headers = headers
without (name ∷ names) headers = without names (pop name headers)

unfoldable pub forward_headers : Caller → Request → Dict Text
forward_headers caller request = insert (str "X-Network-Quality") (value caller.network_quality) (
    insert (str "accept-encoding") (str "identity") (
      insert (str "X-Forwarded-For") caller.ip
        (without overwritten (clean_headers request.headers))))

abbrev pub private_names : List Text
private_names =
    str "authorization"
    ∷ str "x-api-key"
    ∷ str "cookie"
    ∷ str "range"
    ∷ str "if-range"
    ∷ str "if-match"
    ∷ str "if-none-match"
    ∷ str "if-modified-since"
    ∷ str "if-unmodified-since"
    ∷ []

unfoldable pub cache_allowed : Request → Bool
cache_allowed request =
    let directives = lower (default (lookup (str "cache-control") request.headers) []) in
    not (any (λ name. has_key name request.headers) private_names)
    && not (any (contains_text directives) (str "no-cache" ∷ str "no-store" ∷ str "max-age=0" ∷ []))

unfoldable pub response_cacheable : Upstream → Bool
response_cacheable response =
    response.status == 200
    && not (has_key (str "set-cookie") response.headers)
    && not (has_key (str "cache-control") response.headers)
    && not (has_key (str "vary") response.headers)
    && not (has_key (str "expires") response.headers)

-- a <= b for pairs of texts
abbrev before : Text × Text → Text × Text → Bool
before (k, v) (j, w) = less k j || (text_eq k j && not (less w v))

abbrev put : Text × Text → Dict Text → Dict Text
put item [] = item ∷ []
put item (other ∷ items) =
    let rest = put item items in if before item other then item ∷ other ∷ items else other ∷ rest

-- sorted(items)
unfoldable pub sorted : Dict Text → Dict Text
sorted [] = []
sorted (item ∷ items) = put item (sorted items)

-- `dumps` is json.dumps of a list of pairs of texts
unfoldable pub cache_key : (Text → Text) → (Dict Text → Text) → Text → Dict Text → Text
cache_key sha256 dumps target headers =
    build_cache_key sha256 (str "GET") target []
      (dumps (sorted (map (λ item. (lower item.0, item.1)) headers)))

-- Starlette's Response keeps its header names in lower case. Its Content-Length is left out.
abbrev pub raw_headers : Dict Text → Dict Text
raw_headers headers = map (λ item. (lower item.0, item.1)) headers

abbrev pub cookie_lines : List Text → Dict Text
cookie_lines cookies = map (λ cookie. (str "set-cookie", cookie)) cookies

unfoldable pub from_upstream : Upstream → Text → Response
from_upstream upstream cache_status =
    let headers = pop (str "set-cookie") (clean_headers upstream.headers) in
    record {
      status = upstream.status;
      headers =
          raw_headers (insert (str "X-Cache-Status") cache_status headers)
          ++ cookie_lines upstream.set_cookie;
      body = upstream.content;
    }

-- A JSON body with its Content-Type; the bodies are the literals of the source.
abbrev pub json_response : ℕ → Text → Response
json_response status body = record {
  status = status;
  headers = (str "content-type", str "application/json") ∷ [];
  body = body;
}

module _ (fl : Float) where
  open fl use {F}

  -- media_type adds a Content-Type where the entry's headers have none
  abbrev pub with_media_type : Option Text → Dict Text → Dict Text
  with_media_type none headers = headers
  with_media_type (some media_type) headers =
      if has_key (str "content-type") headers
      then headers
      else headers ++ (str "content-type", media_type) ∷ []

  -- `body` is entry.body, and `age` the age in seconds when the response is built
  unfoldable pub from_cache : CachedResponse F → List ℕ → F → Text → Response
  from_cache entry body age cache_status =
      let headers =
        insert (str "X-Cache-Age") (fl.format0 age)
          (insert (str "X-Cache-Status") cache_status entry.headers) in
      record {
        status = entry.status;
        headers = with_media_type entry.media_type (raw_headers headers);
        body = body;
      }

  -- `elapsed` is the time since request_start, in milliseconds. The sizes after optimization and the
  -- upstream's latency are filled in later.
  unfoldable pub log_request : Caller → Request → F → Text → ℕ → ℕ → LogRecord F
  log_request caller request elapsed cache_status status_code size = record {
    method = request.method;
    path = request.path;
    network_quality = value caller.network_quality;
    cache_status = cache_status;
    status_code = status_code;
    rtt_ms = elapsed;
    upstream_latency_ms = none;
    response_size_original = size;
    response_size_optimized = none;
    client_id = default caller.user_id caller.ip;
  }
