-- ===== src/ProxyHttp/Bounded.antt =====
-- gateway/utils/proxy_http.py: `bounded_request`. An exchange is what the HTTP client does with one
-- request. The Content-Length that httpx adds to the result is left out: every reader drops it.
pub mod Limit
use adaptive_gateway.Prelude.{
  ℕ, ◌+◌, Bool, true, false, not, Option, none, some, List, [], ◌∷◌, ◌++◌, default, length, select,
  ltb, if◌then◌else◌,
}
use adaptive_gateway.Prelude.Texts.{Text, str, among, lower}
use adaptive_gateway.Prelude.Dicts.{Dict, lookup}
use adaptive_gateway.Config.{is_empty}
use adaptive_gateway.ProxyHttp.{clean_headers, updated, representation_headers}

-- httpx.TimeoutException, httpx.ConnectError, any other httpx.HTTPError, and BodyTooLarge.
pub data Failure : Type 0 where
  timed_out not_connected http_error body_too_large : Failure

-- The request fails, or a response comes: its status, headers, Set-Cookie lines, the chunks that
-- arrive, and what breaks the stream after them.
pub data Exchange : Type 0 where
  failed : Failure → Exchange
  streamed : ℕ → Dict Text → List Text → List (List ℕ) → Option Failure → Exchange

pub record Upstream : Type 0 where
  pub status : ℕ
  pub headers : Dict Text
  pub content : List ℕ
  pub set_cookie : List Text

pub data Fetched : Type 0 where
  fetched : Upstream → Fetched
  unfetched : Failure → Fetched

abbrev pub is_representation : Text → Bool
is_representation key = among (lower key) (representation_headers ++ str "content-encoding" ∷ [])

unfoldable pub decoded_headers : Dict Text → Dict Text
decoded_headers headers =
    let cleaned = clean_headers headers in
    if is_empty (default (lookup (str "content-encoding") headers) [])
    then cleaned
    else updated [] (select (λ item. not (is_representation item.0)) cleaned)

abbrev pub result : ℕ → Dict Text → List Text → List ℕ → Fetched
result status headers cookies content = fetched (record {
  status = status;
  headers = decoded_headers headers;
  content = content;
  set_cookie = cookies;
})

-- async for chunk in …, with the bytes read so far and what follows the loop
unfoldable pub read_chunks :
    ℕ → (List ℕ → Fetched) → List (List ℕ) → Option Failure → ℕ → List ℕ → Fetched
read_chunks limit finish [] none size read = finish read
read_chunks limit finish [] (some failure) size read = unfetched failure
read_chunks limit finish (chunk ∷ chunks) broken size read =
    let rest = read_chunks limit finish chunks broken (size + length chunk) (read ++ chunk) in
    if ltb limit (size + length chunk) then unfetched body_too_large else rest

-- `limit` is settings.max_response_body_bytes
unfoldable pub bounded_request : ℕ → Exchange → Fetched
bounded_request limit (failed failure) = unfetched failure
bounded_request limit (streamed status headers cookies chunks broken) =
    read_chunks limit (result status headers cookies) chunks broken 0 []
