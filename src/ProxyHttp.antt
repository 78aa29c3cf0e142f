-- ===== src/ProxyHttp.antt =====
-- gateway/utils/proxy_http.py: the boundaries of forwarded HTTP. Headers are the items of a
-- dictionary of texts.
pub mod Target
pub mod Bounded
pub mod Discovery
pub mod Headers
mod Tests
use adaptive_gateway.Prelude.{
  ℕ, Bool, true, false, not, ◌||◌, Option, none, some, List, [], ◌∷◌, ◌++◌, map, default, select,
}
use adaptive_gateway.Prelude.Texts.{Text, str, among, lower, strip, split}
use adaptive_gateway.Prelude.Dicts.{Dict, lookup, insert}

-- HOP_BY_HOP
abbrev pub hop_by_hop : List Text
hop_by_hop =
    str "connection"
    ∷ str "keep-alive"
    ∷ str "proxy-authenticate"
    ∷ str "proxy-authorization"
    ∷ str "te"
    ∷ str "trailer"
    ∷ str "trailers"
    ∷ str "transfer-encoding"
    ∷ str "upgrade"
    ∷ str "host"
    ∷ str "content-length"
    ∷ []

-- REPRESENTATION_HEADERS of gateway/utils/proxy_http.py
abbrev pub representation_headers : List Text
representation_headers =
    str "etag"
    ∷ str "last-modified"
    ∷ str "content-md5"
    ∷ str "digest"
    ∷ str "content-digest"
    ∷ str "repr-digest"
    ∷ str "content-range"
    ∷ str "accept-ranges"
    ∷ []

-- {key: value for key, value in items}: a later item replaces the value of an earlier one
unfoldable pub updated : Dict Text → Dict Text → Dict Text
updated d [] = d
updated d ((k, v) ∷ items) = updated (insert k v d) items

-- The names in the Connection header. `headers.get` finds the first such header.
unfoldable pub nominated : Dict Text → List Text
nominated headers =
    map (λ part. lower (strip part)) (split b',' (default (lookup (str "connection") headers) []))

unfoldable pub is_dropped : Dict Text → Text → Bool
is_dropped headers key = among (lower key) (hop_by_hop ++ nominated headers)

unfoldable pub clean_headers : Dict Text → Dict Text
clean_headers headers = updated [] (select (λ item. not (is_dropped headers item.0)) headers)
