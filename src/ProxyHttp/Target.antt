-- ===== src/ProxyHttp/Target.antt =====
-- gateway/utils/proxy_http.py: `build_target` and `destination_service`.
pub mod Quoting
use adaptive_gateway.Prelude.{
  ℕ, ◌+◌, ◌-◌, ◌/◌, ◌%◌, Bool, true, false, ◌&&◌, ◌||◌, Option, none, some, List, [], ◌∷◌, ◌++◌,
  any, ltb, leb, ◌==◌, if◌then◌else◌, default,
}
use adaptive_gateway.Prelude.Texts.{Text, str, text_eq, among, contains_text, split, starts_with}
use adaptive_gateway.Prelude.Dicts.{Dict}
use adaptive_gateway.Prelude.Results.{Result, ok, raise, value_error, unicode_error, ◌>>=◌}
use adaptive_gateway.Config.{Url, is_empty, validate_upstream_url}

-- s.rstrip(c)
unfoldable pub rstrip : ℕ → Text → Text
rstrip c [] = []
rstrip c (x ∷ s) = let rest = rstrip c s in if x == c && is_empty rest then [] else x ∷ rest

-- c.encode("utf-8") of a code point that is no surrogate
unfoldable pub utf8_char : ℕ → List ℕ
utf8_char c =
    if ltb c 128
    then c ∷ []
    else if ltb c 2048
    then (192 + c / 64) ∷ (128 + c % 64) ∷ []
    else if ltb c 65536
    then (224 + c / 4096) ∷ (128 + c / 64 % 64) ∷ (128 + c % 64) ∷ []
    else (240 + c / 262144) ∷ (128 + c / 4096 % 64) ∷ (128 + c / 64 % 64) ∷ (128 + c % 64) ∷ []

abbrev pub is_surrogate : ℕ → Bool
is_surrogate c = leb 55296 c && leb c 57343

unfoldable pub utf8_bytes : Text → List ℕ
utf8_bytes [] = []
utf8_bytes (c ∷ s) = utf8_char c ++ utf8_bytes s

abbrev pub utf8 : Text → Result (List ℕ)
utf8 s = if any is_surrogate s then raise unicode_error else ok (utf8_bytes s)

abbrev pub hex_digit : ℕ → ℕ
hex_digit n = if ltb n 10 then b'0' + n else b'A' + n - 10

-- Letters, digits and `_.-~`, which quote never encodes, and safe="/-._~:@!$&'()*+,;="
unfoldable pub is_safe : ℕ → Bool
is_safe c =
    (leb b'A' c && leb c b'Z')
    || (leb b'a' c && leb c b'z')
    || (leb b'0' c && leb c b'9')
    || any (λ d. c == d) (str "_.-~" ++ str "/-._~:@!$&'()*+,;=")

unfoldable pub quote_byte : ℕ → Text
quote_byte b = if is_safe b then b ∷ [] else b'%' ∷ hex_digit (b / 16) ∷ hex_digit (b % 16) ∷ []

unfoldable pub quote_bytes : List ℕ → Text
quote_bytes [] = []
quote_bytes (b ∷ bs) = quote_byte b ++ quote_bytes bs

-- quote(path, safe=…)
unfoldable pub quote : Text → Result Text
quote path = utf8 path >>= λ bytes. ok (quote_bytes bytes)

unfoldable pub is_traversal : Text → Bool
is_traversal path =
    contains_text path (str "\\")
    || any (λ part. among part (str "." ∷ str ".." ∷ [])) (split b'/' path)

module _ (urlsplit : Text → Result Url) where
  unfoldable pub build_target : Text → Text → Text → Result Text
  build_target base path query = validate_upstream_url urlsplit base >>= λ _.
      if is_traversal path
      then raise value_error
      else quote path >>= λ quoted.
          let target = rstrip b'/' base ++ (str "/" ++ quoted) in
          ok (if is_empty query then target else target ++ (str "?" ++ query))

  abbrev serves : Url → Url → Bool
  serves parsed approved =
      text_eq parsed.scheme approved.scheme
      && text_eq parsed.netloc approved.netloc
      && starts_with parsed.path (rstrip b'/' approved.path ++ str "/")

  abbrev first_service : Url → Dict Text → Result (Option Text)
  first_service parsed [] = ok none
  first_service parsed ((service, base) ∷ rest) =
      let later = first_service parsed rest in
      urlsplit base >>= λ approved. if serves parsed approved then ok (some service) else later

  unfoldable pub destination_service : Dict Text → Text → Result (Option Text)
  destination_service services url = urlsplit url >>= λ parsed. first_service parsed services
