-- ===== src/ProxyHttp/Target/Quoting.antt =====
-- The URL that `build_target` gives: its path is the client's, below the operator's prefix.
use adaptive_gateway.Prelude.{
  ℕ, ◌+◌, ◌*◌, ◌-◌, ◌<◌, ◌≡◌, Bool, false, ◌||◌, List, [], ◌∷◌, ◌++◌, All, ltb, ◌==◌, if◌then◌else◌,
}
use adaptive_gateway.Prelude.Texts.{Text, str}
use adaptive_gateway.Config.{is_empty}
use adaptive_gateway.ProxyHttp.Target.{is_safe}

-- What a server does with a percent-encoded path: the byte of a character, after a `%` the value of
-- the next two digits.
pub data Decoder : Type 0 where
  plain percent : Decoder
  high : ℕ → Decoder

abbrev hex_value : ℕ → ℕ
hex_value c = if ltb c b'A' then c - b'0' else c - b'A' + 10

abbrev pub unquote : Decoder → Text → List ℕ
unquote state [] = []
unquote plain (c ∷ s) =
    let after = unquote percent s in
    let rest = unquote plain s in if c == b'%' then after else c ∷ rest
unquote percent (c ∷ s) = unquote (high (hex_value c)) s
unquote (high h) (c ∷ s) = (h * 16 + hex_value c) ∷ unquote plain s

-- No character of a quoted path has a meaning in a URL.
abbrev is_plain : ℕ → Bool
is_plain c = is_safe c || c == b'%'

-- A code point of Unicode.
abbrev pub IsText : Text → Type 0
IsText s = All (λ c. c < 1114112) s

abbrev pub Lacks : ℕ → Text → Type 0
Lacks c s = All (λ d. (d == c) ≡ false) s

abbrev with_query : Text → Text → Text
with_query target query = if is_empty query then target else target ++ (str "?" ++ query)
