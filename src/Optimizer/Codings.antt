-- ===== src/Optimizer/Codings.antt =====
-- Which content codings and media types the headers name.
use adaptive_gateway.Prelude.{
  Bool, true, false, ◌&&◌, ◌||◌, none, some, List, [], ◌∷◌, default, if◌then◌else◌,
}
use adaptive_gateway.Prelude.Texts.{Text, str, text_eq, lower, strip, split, partition, ends_with}
use adaptive_gateway.Prelude.Dicts.{Dict, lookup, insert}
use adaptive_gateway.Prelude.Floats.{Float}

-- name, *parameters = parts
abbrev pub head_of : List Text → Text
head_of [] = []
head_of (p ∷ ps) = p

abbrev pub rest_of : List Text → List Text
rest_of [] = []
rest_of (p ∷ ps) = ps

-- ctype.split(";", 1)[0].strip().lower() is JSON's media type, or has its suffix.
unfoldable pub is_json : Dict Text → Bool
is_json headers =
    let ctype = default (lookup (str "content-type") headers) [] in
    let media_type = lower (strip (partition b';' ctype).0) in
    text_eq media_type (str "application/json") || ends_with media_type (str "+json")

module _ (fl : Float) where
  open fl use {F, lt, le, of_ℕ, parse}

  -- One parameter of a coding: `q` replaces the quality, and a bad number is 0.
  abbrev quality_after : Text × Text → F → F
  quality_after (key, raw) quality =
      if text_eq key (str "q") then elim (parse raw) [ none ↦ of_ℕ 0 | some q ↦ q ] else quality

  unfoldable pub quality_of : List Text → F → F
  quality_of [] quality = quality
  quality_of (p ∷ ps) quality = quality_of ps (quality_after (partition b'=' (strip p)) quality)

  -- 0 < quality <= 1
  abbrev permits : F → Bool
  permits quality = lt (of_ℕ 0) quality && le quality (of_ℕ 1)

  unfoldable pub codings_from : List Text → Dict Bool → Dict Bool
  codings_from [] codings = codings
  codings_from (part ∷ parts) codings =
      let pieces = split b';' (strip part) in
      codings_from parts
        (insert (head_of pieces) (permits (quality_of (rest_of pieces) (of_ℕ 1))) codings)

  unfoldable pub accepted_codings : Text → Dict Bool
  accepted_codings value = codings_from (split b',' (lower value)) []

  -- codings.get("gzip", codings.get("*", False))
  unfoldable pub accepts_gzip : Text → Bool
  accepts_gzip value =
      let codings = accepted_codings value in
      default (lookup (str "gzip") codings) (default (lookup (str "*") codings) false)

  unfoldable pub accepts_identity : Text → Bool
  accepts_identity value =
      let codings = accepted_codings value in
      default (lookup (str "identity") codings) (default (lookup (str "*") codings) true)
