-- ===== src/Detector/State.antt =====
-- The passive state's representation in Redis: `_decode_state`, and the JSON that is written.
use adaptive_gateway.Prelude.{suc, true, false, Option, none, some, default, if◌then◌else◌}
use adaptive_gateway.Prelude.Texts.{Text, str, text_eq}
use adaptive_gateway.Prelude.Dicts.{Dict, lookup}
use adaptive_gateway.Prelude.Floats.{Float}
use adaptive_gateway.Prelude.Ints.{ℤ, pos, negsuc}
use adaptive_gateway.Prelude.Results.{
  value_error, type_error, overflow_error, redis_error, Result, ok, raise,
}
use adaptive_gateway.Json.{Json, null, bool, int, real, text, obj, end, field, dict_of}
use adaptive_gateway.Rtt.{Tier, good, degraded, poor, RttState, fresh}
use adaptive_gateway.Detector.{is_empty, parse_float, accepted}

-- json.loads, with `none` for ValueError, and json.dumps
pub record Codec (F : Type 0) : Type 0 where
  pub loads : Text → Option (Json F)
  pub dumps : Json F → Text

abbrev pub tier_name : Tier → Text
tier_name good = str "GOOD"
tier_name degraded = str "DEGRADED"
tier_name poor = str "POOR"

-- The tier that a text names, if it names one.
unfoldable pub tier_named : Text → Option Tier
tier_named s =
    if text_eq s (str "GOOD")
    then some good
    else if text_eq s (str "DEGRADED")
    then some degraded
    else if text_eq s (str "POOR")
    then some poor
    else none

abbrev pub optional : {A F : Type 0} → (A → Json F) → Option A → Json F
optional f none = null
optional f (some a) = f a

module _ (fl : Float) where
  open fl use {F, is_finite, is_nan, sub, of_ℕ, parse, trunc, parse_int}

  -- tier in {"GOOD", "DEGRADED", "POOR"}; what is not a text is not in the set, or is unhashable
  abbrev pub tier_of : Json F → Option Tier
  tier_of (text s) = tier_named s
  tier_of _ = none

  -- pending in {None, "GOOD", "DEGRADED", "POOR"}
  abbrev pub pending_of : Json F → Option (Option Tier)
  pending_of null = some none
  pending_of v = elim (tier_of v) [ none ↦ none | some t ↦ some (some t) ]

  -- _parse_float(str(v)). The text of a number reads back as that number; those of True, of a list
  -- and of an object are no numbers.
  abbrev pub float_of : Json F → Option F
  float_of (int (pos n)) = accepted fl (of_ℕ n)
  float_of (int (negsuc n)) = accepted fl (sub (of_ℕ 0) (of_ℕ (suc n)))
  float_of (real x) = accepted fl x
  float_of (text s) = parse_float fl (some s)
  float_of _ = none

  -- ewma if it is not None
  abbrev pub ewma_of : Json F → Option (Option F)
  ewma_of null = some none
  ewma_of v = elim (float_of v) [ none ↦ none | some x ↦ some (some x) ]

  -- int(v)
  abbrev pub int_of : Json F → Result ℤ
  int_of (bool true) = ok (pos 1)
  int_of (bool false) = ok (pos 0)
  int_of (int n) = ok n
  int_of (real x) =
      if is_nan x
      then raise value_error
      else if is_finite x
      then ok (trunc x)
      else raise overflow_error
  int_of (text s) = elim (parse_int s) [ none ↦ raise value_error | some n ↦ ok n ]
  int_of _ = raise type_error

  -- except (ValueError, TypeError): RttState()
  abbrev pub or_fresh : Result (RttState fl) → Result (RttState fl)
  or_fresh (raise value_error) = ok (fresh fl)
  or_fresh (raise type_error) = ok (fresh fl)
  or_fresh r = r

  abbrev pub decoded :
      Option Tier → Option (Option Tier) → Option (Option F) → Result ℤ → Result (RttState fl)
  decoded none _ _ _ = ok (fresh fl)
  decoded (some _) none _ _ = ok (fresh fl)
  decoded (some _) (some _) none _ = ok (fresh fl)
  decoded (some _) (some _) (some _) (raise e) = raise e
  decoded (some tier) (some pending) (some ewma) (ok count) =
      ok (record { ewma = ewma; tier = tier; pending_tier = pending; pending_count = count })

  unfoldable pub decode_fields : Dict (Json F) → Result (RttState fl)
  unfolding tier_named
  decode_fields d =
      decoded (tier_of (default (lookup (str "tier") d) (text (str "GOOD"))))
        (pending_of (default (lookup (str "pending_tier") d) null))
        (ewma_of (default (lookup (str "ewma") d) null))
        (int_of (default (lookup (str "pending_count") d) (int (pos 0))))

  abbrev pub decode_json : Option (Json F) → Result (RttState fl)
  decode_json (some (obj fs)) = or_fresh (decode_fields (dict_of fs))
  decode_json _ = ok (fresh fl)

  module _ (codec : Codec F) where
    open codec use {loads, dumps}

    unfoldable pub decode_state : Option Text → Result (RttState fl)
    unfolding decode_fields
    decode_state none = ok (fresh fl)
    decode_state (some raw) = if is_empty raw then ok (fresh fl) else decode_json (loads raw)

    -- `except RedisError` around the read: a reply is the value, or the exception.
    unfoldable pub load_state : Result (Option Text) → Result (RttState fl)
    load_state (ok raw) = decode_state raw
    load_state (raise redis_error) = ok (fresh fl)
    load_state (raise e) = raise e

  -- asdict(state)
  unfoldable pub encode_state : RttState fl → Json F
  encode_state s = obj (
      field (str "ewma") (optional real s.ewma) (
        field (str "tier") (text (tier_name s.tier)) (
          field (str "pending_tier") (optional (λ t. text (tier_name t)) s.pending_tier)
            (field (str "pending_count") (int s.pending_count) end))))
