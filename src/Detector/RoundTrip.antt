-- ===== src/Detector/RoundTrip.antt =====
-- What one worker writes of the passive state, every worker reads back.
use adaptive_gateway.Prelude.{◌≡◌, refl, false, Option, none, some}
use adaptive_gateway.Prelude.Texts.{text_eq}
use adaptive_gateway.Prelude.Dicts.{lookup}
use adaptive_gateway.Prelude.Floats.{Float}
use adaptive_gateway.Prelude.Results.{ok}
use adaptive_gateway.Json.{real, text}
use adaptive_gateway.Rtt.{Tier, good, degraded, poor, RttState}
use adaptive_gateway.Detector.{accepted, is_empty}
use adaptive_gateway.Detector.State.{
  Codec, tier_name, tier_named, pending_of, ewma_of, optional, decode_json, decode_fields,
  decode_state, encode_state,
}

tier_named-tier_name : (t : Tier) → tier_named (tier_name t) ≡ some t
unfolding tier_named text_eq
tier_named-tier_name good = refl
tier_named-tier_name degraded = refl
tier_named-tier_name poor = refl

module _ (fl : Float) (codec : Codec fl.F) where
  -- The estimate is none, or a finite nonnegative number.
  abbrev pub HasSoundEwma : RttState fl → Type 0
  HasSoundEwma s = (x : fl.F) → s.ewma ≡ some x → accepted fl x ≡ some x

  tier_of-tier_name :
      (p : Option Tier) → pending_of fl (optional (λ t. text (tier_name t)) p) ≡ some p
  tier_of-tier_name none = refl
  tier_of-tier_name (some t) = rw (tier_named-tier_name t, pending_of)

  ewma_of-real :
      (e : Option fl.F)
      → ((x : fl.F) → e ≡ some x → accepted fl x ≡ some x)
      → ewma_of fl (optional real e) ≡ some e
  ewma_of-real none h = refl
  ewma_of-real (some x) h = rw (h x refl, ewma_of)

  decode_fields-encode_state :
      (s : RttState fl) → HasSoundEwma s → decode_json fl (some (encode_state fl s)) ≡ ok s
  unfolding encode_state decode_fields lookup text_eq
  decode_fields-encode_state s h =
      rw (tier_named-tier_name s.tier, tier_of-tier_name s.pending_tier, ewma_of-real s.ewma h)

  -- A state with a sound estimate is decoded as itself, if JSON reads back what it wrote, and what
  -- it wrote is not the empty text.
  pub decode_state-encode_state :
      (s : RttState fl)
      → HasSoundEwma s
      → codec.loads (codec.dumps (encode_state fl s)) ≡ some (encode_state fl s)
      → is_empty (codec.dumps (encode_state fl s)) ≡ false
      → decode_state fl codec (some (codec.dumps (encode_state fl s))) ≡ ok s
  unfolding decode_state
  decode_state-encode_state s h law nonempty =
      rw (nonempty, law, decode_state) (decode_fields-encode_state s h)
