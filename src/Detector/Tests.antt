-- ===== src/Detector/Tests.antt =====
-- The detector at concrete requests, and the theorems at inputs that meet their hypotheses.
use adaptive_gateway.Prelude.{
  ◌<◌, ◌≤◌, ◌≡◌, refl, ◌⊎◌, false, none, some, [], ◌∷◌, arith, map, take, length,
}
use adaptive_gateway.Prelude.Texts.{Text, str, text_eq, lower, strip}
use adaptive_gateway.Prelude.Dicts.{Dict, lookup, insert}
use adaptive_gateway.Prelude.Floats.{Fixed, fin, inf, fixed, fixed_order}
use adaptive_gateway.Prelude.Ints.{pos}
use adaptive_gateway.Prelude.Results.{ok, raise, overflow_error}
use adaptive_gateway.Json.{Json, Fields, real, obj, field, end}
use adaptive_gateway.Http.{NetworkQuality, degraded, poor, Request}
use adaptive_gateway.Rtt.{Tier, RttState, Thresholds, fresh}
use adaptive_gateway.Detector.{classify_rtt, parse_float, later_signal, explicit_signal}
use adaptive_gateway.Detector.State.{Codec, decode_state, decode_fields, encode_state}
use adaptive_gateway.Detector.Update.{state_key, update_state, folded}
use adaptive_gateway.Detector.Update.Races.{overtaken, after_writes, update_state_races}
use adaptive_gateway.Detector.Dispatch.{Inner}
use adaptive_gateway.Detector.Signals.{InTier, signal_priority}
use adaptive_gateway.Detector.RoundTrip.{decode_state-encode_state}

abbrev defaults : Thresholds fixed
defaults = record {
  good_ms = fin 150_000;
  degraded_ms = fin 500_000;
  hysteresis_ms = fin 30_000;
  transition_samples = 3;
  alpha = fin 300;
}

abbrev request : Dict Text → Request
request headers = record {
  method = str "GET";
  path = str "/proxy/a/items";
  query = [];
  headers = headers;
  peer = none;
}

abbrev hinted : Request
hinted = request ((str "ect", str " 4G ") ∷ (str "x-client-rtt", str "600") ∷ [])

abbrev misled : Request
misled = request ((str "x-client-rtt", str "fast") ∷ (str "ect", str " Slow-2G ") ∷ [])

signals :
    (explicit_signal fixed hinted defaults ≡ ok (some (poor, some (fin 600_000))))
    × (explicit_signal fixed misled defaults ≡ ok (some (poor, none)))
    × (explicit_signal fixed (request ((str "save-data", str "ON") ∷ [])) defaults
        ≡ ok (some (degraded, none)))
    × (explicit_signal fixed (request []) defaults ≡ ok none)
unfolding explicit_signal later_signal classify_rtt parse_float lookup text_eq lower strip
signals = (refl, refl, refl, refl)

abbrev stored : RttState fixed
stored = record {
  ewma = some (fin 90_000);
  tier = Tier.degraded;
  pending_tier = some Tier.good;
  pending_count = pos 2;
}

-- A codec that knows one state and one corrupt text.
abbrev corrupt : Fields Fixed
corrupt = field (str "pending_count") (real inf) end

abbrev one_state : Codec Fixed
one_state = record {
  loads = λ s. elim s [
    | [] ↦ none
    | c ∷ [] ↦ some (encode_state fixed stored)
    | _ ↦ some (obj corrupt)
  ];
  dumps = λ _. str "s";
}

decode_state-encode_state_example : decode_state fixed one_state (some (str "s")) ≡ ok stored
decode_state-encode_state_example =
    decode_state-encode_state fixed one_state stored (λ x e. ground arith) refl refl

-- Redis holds a count of Infinity for one client: its requests without hints end in an exception.
overflow_escapes : decode_state fixed one_state (some (str "ss")) ≡ raise overflow_error
unfolding decode_state decode_fields lookup text_eq
overflow_escapes = refl

signal_priority_example :
    ((x : Fixed) × (q : NetworkQuality) × (parse_float fixed
          (lookup (str "x-client-rtt") hinted.headers)
        ≡ some x)
      × InTier fixed fixed_order refl x q defaults
      × (explicit_signal fixed hinted defaults ≡ ok (some (q, some x))))
    ⊎ (parse_float fixed (lookup (str "x-client-rtt") hinted.headers) ≡ none)
      × (explicit_signal fixed hinted defaults ≡ ok (later_signal fixed hinted.headers))
signal_priority_example = signal_priority fixed fixed_order refl hinted defaults

abbrev inner : NetworkQuality → Inner Fixed
inner _ = record {
  response = record { status = 200; headers = []; body = [] };
  elapsed_ms = fin 20_000;
  upstream_latency_ms = some (fin 15_000);
  request_log_record = none;
  response_size_optimized = none;
  route = str "/proxy/{service}/{path:path}";
  served_from_cache = false;
}

abbrev key : Text
key = state_key (str "c")

decodes : decode_state fixed one_state (some (str "s")) ≡ ok stored
unfolding decode_state decode_fields lookup text_eq encode_state
decodes = refl

update_state_races_example :
    (length (str "s" ∷ []) < 4
      → update_state fixed one_state
          (map overtaken (str "s" ∷ []))
          (str "c")
          (fin 90_000)
          defaults
          []
        ≡ (
          none,
          insert key
              (folded fixed one_state stored (fin 90_000) defaults)
              (after_writes key [] (str "s" ∷ [])),
        ))
    × (4 ≤ length (str "s" ∷ [])
        → update_state fixed one_state
            (map overtaken (str "s" ∷ []))
            (str "c")
            (fin 90_000)
            defaults
            []
          ≡ (none, after_writes key [] (take 4 (str "s" ∷ []))))
unfolding lookup insert text_eq decode_state
update_state_races_example =
    update_state_races fixed one_state (str "s" ∷ []) (str "c") (fin 90_000) defaults [] stored
      (fresh fixed, refl) ((stored, decodes), tt) decodes
