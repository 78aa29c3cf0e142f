-- ===== src/Optimizer/Tests.antt =====
-- The optimizer at concrete values and requests.
use adaptive_gateway.Prelude.{
  ℕ, ◌≡◌, ◌==◌, ◌≢◌, refl, ap, true, false, none, some, List, [], ◌∷◌, take, arith,
}
use adaptive_gateway.Prelude.Texts.{Text, str, text_eq, text_eq_refl, texts}
use adaptive_gateway.Prelude.Dicts.{lookup, insert, pop, has_key}
use adaptive_gateway.Prelude.Floats.{Fixed, fixed}
use adaptive_gateway.Prelude.Ints.{pos}
use adaptive_gateway.Json.{Json, int, text, arr, obj, nil, cons, Fields, end, field}
use adaptive_gateway.Http.{NetworkQuality, good, degraded, Request, Response}
use adaptive_gateway.Detector.State.{Codec}
use adaptive_gateway.Optimizer.Strip.{
  path_of, descend, pop_field, alter, strip_path, strip_paths, strip_fields,
}
use adaptive_gateway.Optimizer.Strip.Removal.{reaches, has_path, strip_fields-removes}
use adaptive_gateway.Optimizer.Strip.Retention.{
  key, index, value_at, diverges, strip_fields-retains,
}
use adaptive_gateway.Optimizer.Skeleton.{make_skeleton, truncate, json_eq}
use adaptive_gateway.Optimizer.Skeleton.Laws.{IsWithin, make_skeleton_minimal}
use adaptive_gateway.Optimizer.Codings.{
  is_json, accepts_gzip, accepts_identity, accepted_codings, codings_from, quality_of,
}
use adaptive_gateway.Optimizer.Modes.{
  adaptive, Policy, RouteState, Optimized, passes, dict_from, pop_all, vary_value, add_all,
  with_name, without_name,
}
use adaptive_gateway.Optimizer.Dispatch.{
  dispatch, optimize, served, coding, gzipped, adapted, transform_json, final_headers, base_headers,
  not_acceptable,
}
use adaptive_gateway.Optimizer.Headers.{IsPrivate}
use adaptive_gateway.Optimizer.Outcomes.{changed_body-IsPrivate}

abbrev meta : Fields Fixed
meta = field (str "debug") (int (pos 7)) (field (str "category") (text (str "c")) end)

abbrev item : Json Fixed
item = obj (
    field (str "id") (int (pos 1))
      (field (str "body") (text (str "long")) (field (str "meta") (obj meta) end)))

abbrev items : Json Fixed
items = arr (cons item (cons item nil))

abbrev slim : Json Fixed
slim = obj (
    field (str "id") (int (pos 1))
      (field (str "meta") (obj (field (str "category") (text (str "c")) end)) end))

abbrev optional : List Text
optional = str "body" ∷ str "meta.debug" ∷ []

stripped : strip_fields optional items ≡ arr (cons slim (cons slim nil))
unfolding strip_fields strip_paths strip_path pop_field alter descend path_of text_eq
stripped = refl

trailing_dot : path_of (str "meta.") ≡ str "meta" ∷ []
unfolding path_of
trailing_dot = refl

strip_fields-removes_example :
    reaches (has_path (path_of (str "meta.debug"))) (strip_fields optional items) ≡ false
strip_fields-removes_example = strip_fields-removes (str "body" ∷ []) [] (str "meta.debug") items

strip_fields-retains_example :
    value_at (index 1 ∷ key (str "meta") ∷ key (str "category") ∷ []) (strip_fields optional items)
    ≡ value_at (index 1 ∷ key (str "meta") ∷ key (str "category") ∷ []) items
unfolding diverges path_of text_eq
strip_fields-retains_example =
    strip_fields-retains (index 1 ∷ key (str "meta") ∷ key (str "category") ∷ []) optional items
      (refl, (refl, tt))

make_skeleton_minimal_example :
    IsWithin 10 (make_skeleton items optional)
    × (reaches (has_path (path_of (str "body"))) (make_skeleton items optional) ≡ false)
make_skeleton_minimal_example = make_skeleton_minimal [] (str "meta.debug" ∷ []) (str "body") items

-- A codec that reads every body as the two items, and writes one byte for what it is given.
abbrev two_items : Codec Fixed
two_items = record { loads = λ _. some items; dumps = λ _. str "s" }

abbrev compress : List ℕ → List ℕ
compress = take 3

abbrev policy : Policy
policy = record { response_mode = adaptive; adaptation_enabled = true }

abbrev asked : Text → Request
asked coding = record {
  method = str "GET";
  path = str "/proxy/a/items";
  query = [];
  headers = (str "accept-encoding", coding) ∷ [];
  peer = none;
}

abbrev route : NetworkQuality → RouteState
route quality = record {
  optimizable = true;
  optional_fields = optional;
  served_from_cache = false;
  network_quality = quality;
}

abbrev upstream : Response
upstream = record {
  status = 200;
  headers =
      (str "content-type", str "application/json; charset=utf-8")
      ∷ (str "etag", str "v1")
      ∷ (str "set-cookie", str "a=1")
      ∷ [];
  body = str "[...]";
}

-- Everything that a run of the middleware computes with.
whole : Unit {0}
unfolding texts dispatch optimize passes served coding gzipped adapted transform_json final_headers
    base_headers dict_from pop_all vary_value add_all with_name without_name not_acceptable is_json
    accepts_gzip accepts_identity accepted_codings codings_from quality_of json_eq strip_fields
    strip_paths strip_path pop_field alter descend path_of lookup insert pop has_key make_skeleton
    truncate
whole = tt

abbrev degraded_run : Optimized
degraded_run =
    dispatch fixed two_items compress policy (asked (str "gzip, br")) (route degraded) upstream

degraded_body : degraded_run.response.body ≡ str "s"
unfolding whole
degraded_body = refl

degraded_cookies : lookup (str "set-cookie") degraded_run.response.headers ≡ some (str "a=1")
unfolding whole
degraded_cookies = refl

refused :
    (dispatch fixed two_items compress policy
      (asked (str "br, *;q=0"))
      (route good)
      upstream).response.status
    ≡ 406
unfolding whole
refused = refl

texts_differ : (a b : Text) → text_eq a b ≡ false → a ≢ b
texts_differ a b apart e = cc (apart, ap (text_eq a) e, text_eq_refl a)

numbers_differ : (a b : ℕ) → (a == b) ≡ false → a ≢ b
numbers_differ a b apart = ground arith

changed_body-IsPrivate_example : IsPrivate degraded_run.response.headers
unfolding whole
changed_body-IsPrivate_example =
    changed_body-IsPrivate fixed two_items compress policy (asked (str "gzip, br")) (route degraded)
      upstream (texts_differ degraded_run.response.body (str "[...]") refl)
      (numbers_differ degraded_run.response.status 406 refl)
