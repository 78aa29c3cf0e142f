-- ===== src/Optimizer/Dispatch.antt =====
-- `ResponseOptimizerMiddleware.dispatch`, after `call_next`.
use adaptive_gateway.Prelude.{
  ℕ, Bool, true, false, not, ◌&&◌, Option, none, some, List, [], ◌∷◌, ◌++◌, map, default, length,
  is_some, ltb, leb, if◌then◌else◌,
}
use adaptive_gateway.Prelude.Texts.{Text, str, text_eq, among, lower}
use adaptive_gateway.Prelude.Dicts.{Dict, lookup, insert, pop}
use adaptive_gateway.Prelude.Floats.{Float}
use adaptive_gateway.Json.{Json}
use adaptive_gateway.Http.{NetworkQuality, value, Request, Response}
use adaptive_gateway.Detector.State.{Codec}
use adaptive_gateway.Detector.{is_empty}
use adaptive_gateway.Optimizer.Strip.{strip_fields}
use adaptive_gateway.Optimizer.Skeleton.{make_skeleton, json_eq}
use adaptive_gateway.ProxyHttp.{representation_headers}
use adaptive_gateway.Optimizer.Codings.{accepts_gzip, accepts_identity}
use adaptive_gateway.Optimizer.Modes.{
  Mode, Optimized, Policy, RouteState, dict_from, gzip_min_size, mode_name, mode_of, passes,
  pop_all, removes_fields, uses_skeleton, vary_value, wants_gzip, with_name, without_name,
}

abbrev pub adaptive_mode : Bool → Bool → Text
adaptive_mode skeleton reduced =
    if skeleton && reduced then str "skeleton" else if reduced then str "stripped" else str "none"

abbrev pub coded_headers : Option Text → Dict Text → Dict Text
coded_headers none headers = headers
coded_headers (some _) headers = insert (str "content-encoding") (str "gzip") headers

-- A changed representation loses its validators and is not stored.
abbrev pub changed_headers : Bool → Dict Text → Dict Text
changed_headers changed headers =
    if changed
    then insert (str "cache-control") (str "private, no-store")
        (pop_all representation_headers headers)
    else headers

unfoldable pub final_headers : Mode → Bool → Bool → Option Text → Bool → Dict Text → Dict Text
final_headers mode skeleton reduced coded changed headers =
    insert (str "x-response-completeness") (if reduced then str "reduced" else str "full") (
      insert (str "x-adaptive-mode") (adaptive_mode skeleton reduced) (
        insert (str "x-response-mode") (mode_name mode)
          (changed_headers changed (coded_headers coded headers))))

-- 406: the policy cannot supply a coding that the client permits.
unfoldable pub not_acceptable : NetworkQuality → ℕ → Text → Optimized
not_acceptable quality size vary = record {
  response = record {
    status = 406;
    headers = (str "vary", vary) ∷ (str "cache-control", str "no-store") ∷ [];
    body = [];
  };
  size = some 0;
  observed = (value quality, str "original", size) ∷ (value quality, str "optimized", 0) ∷ [];
}

-- dict(response.headers), with Vary extended and Content-Length dropped
unfoldable pub base_headers : Response → Dict Text
base_headers response =
    let headers = dict_from response.headers [] in
    pop (str "content-length") (insert (str "vary") (vary_value headers) headers)

-- The adapted and coded response. Its list of headers is what the code passes to Starlette's
-- Response, which adds Content-Length, with the Set-Cookie items put back.
unfoldable pub served : Mode → RouteState → Response → Text → Option Text → Optimized
served mode state response new_body coded =
    let reduced = not (text_eq new_body response.body) in
    let final_body = default coded new_body in
    let changed = not (text_eq final_body response.body) in
    let quality = value state.network_quality in
    record {
      response = record {
        status = response.status;
        headers =
            without_name (str "set-cookie") (
              final_headers mode (uses_skeleton mode state) reduced coded changed
                (base_headers response))
            ++ with_name (str "set-cookie") response.headers;
        body = final_body;
      };
      size = some (length final_body);
      observed =
          (quality, str "original", length response.body)
          ∷ (quality, str "optimized", length final_body)
          ∷ [];
    }

module _ (fl : Float) (codec : Codec fl.F) where
  abbrev reshaped : Text → Json fl.F → Json fl.F → Text
  reshaped body parsed transformed =
      if json_eq fl.eq transformed parsed then body else codec.dumps transformed

  -- `_transform_json`. `loads` is `none` for every exception that json.loads raises here.
  unfoldable pub transform_json : Text → List Text → Bool → Text
  transform_json body fields skeleton = elim (codec.loads body) [
    | none ↦ body
    | some parsed ↦
        reshaped body parsed
          (if skeleton then make_skeleton parsed fields else strip_fields fields parsed)
  ]

  -- new_body, before the coding
  unfoldable pub adapted : Mode → RouteState → Text → Text
  adapted mode state body =
      if removes_fields mode state && not (is_empty body)
      then transform_json body state.optional_fields false
      else if uses_skeleton mode state && not (is_empty body)
      then transform_json body state.optional_fields true
      else body

-- `compress` is gzip.compress(body, compresslevel=9, mtime=0).
module _ (fl : Float) (codec : Codec fl.F) (compress : List ℕ → List ℕ) where
  -- The compressed body, where the mode asks for it, the client takes it, and it is smaller.
  unfoldable pub gzipped : Mode → RouteState → Text → Dict Text → Text → Option Text
  gzipped mode state accept headers new_body =
      if wants_gzip mode state
        && accepts_gzip fl accept
        && not (among (str "content-encoding") (map (λ h. lower h.0) headers))
        && leb gzip_min_size (length new_body)
        && ltb (length (compress new_body)) (length new_body)
      then some (compress new_body)
      else none

  -- The coding that the request gets, of the adapted body.
  unfoldable pub coding : Policy → Request → RouteState → Response → Option Text
  coding policy req state response =
      let mode = mode_of policy in
      gzipped mode state (default (lookup (str "accept-encoding") req.headers) [])
        (base_headers response) (adapted fl codec mode state response.body)

  -- The body is drained into `response.body`.
  unfoldable pub optimize : Policy → Request → RouteState → Response → Optimized
  optimize policy req state response =
      let coded = coding policy req state response in
      let vary = default (lookup (str "vary") (base_headers response)) [] in
      let accept = default (lookup (str "accept-encoding") req.headers) [] in
      let new_body = adapted fl codec (mode_of policy) state response.body in
      let result = served (mode_of policy) state response new_body coded in
      if not (is_some coded) && not (accepts_identity fl accept)
      then not_acceptable state.network_quality (length response.body) vary
      else result

  unfoldable pub dispatch : Policy → Request → RouteState → Response → Optimized
  dispatch policy req state response =
      let unchanged : Optimized = record { response = response; size = none; observed = [] } in
      if passes req state response then unchanged else optimize policy req state response
