-- ===== src/Optimizer/Modes.antt =====
-- gateway/middleware/response_optimizer.py: what the policy and the request's state ask for, and the
-- headers' small operations.
use adaptive_gateway.Prelude.{
  ℕ, Bool, true, false, not, ◌&&◌, ◌||◌, Option, List, [], ◌∷◌, ◌++◌, map, default, select, ◌==◌,
  if◌then◌else◌,
}
use adaptive_gateway.Prelude.Texts.{
  Text, str, text_eq, among, lower, strip, split, join, contains_text,
}
use adaptive_gateway.Prelude.Dicts.{Dict, lookup, has_key, insert, pop}
use adaptive_gateway.Http.{NetworkQuality, degraded, poor, Request, Response}
use adaptive_gateway.Detector.{is_empty}
use adaptive_gateway.Optimizer.Codings.{is_json}

-- settings.response_mode
pub data Mode : Type 0 where
  adaptive full compression removal combined : Mode

abbrev pub mode_name : Mode → Text
mode_name adaptive = str "adaptive"
mode_name full = str "full"
mode_name compression = str "compression"
mode_name removal = str "removal"
mode_name combined = str "combined"

-- The settings that the optimizer reads.
pub record Policy : Type 0 where
  pub response_mode : Mode
  pub adaptation_enabled : Bool

-- What the outer middleware and the route have put on `request.state`.
pub record RouteState : Type 0 where
  pub optimizable : Bool
  pub optional_fields : List Text
  pub served_from_cache : Bool
  pub network_quality : NetworkQuality

-- The response, `request.state.response_size_optimized`, and the sizes given to the histogram.
pub record Optimized : Type 0 where
  pub response : Response
  pub size : Option ℕ
  pub observed : List (Text × Text × ℕ)

-- GZIP_MIN_SIZE
abbrev pub gzip_min_size : ℕ
gzip_min_size = 256

abbrev pub varied : List Text
varied = str "Accept-Encoding" ∷ str "X-Client-RTT" ∷ str "ECT" ∷ str "Save-Data" ∷ []

-- dict(headers): the first value of each name
unfoldable pub dict_from : Dict Text → Dict Text → Dict Text
dict_from [] d = d
dict_from ((k, v) ∷ hs) d = dict_from hs (if has_key k d then d else insert k v d)

-- for name in names: headers.pop(name, None)
unfoldable pub pop_all : List Text → Dict Text → Dict Text
pop_all [] d = d
pop_all (n ∷ ns) d = pop_all ns (pop n d)

abbrev add_missing : Text → List Text → List Text
add_missing name vary = if among (lower name) (map lower vary) then vary else vary ++ name ∷ []

unfoldable pub add_all : List Text → List Text → List Text
add_all [] vary = vary
add_all (n ∷ ns) vary = add_all ns (add_missing n vary)

-- The Vary header with the hints and the coding.
unfoldable pub vary_value : Dict Text → Text
vary_value headers =
    let parts = map strip (split b',' (default (lookup (str "vary") headers) [])) in
    join (str ", ") (add_all varied (select (λ p. not (is_empty p)) parts))

-- The items of a header list with the name, and those without it.
unfoldable pub with_name : Text → Dict Text → Dict Text
with_name name hs = select (λ h. text_eq h.0 name) hs

unfoldable pub without_name : Text → Dict Text → Dict Text
without_name name hs = select (λ h. not (text_eq h.0 name)) hs

abbrev pub is_degraded : NetworkQuality → Bool
is_degraded degraded = true
is_degraded _ = false

abbrev pub is_poor : NetworkQuality → Bool
is_poor poor = true
is_poor _ = false

abbrev pub is_adaptive : Mode → Bool
is_adaptive adaptive = true
is_adaptive _ = false

-- mode in {"removal", "combined"}, mode in {"compression", "combined"}
abbrev pub removes : Mode → Bool
removes removal = true
removes combined = true
removes _ = false

abbrev pub compresses : Mode → Bool
compresses compression = true
compresses combined = true
compresses _ = false

-- The early returns: the response is passed on as it is.
unfoldable pub passes : Request → RouteState → Response → Bool
passes req state response =
    not state.optimizable
    || not (is_json response.headers)
    || (not (response.status == 200) || not (text_eq req.method (str "GET")))
    || contains_text (lower (default (lookup (str "cache-control") response.headers) []))
        (str "no-transform")
    || has_key (str "content-encoding") response.headers

abbrev pub mode_of : Policy → Mode
mode_of policy = if policy.adaptation_enabled then policy.response_mode else full

abbrev pub uses_skeleton : Mode → RouteState → Bool
uses_skeleton mode state =
    is_adaptive mode && is_poor state.network_quality && not state.served_from_cache

abbrev pub removes_fields : Mode → RouteState → Bool
removes_fields mode state =
    removes mode
    || is_adaptive mode
      && (is_degraded state.network_quality
          || is_poor state.network_quality && state.served_from_cache)

abbrev pub wants_gzip : Mode → RouteState → Bool
wants_gzip mode state =
    compresses mode
    || is_adaptive mode && (is_degraded state.network_quality || is_poor state.network_quality)
