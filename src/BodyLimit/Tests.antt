-- ===== src/BodyLimit/Tests.antt =====
-- A request in two chunks.
use adaptive_gateway.Prelude.{◌≡◌, refl, arith, true, false, Option, none, some, List, [], ◌∷◌}
use adaptive_gateway.Prelude.Texts.{Text, str, texts}
use adaptive_gateway.Prelude.Results.{Result, ok}
use adaptive_gateway.Config.{Url}
use adaptive_gateway.BodyLimit.{
  Scope, request, disconnect, Arrival, admitted, refused, hosts, host_of, valid_host, collect,
  body_limit,
}
use adaptive_gateway.BodyLimit.Refinement.{transfer, body_limit-transfer}
use adaptive_gateway.BodyLimit.Replay.{NamesNoHost, IsAdmitted, body_limit-admitted}

abbrev host_part : Text → Option Text
host_part (_ ∷ _ ∷ []) = none
host_part (_ ∷ _ ∷ c ∷ s) = some (c ∷ s)
host_part _ = none

abbrev netloc_part : Text → Text
netloc_part (_ ∷ _ ∷ s) = s
netloc_part _ = []

-- Splits "//host" only.
abbrev urlsplit : Text → Result Url
urlsplit s = ok (record {
  scheme = [];
  netloc = netloc_part s;
  path = [];
  query = [];
  fragment = [];
  hostname = host_part s;
  username = none;
  password = none;
  port = ok none;
})

urlsplit-NamesNoHost : NamesNoHost urlsplit
urlsplit-NamesNoHost url e = ground arith

abbrev scope : Scope
scope = record { kind = str "http"; headers = (str "Host", str "a.b") ∷ []; path = str "/x" }

abbrev arrivals : List Arrival
arrivals = (0, request (1 ∷ 2 ∷ []) true) ∷ (3, request (3 ∷ []) false) ∷ (9, disconnect) ∷ []

let_in : body_limit urlsplit 3 scope arrivals ≡ admitted (1 ∷ 2 ∷ 3 ∷ []) ((9, disconnect) ∷ [])
unfolding body_limit valid_host host_of hosts collect texts
let_in = refl

two_hosts :
    body_limit urlsplit 3
      (record scope { headers = (str "Host", str "a.b") ∷ (str "host", str "c") ∷ [] })
      arrivals
    ≡ refused 400 (str "invalid request target or host")
unfolding body_limit valid_host host_of hosts collect texts
two_hosts = refl

body_limit-transfer_example :
    body_limit urlsplit 2 scope arrivals ≡ refused 413 (str "request body too large")
unfolding valid_host host_of hosts transfer texts
body_limit-transfer_example = body_limit-transfer urlsplit 2 scope arrivals

body_limit-admitted_example :
    IsAdmitted urlsplit 3 scope arrivals (1 ∷ 2 ∷ 3 ∷ []) ((9, disconnect) ∷ [])
body_limit-admitted_example =
    body_limit-admitted urlsplit 3 scope arrivals (1 ∷ 2 ∷ 3 ∷ []) ((9, disconnect) ∷ [])
      urlsplit-NamesNoHost let_in
