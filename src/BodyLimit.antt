-- ===== src/BodyLimit.antt =====
-- gateway/middleware/body_limit.py: BodyLimitMiddleware, which checks the target and the host of a
-- request and reads its whole body before the application sees it.
pub mod Refinement
pub mod Replay
mod Tests
use adaptive_gateway.Prelude.{
  ℕ, ◌+◌, Bool, true, false, not, ◌&&◌, ◌||◌, Option, none, some, List, [], ◌∷◌, ◌++◌, map, default,
  length, select, any, all, is_some, ltb, ◌==◌, if◌then◌else◌,
}
use adaptive_gateway.Prelude.Texts.{Text, str, text_eq, lower, starts_with, is_space}
use adaptive_gateway.Prelude.Dicts.{Dict}
use adaptive_gateway.Prelude.Results.{Result, ok, raise}
use adaptive_gateway.Config.{Url, is_empty}

-- The parts of an ASGI scope that are read. Names and values of headers are bytes.
pub record Scope : Type 0 where
  pub kind : Text
  pub headers : Dict (List ℕ)
  pub path : Text

pub data Incoming : Type 0 where
  disconnect : Incoming
  -- http.request, with its body and more_body
  request : List ℕ → Bool → Incoming

-- A message of the client, and the seconds that `receive` waits for it. After the last one the
-- client sends nothing more.
abbrev pub Arrival : Type 0
Arrival = ℕ × Incoming

-- What becomes of a request.
pub data Verdict : Type 0 where
  -- an answer of the middleware's own
  refused : ℕ → Text → Verdict
  -- the client is gone, and nothing is sent
  dropped : Verdict
  -- the application is called with `receive` itself
  untouched : Verdict
  -- the application is called with `replay`: the body, and what `receive` has left
  admitted : List ℕ → List Arrival → Verdict

abbrev pub receive_timeout : ℕ
receive_timeout = 30

-- [value for key, value in scope["headers"] if key.lower() == b"host"]
unfoldable pub hosts : Dict (List ℕ) → List Text
unfolding lower text_eq
hosts headers = map (λ item. item.1) (select (λ item. text_eq (lower item.0) (str "host")) headers)

-- hosts[0].decode("ascii") if len(hosts) == 1 else "", with `none` for UnicodeError
unfoldable pub host_of : List Text → Option Text
host_of (host ∷ []) = if all (λ c. ltb c 128) host then some host else none
host_of _ = some []

abbrev pub is_bare : Text → Url → Bool
is_bare host parsed =
    not (is_empty (default parsed.hostname []))
    && text_eq parsed.netloc host
    && is_empty parsed.path
    && is_empty parsed.query
    && is_empty parsed.fragment
    && not (is_some parsed.username)
    && not (any (λ c. is_space c || c == b'\\') host)

abbrev has_port : Result (Option ℕ) → Bool
has_port (ok _) = true
has_port (raise _) = false

-- urlsplit and the port raise nothing but ValueError, which makes the host invalid.
abbrev pub checked : Text → Result Url → Bool
checked host (raise _) = false
checked host (ok parsed) = is_bare host parsed && has_port parsed.port

abbrev pub checked_host : (Text → Result Url) → Option Text → Bool
checked_host urlsplit none = false
checked_host urlsplit (some host) = checked host (urlsplit (str "//" ++ host))

unfoldable pub valid_host : (Text → Result Url) → Scope → Bool
valid_host urlsplit scope = checked_host urlsplit (host_of (hosts scope.headers))

abbrev pub refused_target : Verdict
refused_target = refused 400 (str "invalid request target or host")

abbrev pub refused_size : Verdict
refused_size = refused 413 (str "request body too large")

abbrev pub refused_wait : Verdict
refused_wait = refused 408 (str "request body timeout")

-- The loop: `size` and `read` are of the chunks so far. Silence ends it as a wait that is too long.
unfoldable pub collect : ℕ → List Arrival → ℕ → List ℕ → Verdict
collect limit [] size read = refused_wait
collect limit ((waited, disconnect) ∷ later) size read =
    if ltb waited receive_timeout then dropped else refused_wait
collect limit ((waited, request chunk more) ∷ later) size read =
    let rest = collect limit later (size + length chunk) (read ++ chunk) in
    if not (ltb waited receive_timeout)
    then refused_wait
    else if ltb limit (size + length chunk)
    then refused_size
    else if more
    then rest
    else admitted (read ++ chunk) later

module _ (urlsplit : Text → Result Url) where
  unfoldable pub body_limit : ℕ → Scope → List Arrival → Verdict
  body_limit limit scope arrivals =
      if not (text_eq scope.kind (str "http"))
      then untouched
      else if not (valid_host urlsplit scope) || not (starts_with scope.path (str "/"))
      then refused_target
      else collect limit arrivals 0 []

-- The closure that the application reads from: whether the body was handed out, the body, and what
-- the client sent after it.
pub record Inbox : Type 0 where
  pub consumed : Bool
  pub body : List ℕ
  pub later : List Arrival

abbrev received : Inbox → List Arrival → Option Incoming × Inbox
received inbox [] = (none, inbox)
received inbox ((_, message) ∷ later) = (some message, record inbox { later = later })

-- `none` where nothing comes any more.
unfoldable pub replay : Inbox → Option Incoming × Inbox
replay inbox =
    if inbox.consumed
    then received inbox inbox.later
    else (some (request inbox.body false), record inbox { consumed = true })
