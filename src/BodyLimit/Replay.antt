-- ===== src/BodyLimit/Replay.antt =====
-- The request as the application gets it.
use adaptive_gateway.Prelude.{
  ℕ, ◌≤◌, ◌≡◌, ◌≢◌, refl, sym, ◌∙◌, ◌⊎◌, inl, inr, Bool, true, false, ◌&&◌, none, some, List, [],
  ◌∷◌, ◌++◌, ◌+◌, arith, default, length, all, ltb, Bool-cases, if◌then◌else◌,
}
use adaptive_gateway.Prelude.Texts.{Text, str, text_eq, text_eq_iff, starts_with}
use adaptive_gateway.Prelude.Results.{Result, ok, Result-cases}
use adaptive_gateway.Config.{Url, is_empty}
use adaptive_gateway.Proxy.Route.{read_body}
use adaptive_gateway.BodyLimit.{
  Scope, request, Arrival, admitted, hosts, host_of, checked, valid_host, body_limit, replay,
}
use adaptive_gateway.BodyLimit.Refinement.{
  Ending, complete, gone, silent, Transfer, transfer, is_target, verdict, body_limit-transfer,
}

-- The Host header of a request, and what urlsplit makes of it.
pub record IsHost (urlsplit : Text → Result Url) (scope : Scope) (host : Text) (url : Url)
    : Type 0 where
  pub single : hosts scope.headers ≡ host ∷ []
  pub ascii : all (λ c. ltb c 128) host ≡ true
  pub parsed : urlsplit (str "//" ++ host) ≡ ok url
  pub whole : url.netloc ≡ host
  pub named : is_empty (default url.hostname []) ≡ false
  pub anonymous : url.username ≡ none

host_of_cases :
    (hs : List Text)
    → ((host : Text) × (hs ≡ host ∷ [])
        × (host_of hs ≡ (if all (λ c. ltb c 128) host then some host else none)))
      ⊎ (host_of hs ≡ some [])
unfolding host_of
host_of_cases [] = inr refl
host_of_cases (host ∷ []) = inl (host, refl, refl)
host_of_cases (h ∷ h' ∷ hs) = inr refl

true_not_false : true ≢ false
true_not_false e = cc

checked_url :
    (host : Text) (url : Url)
    → checked host (ok url) ≡ true
    → (url.netloc ≡ host) × (is_empty (default url.hostname []) ≡ false) × (url.username ≡ none)
checked_url host url e = (ground (arith, text_eq_iff url.netloc host), ground arith, ground arith)

checked_host_url :
    (urlsplit : Text → Result Url) (host : Text)
    → checked host (urlsplit (str "//" ++ host)) ≡ true
    → (url : Url) × (urlsplit (str "//" ++ host) ≡ ok url) × (checked host (ok url) ≡ true)
checked_host_url urlsplit host e = elim (Result-cases (urlsplit (str "//" ++ host))) [
  | inl (url, parsed) ↦ (url, parsed, rw parsed at e)
  | inr (failure, failed) ↦ ground arith
]

admitted-verdict :
    (limit : ℕ) (t : Transfer) (body : List ℕ) (later : List Arrival)
    → verdict limit [] t ≡ admitted body later
    → (t ≡ record { bytes = body; ending = complete; later = later }) × (length body ≤ limit)
admitted-verdict limit t body later e = elim (Bool-cases (ltb limit (0 + length t.bytes))) [
  | inl over ↦ ground arith
  | inr within ↦ go t.ending refl
]
  where
    go :
        (ending : Ending)
        → t.ending ≡ ending
        → (t ≡ record { bytes = body; ending = complete; later = later }) × (length body ≤ limit)
    go complete q = ground arith
    go gone q = ground arith
    go silent q = ground arith

both : (a b : Bool) → (a && b) ≡ true → (a ≡ true) × (b ≡ true)
both a b e = (ground arith, ground arith)

first_message :
    (body : List ℕ) (later : List Arrival)
    → replay (record { consumed = false; body = body; later = later })
      ≡ (some (request body false), record { consumed = true; body = body; later = later })
unfolding replay
first_message body later = refl

uncapped_read :
    (limit : ℕ) (body : List ℕ) → length body ≤ limit → read_body limit (body ∷ []) 0 [] ≡ some body
unfolding read_body
uncapped_read limit body h = ground arith

module _ (urlsplit : Text → Result Url) where
  abbrev pub NamesNoHost : Type 0
  NamesNoHost =
      (url : Url) → urlsplit (str "//") ≡ ok url → is_empty (default url.hostname []) ≡ true

  valid_host-IsHost :
      (scope : Scope)
      → NamesNoHost
      → valid_host urlsplit scope ≡ true
      → (host : Text) × (url : Url) × IsHost urlsplit scope host url
  unfolding valid_host
  valid_host-IsHost scope empty valid = elim (host_of_cases (hosts scope.headers)) [
    | inl (host, single, h) ↦ elim (Bool-cases (all (λ c. ltb c 128) host)) [
      | inr other ↦ ground arith
      | inl ascii ↦
          let valid' : checked host (urlsplit (str "//" ++ host)) ≡ true = rw (h, ascii) at valid in
          let (url, parsed, c) = checked_host_url urlsplit host valid' in
          let (whole, named, anonymous) = checked_url host url c in
          (
            host,
            url,
            record {
              single = single;
              ascii = ascii;
              parsed = parsed;
              whole = whole;
              named = named;
              anonymous = anonymous;
            },
          )
    ]
    | inr h ↦
        let valid' : checked [] (urlsplit (str "//")) ≡ true = rw h at valid in
        let (url, parsed, c) = checked_host_url urlsplit [] valid' in
        let (_, named, _) = checked_url [] url c in
        absurd (true_not_false (sym (empty url parsed) ∙ named))
  ]

  called :
      (limit : ℕ) (scope : Scope) (arrivals : List Arrival) (body : List ℕ) (later : List Arrival)
      → body_limit urlsplit limit scope arrivals ≡ admitted body later
      → (is_target urlsplit scope ≡ true)
        × (verdict limit [] (transfer arrivals) ≡ admitted body later)
  called limit scope arrivals body later e =
      let e' = sym (body_limit-transfer urlsplit limit scope arrivals) ∙ e in
      elim (Bool-cases (text_eq scope.kind (str "http"))) [
        | inr other ↦ ground arith
        | inl http ↦ elim (Bool-cases (is_target urlsplit scope)) [
          | inr bad ↦ ground arith
          | inl good ↦ (good, rw (http, good) at e')
        ]
      ]

  pub record IsAdmitted (limit : ℕ) (scope : Scope) (arrivals : List Arrival) (body : List ℕ)
      (later : List Arrival) : Type 0 where
    pub host : Text
    pub url : Url
    pub is_host : IsHost urlsplit scope host url
    pub absolute : starts_with scope.path (str "/") ≡ true
    pub finished : transfer arrivals ≡ record { bytes = body; ending = complete; later = later }
    pub bounded : length body ≤ limit
    pub first :
        replay (record { consumed = false; body = body; later = later })
        ≡ (some (request body false), record { consumed = true; body = body; later = later })
    pub uncapped : read_body limit (body ∷ []) 0 [] ≡ some body

  -- The application is called for an HTTP request only with exactly one Host header, which is
  -- plain and names a host, an absolute path, and a transfer that ended within the limit. Its
  -- first message is the whole body, in the order sent and marked as the last; and a route that
  -- caps what it reads at the same limit reads that body.
  pub body_limit-admitted :
      (limit : ℕ) (scope : Scope) (arrivals : List Arrival) (body : List ℕ) (later : List Arrival)
      → NamesNoHost
      → body_limit urlsplit limit scope arrivals ≡ admitted body later
      → IsAdmitted limit scope arrivals body later
  body_limit-admitted limit scope arrivals body later empty e =
      let (target, v) = called limit scope arrivals body later e in
      let (valid, absolute) =
        both (valid_host urlsplit scope) (starts_with scope.path (str "/")) target in
      let (host, url, is_host) = valid_host-IsHost scope empty valid in
      let (finished, bounded) = admitted-verdict limit (transfer arrivals) body later v in
      record {
        host = host;
        url = url;
        is_host = is_host;
        absolute = absolute;
        finished = finished;
        bounded = bounded;
        first = first_message body later;
        uncapped = uncapped_read limit body bounded;
      }
