-- ===== src/BodyLimit/Refinement.antt =====
-- What the middleware does with a request, in terms of all that the client sends.
use adaptive_gateway.Prelude.{
  ℕ, ◌+◌, ◌≡◌, sym, ◌∙◌, inl, inr, Bool, true, false, not, ◌&&◌, List, [], ◌∷◌, ◌++◌, arith, length,
  length-append, append_assoc, ltb, Bool-cases, if◌then◌else◌,
}
use adaptive_gateway.Prelude.Texts.{Text, str, text_eq, starts_with}
use adaptive_gateway.Prelude.Results.{Result}
use adaptive_gateway.Config.{Url}
use adaptive_gateway.BodyLimit.{
  Scope, Incoming, disconnect, request, Arrival, Verdict, dropped, untouched, admitted,
  receive_timeout, refused_target, refused_size, refused_wait, valid_host, collect, body_limit,
}

-- How a client stops sending.
pub data Ending : Type 0 where
  complete gone silent : Ending

-- All that arrives before that, and what comes after.
pub record Transfer : Type 0 where
  pub bytes : List ℕ
  pub ending : Ending
  pub later : List Arrival

abbrev in_time : ℕ → Incoming → Transfer → List Arrival → Transfer
in_time waited disconnect rest later = record { bytes = []; ending = gone; later = later }
in_time waited (request chunk true) rest later = record rest { bytes = chunk ++ rest.bytes }
in_time waited (request chunk false) rest later = record {
  bytes = chunk;
  ending = complete;
  later = later;
}

-- The transfer as a whole, without a limit.
unfoldable pub transfer : List Arrival → Transfer
transfer [] = record { bytes = []; ending = silent; later = [] }
transfer ((waited, message) ∷ later) =
    let rest = transfer later in
    if ltb waited receive_timeout
    then in_time waited message rest later
    else record { bytes = []; ending = silent; later = later }

abbrev pub at_ending : List ℕ → Transfer → Verdict
at_ending read t = elim t.ending [
  | complete ↦ admitted (read ++ t.bytes) t.later
  | gone ↦ dropped
  | silent ↦ refused_wait
]

-- What a transfer deserves after `read`.
abbrev pub verdict : ℕ → List ℕ → Transfer → Verdict
verdict limit read t =
    if ltb limit (length read + length t.bytes) then refused_size else at_ending read t

verdict-append :
    (limit : ℕ) (read chunk : List ℕ) (t : Transfer)
    → verdict limit (read ++ chunk) t ≡ verdict limit read (record t { bytes = chunk ++ t.bytes })
verdict-append limit read chunk t =
    ground (
      arith,
      length-append read chunk,
      length-append chunk t.bytes,
      append_assoc read chunk t.bytes,
    )

collect-transfer :
    (limit : ℕ) (arrivals : List Arrival) (read : List ℕ)
    → ltb limit (length read) ≡ false
    → collect limit arrivals (length read) read ≡ verdict limit read (transfer arrivals)
unfolding collect transfer
collect-transfer limit [] read within = ground arith
collect-transfer limit ((waited, disconnect) ∷ later) read within = ground arith
collect-transfer limit ((waited, request chunk false) ∷ later) read within = ground arith
collect-transfer limit ((waited, request chunk true) ∷ later) read within =
    elim (Bool-cases (ltb waited receive_timeout)) [
      | inr late ↦ ground arith
      | inl early ↦ elim (Bool-cases (ltb limit (length read + length chunk))) [
        | inl over ↦ ground (arith, length-append chunk (transfer later).bytes)
        | inr under ↦
            let size = sym (length-append read chunk) in
            let within' : ltb limit (length (read ++ chunk)) ≡ false = rw (← size) under in
            rw (early, under)
              (rw size (
                collect-transfer limit later (read ++ chunk) within'
                ∙ verdict-append limit read chunk (transfer later)))
      ]
    ]

-- A plain HTTP request with one valid Host header and a path that starts with a slash.
abbrev pub is_target : (Text → Result Url) → Scope → Bool
is_target urlsplit scope = valid_host urlsplit scope && starts_with scope.path (str "/")

-- The middleware answers 400 for a bad target; else 413 if more arrives than the limit, however it
-- is cut into chunks; else it calls the application with all that arrived if the transfer is
-- complete, sends nothing to a client that is gone, and answers 408 after silence. What is no HTTP
-- is passed on untouched.
pub body_limit-transfer :
    (urlsplit : Text → Result Url) (limit : ℕ) (scope : Scope) (arrivals : List Arrival)
    → body_limit urlsplit limit scope arrivals ≡ (
        if not (text_eq scope.kind (str "http"))
        then untouched
        else if is_target urlsplit scope
        then verdict limit [] (transfer arrivals)
        else refused_target)
unfolding body_limit
body_limit-transfer urlsplit limit scope arrivals =
    ground (arith, collect-transfer limit arrivals [] (ground arith))
