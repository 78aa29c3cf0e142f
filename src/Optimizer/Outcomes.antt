-- ===== src/Optimizer/Outcomes.antt =====
-- What a client may rely on in an optimized response.
use mathlib.Core.Path.{subst}
use adaptive_gateway.Prelude.{
  ℕ, ◌<◌, ◌≡◌, refl, sym, ap, ◌∙◌, ◌≢◌, ◌⊎◌, inl, inr, true, false, ◌||◌, Option, none, some, List,
  [], arith, default, length, is_some, Bool-cases, Option-cases,
}
use adaptive_gateway.Prelude.Texts.{Text, str, text_eq, text_eq_iff}
use adaptive_gateway.Prelude.Dicts.{lookup}
use adaptive_gateway.Prelude.Floats.{Float}
use adaptive_gateway.Http.{good, Request, Response}
use adaptive_gateway.Detector.State.{Codec}
use adaptive_gateway.Optimizer.Codings.{accepts_gzip, accepts_identity}
use adaptive_gateway.Optimizer.Modes.{
  Mode, adaptive, full, Policy, RouteState, Optimized, mode_of, uses_skeleton, passes,
}
use adaptive_gateway.Optimizer.Dispatch.{
  adapted, gzipped, served, coding, not_acceptable, base_headers, optimize, dispatch,
}
use adaptive_gateway.Optimizer.Headers.{IsPrivate, merged-IsPrivate}

served-IsPrivate :
    (mode : Mode) (state : RouteState) (response : Response) (new_body : Text) (coded : Option Text)
    → default coded new_body ≢ response.body
    → IsPrivate (served mode state response new_body coded).response.headers
unfolding served
served-IsPrivate mode state response new_body coded changed =
    elim (Bool-cases (text_eq (default coded new_body) response.body)) [
      | inl same ↦ absurd (changed ((text_eq_iff _ _).0 same))
      | inr e ↦ rw e (
          merged-IsPrivate mode (uses_skeleton mode state) _ coded (base_headers response)
            response.headers)
    ]

served-body :
    (mode : Mode) (state : RouteState) (response : Response) (new_body : Text) (coded : Option Text)
    → (served mode state response new_body coded).response.body ≡ default coded new_body
unfolding served
served-body mode state response new_body coded = refl

module _ (fl : Float) (codec : Codec fl.F) (compress : List ℕ → List ℕ) (policy : Policy)
    (req : Request) (state : RouteState) (response : Response) where
  abbrev pub outcome : Optimized
  outcome = dispatch fl codec compress policy req state response

  abbrev pub accept : Text
  accept = default (lookup (str "accept-encoding") req.headers) []

  abbrev pub new_body : Text
  new_body = adapted fl codec (mode_of policy) state response.body

  -- The two contents that a served response may have.
  abbrev pub HasContent : Response → Type 0
  HasContent r =
      ((r.body ≡ new_body) × (accepts_identity fl accept ≡ true))
      ⊎ (r.body ≡ compress new_body)
        × (length (compress new_body) < length new_body)
        × (accepts_gzip fl accept ≡ true)
        × (lookup (str "content-encoding") r.headers ≡ some (str "gzip"))

  abbrev pub IsTransparent : Type 0
  IsTransparent =
      (mode_of policy ≡ full) ⊎ (mode_of policy ≡ adaptive) × (state.network_quality ≡ good)

  -- Passed on, refused, or served.
  pub dispatch_cases :
      (outcome.response ≡ response)
      ⊎ ((outcome.response.status ≡ 406)
          × (outcome.response.body ≡ [])
          × (coding fl codec compress policy req state response ≡ none)
          × (accepts_identity fl accept ≡ false))
      ⊎ (outcome
          ≡ served
              (mode_of policy)
              state
              response
              new_body
              (coding fl codec compress policy req state response))
        × (is_some (coding fl codec compress policy req state response)
              || accepts_identity fl accept
            ≡ true)
  unfolding dispatch optimize not_acceptable
  dispatch_cases = elim (Bool-cases (passes req state response)) [
    | inl p ↦ inl (rw p)
    | inr p ↦ elim (Option-cases (coding fl codec compress policy req state response)) [
      | inl e ↦ elim (Bool-cases (accepts_identity fl accept)) [
        | inl i ↦ inr (inr (rw (p, e, i), rw (e, i)))
        | inr i ↦ inr (inl (rw (p, e, i), rw (p, e, i), e, i))
      ]
      | inr (b, e) ↦ inr (inr (rw (p, e), rw e))
    ]
  ]

  -- A body that the optimizer changed is served without the upstream's validators, digests and
  -- ranges, and as private and not to be stored, unless the answer is a 406.
  pub changed_body-IsPrivate :
      outcome.response.body ≢ response.body
      → outcome.response.status ≢ 406
      → IsPrivate outcome.response.headers
  changed_body-IsPrivate changed acceptable = elim dispatch_cases [
    | inl same ↦ absurd (changed (ap (λ r. r.body) same))
    | inr (inl refused) ↦ absurd (acceptable refused.0)
    | inr (inr (e, _)) ↦
        subst (λ o. IsPrivate o.response.headers) (sym e)
          (served-IsPrivate (mode_of policy) state response new_body coded (λ same. changed (
            ap (λ o. o.response.body) e
            ∙ served-body (mode_of policy) state response new_body coded
            ∙ same)))
  ]
    where
      coded : Option Text
      coded = coding fl codec compress policy req state response

  adapted_good :
      IsTransparent → adapted fl codec (mode_of policy) state response.body ≡ response.body
  unfolding adapted
  adapted_good h = ground arith

  coding_good : IsTransparent → coding fl codec compress policy req state response ≡ none
  unfolding coding gzipped
  coding_good h = ground arith

  -- In the mode `full`, and in the mode `adaptive` at the tier GOOD, the client gets the upstream's
  -- body as it is, or a 406.
  pub transparent_keeps_body :
      IsTransparent → (outcome.response.body ≡ response.body) ⊎ (outcome.response.status ≡ 406)
  transparent_keeps_body h = elim dispatch_cases [
    | inl same ↦ inl (ap (λ r. r.body) same)
    | inr (inl refused) ↦ inr refused.0
    | inr (inr (e, _)) ↦ inl (
        ap (λ o. o.response.body) e
        ∙ served-body (mode_of policy) state response new_body _
        ∙ rw (coding_good h) (adapted_good h))
  ]
