-- ===== src/Gateway/Layers.antt =====
-- gateway/main.py: what each middleware does to the response of those inside it.
use adaptive_gateway.Prelude.{
  ℕ, ◌≡◌, refl, sym, ap, ◌∙◌, Bool, true, false, Option, none, some, List, ◌⊎◌, inl, inr,
}
use adaptive_gateway.Prelude.Texts.{Text, str, text_eq, among, decimal}
use adaptive_gateway.Prelude.Dicts.{Dict, lookup, insert, lookup-insert_self}
use adaptive_gateway.Prelude.Floats.{Float}
use adaptive_gateway.Prelude.Results.{Exc, Result, ok, raise, ok-injective}
use adaptive_gateway.Http.{NetworkQuality, value, Request, Response}
use adaptive_gateway.Rtt.{Thresholds, RttState}
use adaptive_gateway.RateLimit.{Counters, Verdict, verdict, unavailable, with_limits}
use adaptive_gateway.Detector.{explicit_signal}
use adaptive_gateway.Detector.State.{Codec, load_state}
use adaptive_gateway.Detector.Update.{Attempt}
use adaptive_gateway.Detector.Dispatch.{
  Inner, Dispatched, dispatch, finish, skip_paths, by_signal, passive, after_update, quality_of,
}
use adaptive_gateway.Optimizer.Headers.{lookup-insert_ne}
use adaptive_gateway.Gateway.{after_limit, respond, installed}

-- The response is that of the inner application, with the tier in its header.
abbrev pub Tells : Response → NetworkQuality → Response → Type 0
Tells response quality inner =
    (lookup (str "x-network-quality") response.headers ≡ some (value quality))
    × (response.status ≡ inner.status)
    × (response.body ≡ inner.body)

Tells-insert :
    (name text : Text) (response inner : Response) (quality : NetworkQuality)
    → text_eq name (str "x-network-quality") ≡ false
    → Tells response quality inner
    → Tells (record response { headers = insert name text response.headers }) quality inner
Tells-insert name text response inner quality n (h, s, b) =
    (lookup-insert_ne name (str "x-network-quality") text response.headers n ∙ h, s, b)

module _ (fl : Float) (codec : Codec fl.F) (t : Thresholds fl) (client_id : Text)
    (call_next : NetworkQuality → Inner fl.F) where
  open fl use {F}

  finish-Tells :
      (req : Request) (quality : NetworkQuality) (rtt : Option F) (inner : Inner F)
      (store : Dict Text)
      → Tells (finish fl codec req quality rtt inner store).response quality inner.response
  unfolding finish text_eq
  finish-Tells req quality rtt inner store = (
    lookup-insert_ne (str "x-rtt-source") (str "x-network-quality") _ _ refl
        ∙ (lookup-insert_ne (str "x-rtt-ms") (str "x-network-quality") _ _ refl
            ∙ lookup-insert_self (str "x-network-quality") _ _),
    refl,
    refl,
  )

  abbrev pub TellsTier : Result (Dispatched F) → Type 0
  TellsTier (ok d) =
      (quality : NetworkQuality) × Tells d.response quality (call_next quality).response
  TellsTier (raise e) = Unit

  module _ (reply : Dict Text → Result (Option Text)) (schedule : List Attempt) (req : Request)
      (store : Dict Text) where
    updated-Tells :
        (quality : NetworkQuality) (inner : Inner F)
        → inner.response ≡ (call_next quality).response
        → (updated : Option Exc × Dict Text)
        → TellsTier (after_update fl codec req quality inner updated).0
    updated-Tells quality inner e (some x, s) = tt
    updated-Tells quality inner e (none, s) =
        (quality, rw (← e) (finish-Tells req quality none inner s))

    passive-Tells :
        (state : Result (RttState fl))
        → TellsTier (passive fl codec t client_id call_next reply schedule req store state).0
    passive-Tells (raise e) = tt
    passive-Tells (ok state) =
        updated-Tells (quality_of state.tier) (call_next (quality_of state.tier)) refl _

    signal-Tells :
        (signal : Result (Option (NetworkQuality × Option F)))
        → TellsTier (by_signal fl codec t client_id call_next reply schedule req store signal).0
    signal-Tells (raise e) = tt
    signal-Tells (ok (some (quality, rtt))) =
        (quality, finish-Tells req quality rtt (call_next quality) store)
    signal-Tells (ok none) = passive-Tells (load_state fl codec (reply store))

    pub dispatch-Tells :
        among req.path skip_paths ≡ false
        → TellsTier (dispatch fl codec t client_id call_next reply schedule req store).0
    unfolding dispatch
    dispatch-Tells go = rw go (signal-Tells (explicit_signal fl req t))

  pub response_of-Tells :
      (answered : Result (Dispatched F) × Dict Text)
      → TellsTier answered.0
      → {response : Response} → (respond answered).0 ≡ ok response
      → (quality : NetworkQuality) × Tells response quality (call_next quality).response
  response_of-Tells (raise e, s) told h = cc
  response_of-Tells (ok d, s) (quality, told) {response} h =
      let e : d.response ≡ response = ok-injective h in (quality, rw (← e) told)

pub installed-cases {ℓ} :
    {A : Type ℓ} {inner outer x : A} (enabled skipped : Bool)
    → installed enabled skipped inner outer ≡ x
    → (inner ≡ x) ⊎ (outer ≡ x)
installed-cases true true h = inl h
installed-cases true false h = inr h
installed-cases false skipped h = inl h

module _ (c : Counters) (is_production : Bool) (limit window : ℕ) where
  -- Either the limiter answers, and what it guards is not reached, or it adds its headers.
  pub after_limit-cases :
      (v : Verdict) (inner : Result Response × Dict Text) (store : Dict Text) {response : Response}
      {store' : Dict Text}
      → after_limit c is_production limit window v inner store ≡ (ok response, store')
      → (store' ≡ store) × ((response.status ≡ 429) ⊎ (response.status ≡ 503))
        ⊎ (remaining : ℕ) × (r : Response) × (inner.0 ≡ ok r)
          × (response ≡ with_limits c is_production limit remaining r)
  after_limit-cases unavailable inner store h =
      let e = ok-injective (ap (λ p. p.0) h) in
      inl (sym (ap (λ p. p.1) h), inr (sym (ap (λ r. r.status) e)))
  after_limit-cases (verdict false remaining) inner store h =
      let e = ok-injective (ap (λ p. p.0) h) in
      inl (sym (ap (λ p. p.1) h), inl (sym (ap (λ r. r.status) e)))
  after_limit-cases (verdict true remaining) (raise e, s) store h = let q = ap (λ p. p.0) h in cc
  after_limit-cases (verdict true remaining) (ok r, s) store h =
      inr (remaining, r, refl, sym (ok-injective (ap (λ p. p.0) h)))

  pub with_limits-Tells :
      (remaining : ℕ) (response inner : Response) (quality : NetworkQuality)
      → Tells response quality inner
      → Tells (with_limits c is_production limit remaining response) quality inner
  unfolding text_eq
  with_limits-Tells remaining response inner quality h =
      Tells-insert (str "x-ratelimit-remaining") _
        (record response {
          headers = insert (str "x-ratelimit-limit") (decimal limit) response.headers;
        })
        inner quality refl
        (Tells-insert (str "x-ratelimit-limit") (decimal limit) response inner quality refl h)
