-- ===== src/Proxy/Route/Boundary.antt =====
-- What a request must pass before anything happens for it.
use adaptive_gateway.Prelude.{
  ℕ, ◌+◌, ◌≤◌, ◌≡◌, refl, ap, ◌∙◌, ◌⊎◌, inl, inr, Bool, true, false, Option, none, some, List, [],
  ◌∷◌, ◌++◌, arith, length, length-append, append-nil, append_assoc, ltb, Bool-cases, if◌then◌else◌,
}
use adaptive_gateway.Prelude.Texts.{Text}
use adaptive_gateway.Prelude.Floats.{Float}
use adaptive_gateway.Prelude.Results.{Exc, Result, ok, raise, Result-cases}
use adaptive_gateway.Http.{Request}
use adaptive_gateway.Config.{RouteRule, get_route_rule}
use adaptive_gateway.ProxyHttp.Bounded.Limit.{whole, zero_add}
use adaptive_gateway.ProxyHttp.Discovery.{Discovery}
use adaptive_gateway.ProxyHttp.Target.{build_target}
use adaptive_gateway.Redis.{Redis}
use adaptive_gateway.Cache.{Envelope}
use adaptive_gateway.Queue.{Stream, Policy}
use adaptive_gateway.Proxy.{Caller, forward_headers}
use adaptive_gateway.Proxy.Reads.{Limits}
use adaptive_gateway.Proxy.Route.{
  read_body, Outside, Routed, Stores, with_host, dispatched, with_body, at_base, base_of, proxy,
}

read_body-whole :
    (limit : ℕ) (chunks : List (List ℕ)) (size : ℕ) (read : List ℕ)
    → ltb limit size ≡ false
    → read_body limit chunks size read
      ≡ (if ltb limit (size + length (whole chunks)) then none else some (read ++ whole chunks))
unfolding read_body
read_body-whole limit [] size read within = ground (arith, append-nil read)
read_body-whole limit (chunk ∷ chunks) size read within =
    elim (Bool-cases (ltb limit (size + length chunk))) [
      | inl over ↦ ground (arith, length-append chunk (whole chunks))
      | inr under ↦ rw under (
          read_body-whole limit chunks (size + length chunk) (read ++ chunk) under
          ∙ ground
              (arith, length-append chunk (whole chunks), append_assoc read chunk (whole chunks)))
    ]

read_body_lem :
    (limit : ℕ) (chunks : List (List ℕ))
    → read_body limit chunks 0 []
      ≡ (if ltb limit (length (whole chunks)) then none else some (whole chunks))
read_body_lem limit chunks =
    read_body-whole limit chunks 0 [] (ground arith)
    ∙ ap (λ n. if ltb limit n then none else some (whole chunks)) (zero_add (length (whole chunks)))

module _ (fl : Float) (env : Envelope fl.F) (r : Redis) (q : Stream) (limits : Limits fl.F)
    (policy : Policy fl.F) (discovery : Discovery) (outside : Outside fl.F) where
  open fl use {F}

  module _ (caller : Caller) (request : Request) (service : Text) (path : Text) where
    abbrev pub Done : Type 0
    Done =
        Result (Routed fl env r q limits policy discovery outside)
        × Stores fl env r q limits policy discovery outside

    -- The stores are as before, and a response that is given is not one of an upstream.
    abbrev pub IsIdle : Stores fl env r q limits policy discovery outside → Done → Type 0
    IsIdle stores done =
        (done.1 ≡ stores)
        × ((routed : Routed fl env r q limits policy discovery outside)
            → done.0 ≡ ok routed
            → routed.called ≡ none)

    abbrev pub route : List (List ℕ) → Stores fl env r q limits policy discovery outside → Done
    route = proxy fl env r q limits policy discovery outside caller request service path

    ok-IsIdle :
        (routed : Routed fl env r q limits policy discovery outside)
        (stores : Stores fl env r q limits policy discovery outside)
        → routed.called ≡ none
        → IsIdle stores (ok routed, stores)
    ok-IsIdle routed stores quiet = (refl, λ other e. cc (e, quiet))

    raise-IsIdle :
        (e : Exc) (stores : Stores fl env r q limits policy discovery outside)
        → IsIdle stores (raise e, stores)
    raise-IsIdle e stores = (refl, λ other same. cc same)

    if-IsIdle :
        (b : Bool) (routed : Routed fl env r q limits policy discovery outside) (e : Exc)
        (stores : Stores fl env r q limits policy discovery outside)
        → routed.called ≡ none
        → IsIdle stores (if b then ok routed else raise e, stores)
    if-IsIdle true routed e stores quiet = ok-IsIdle routed stores quiet
    if-IsIdle false routed e stores quiet = raise-IsIdle e stores

    abbrev handled :
        RouteRule F
        → Text
        → Option Text
        → List ℕ
        → Stores fl env r q limits policy discovery outside
        → Done
    handled rule target host body stores =
        dispatched fl env r q limits policy discovery outside caller request service path rule
          target
          (with_host fl env r q limits policy discovery outside caller request service path host
            (forward_headers caller request))
          body stores

    body_step :
        (rule : RouteRule F) (target : Text) (host : Option Text) (chunks : List (List ℕ))
        (stores : Stores fl env r q limits policy discovery outside)
        → IsIdle stores (
            with_body fl env r q limits policy discovery outside caller request service path rule
              target host
              (read_body policy.max_request_body_bytes chunks 0 [])
              stores)
          ⊎ (length (whole chunks) ≤ policy.max_request_body_bytes)
            × (with_body fl env r q limits policy discovery outside caller request service path rule
                  target host
                  (read_body policy.max_request_body_bytes chunks 0 [])
                  stores
                ≡ handled rule target host (whole chunks) stores)
    unfolding with_body
    body_step rule target host chunks stores =
        elim (Bool-cases (ltb policy.max_request_body_bytes (length (whole chunks)))) [
          | inl over ↦ inl (
              rw (read_body_lem policy.max_request_body_bytes chunks, over)
                (ok-IsIdle _ stores refl))
          | inr within ↦ inr (
            ground arith,
            rw (with_body, read_body_lem policy.max_request_body_bytes chunks, within) refl,
          )
        ]

    -- The request is handled at its target, with the forwarded headers and its whole body.
    abbrev pub IsHandled :
        List (List ℕ) → Stores fl env r q limits policy discovery outside → Type 0
    IsHandled chunks stores =
        (base : Text) × (host : Option Text) × (target : Text) × (base_of fl env r q limits policy
            discovery outside caller request service path
          ≡ ok (base, host))
        × (build_target outside.urlsplit base path request.query ≡ ok target)
        × (length (whole chunks) ≤ policy.max_request_body_bytes)
        × (route chunks stores
            ≡ handled (get_route_rule policy.rules policy.default_rule service) target host
                (whole chunks) stores)

    -- A request touches the cache, the queue or an upstream only when its service has a base, its
    -- path and query give a target at that base, and its whole body is within the limit; it is then
    -- handled with that target, that body and the forwarded headers.
    pub proxy_boundary :
        (chunks : List (List ℕ)) (stores : Stores fl env r q limits policy discovery outside)
        → IsIdle stores (route chunks stores) ⊎ IsHandled chunks stores
    unfolding proxy at_base
    proxy_boundary chunks stores =
        let rule = get_route_rule policy.rules policy.default_rule service in
        elim (Result-cases
          (base_of fl env r q limits policy discovery outside caller request service path)) [
            | inr (e, failed) ↦ inl (rw (proxy, failed) (if-IsIdle _ _ e stores refl))
            | inl ((base, host), found) ↦
                elim (Result-cases (build_target outside.urlsplit base path request.query)) [
                  | inr (e, failed) ↦
                      inl (rw (proxy, found, at_base, failed) (if-IsIdle _ _ e stores refl))
                  | inl (target, built) ↦ elim (body_step rule target host chunks stores) [
                    | inl idle ↦ inl (rw (proxy, found, at_base, built) idle)
                    | inr (within, done) ↦ inr (
                      base,
                      host,
                      target,
                      found,
                      built,
                      within,
                      rw (proxy, found, at_base, built) done,
                    )
                  ]
                ]
          ]
