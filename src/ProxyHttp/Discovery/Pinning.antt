-- ===== src/ProxyHttp/Discovery/Pinning.antt =====
-- Where a discovered upstream may be.
use adaptive_gateway.Prelude.{
  ◌≡◌, Bool, true, false, List, [], ◌∷◌, ◌++◌, All, any, arith, Bool-cases, inl, inr,
}
use adaptive_gateway.Prelude.Texts.{Text, str, less, lower}
use adaptive_gateway.Prelude.Results.{Result, ok, Result-cases}
use adaptive_gateway.ProxyHttp.Discovery.{
  Discovery, is_host_name, is_below, pinned, first_sorted, authority, any_private,
  discover_upstream,
}

module _ (resolve : Text → Result (List Text)) (is_global : Text → Result Bool) where
  abbrev pub IsGlobal : Text → Type 0
  IsGlobal ip = is_global ip ≡ ok true

  any_private-All :
      (ips : List Text) → any_private resolve is_global ips ≡ ok false → All IsGlobal ips
  unfolding any_private
  any_private-All [] _ = tt
  any_private-All (ip ∷ ips) public = (ground arith, any_private-All ips (ground arith))

  first_sorted-IsGlobal :
      (ip : Text) (ips : List Text)
      → IsGlobal ip
      → All IsGlobal ips
      → IsGlobal (first_sorted ip ips)
  unfolding first_sorted
  first_sorted-IsGlobal ip [] g _ = g
  first_sorted-IsGlobal ip (other ∷ ips) g (h, rest) = elim (Bool-cases (less other ip)) [
    | inl e ↦ rw e (first_sorted-IsGlobal other ips h rest)
    | inr e ↦ rw e (first_sorted-IsGlobal ip ips g rest)
  ]

  abbrev Pinned : Text → List Text → Type 0
  Pinned url ips =
      All IsGlobal ips
      × (address : Text) × IsGlobal address
      × (url ≡ str "http://" ++ authority address)

  pinned_lem :
      (host url host' : Text) (ips : List Text)
      → pinned resolve is_global host ips ≡ ok (url, host')
      → (host' ≡ host) × Pinned url ips
  pinned_lem host url host' [] found = ground arith
  pinned_lem host url host' (ip ∷ ips) found =
      let all_global = any_private-All (ip ∷ ips) (ground arith) in
      (
        ground arith,
        (
          all_global,
          first_sorted ip ips,
          first_sorted-IsGlobal ip ips all_global.0 all_global.1,
          ground arith,
        ),
      )

  -- A discovered upstream is an http URL pinned to an address that is global, as are all addresses
  -- of its host, which is the lower-case name of the service and lies below an allowed domain.
  pub discover_upstream-IsGlobal :
      (settings : Discovery) (service url host : Text)
      → discover_upstream resolve is_global settings service ≡ ok (url, host)
      → (settings.allow_unlisted_upstreams ≡ true)
        × (is_host_name service ≡ true)
        × (host ≡ lower service)
        × (any (is_below host) settings.upstream_discovery_domains ≡ true)
        × (ips : List Text) × (resolve host ≡ ok ips)
        × All IsGlobal ips
        × (address : Text) × IsGlobal address
        × (url ≡ str "http://" ++ authority address)
  unfolding discover_upstream
  discover_upstream-IsGlobal settings service url host found =
      elim (Result-cases (resolve (lower service))) [
        | inl (ips, resolved) ↦
            let pin = pinned_lem (lower service) url host ips (ground arith) in
            (
              ground arith,
              ground arith,
              pin.0,
              ground arith,
              ips,
              ground arith,
              pin.1.0,
              pin.1.1,
              pin.1.2,
              pin.1.3,
            )
        | inr (e, failed) ↦ ground arith
      ]
