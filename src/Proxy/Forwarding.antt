-- ===== src/Proxy/Forwarding.antt =====
-- The headers that the upstream gets.
use adaptive_gateway.Prelude.{
  ◌≡◌, refl, Bool, true, false, none, some, List, [], ◌∷◌, arith, if◌then◌else◌,
}
use adaptive_gateway.Prelude.Texts.{Text, str, text_eq}
use adaptive_gateway.Prelude.Dicts.{Dict, lookup, pop, lookup-insert, lookup-pop}
use adaptive_gateway.Http.{value, Request}
use adaptive_gateway.ProxyHttp.{is_dropped}
use adaptive_gateway.ProxyHttp.Headers.{last_value, lookup-clean_headers}
use adaptive_gateway.Proxy.{Caller, overwritten, without, forward_headers}

abbrev is_in : Text → List Text → Bool
is_in k [] = false
is_in k (name ∷ names) = if text_eq name k then true else is_in k names

lookup-without :
    (k : Text) (names : List Text) (headers : Dict Text)
    → lookup k (without names headers) ≡ (if is_in k names then none else lookup k headers)
lookup-without k [] headers = refl
lookup-without k (name ∷ names) headers =
    ground (arith, lookup-without k names (pop name headers), lookup-pop name k headers)

-- The upstream gets the gateway's own X-Network-Quality, Accept-Encoding and X-Forwarded-For; none of
-- the forwarding headers that the client wrote in lower case, no hop-by-hop header and none that the
-- Connection header names; and every other header of the client with its last value.
pub lookup-forward_headers :
    (caller : Caller) (request : Request) (k : Text)
    → lookup k (forward_headers caller request) ≡ (
        if text_eq (str "X-Network-Quality") k
        then some (value caller.network_quality)
        else if text_eq (str "accept-encoding") k
        then some (str "identity")
        else if text_eq (str "X-Forwarded-For") k
        then some caller.ip
        else if is_in k overwritten
        then none
        else if is_dropped request.headers k
        then none
        else last_value k request.headers none)
unfolding forward_headers
lookup-forward_headers caller request k =
    rw
      (
        lookup-insert,
        lookup-insert,
        lookup-insert,
        lookup-without,
        lookup-clean_headers k request.headers,
      )
      refl
