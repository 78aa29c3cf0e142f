-- ===== src/ClientIdentity.antt =====
-- gateway/utils/client_identity.py: the address of the client behind trusted proxies.
pub mod Spoofing
mod Tests
use adaptive_gateway.Prelude.{
  ℕ, Bool, true, false, Option, none, some, List, [], ◌∷◌, default, length, ltb, if◌then◌else◌,
}
use adaptive_gateway.Prelude.Texts.{Text, str, split, strip}
use adaptive_gateway.Prelude.Dicts.{lookup}
use adaptive_gateway.Http.{Request}
use mathlib.Core.List.{reverse}

-- `parse_ip` is str(ip_address(s)), `none` for ValueError, and `in_networks` tells whether an
-- address is in one of settings.trusted_proxy_networks.
module _ (parse_ip : Text → Option Text) (in_networks : Text → Bool) where
  abbrev is_member : Option Text → Bool
  is_member none = false
  is_member (some address) = in_networks address

  abbrev pub trusted : Text → Bool
  trusted value = is_member (parse_ip value)

  abbrev parsed_hop : Text → Option Text
  parsed_hop hop = parse_ip (strip hop)

  -- for hop in reversed(chain), from the nearest hop
  unfoldable pub walk : Text → Text → List Text → Text
  walk peer current [] = current
  walk peer current (hop ∷ hops) = elim (trusted current) [
    | false ↦ current
    | true ↦ elim (parsed_hop hop) [ none ↦ peer | some address ↦ walk peer address hops ]
  ]

  abbrev pub peer_of : Request → Text
  peer_of request = default request.peer (str "unknown")

  unfoldable pub client_ip : Request → Text
  client_ip request =
      let peer = peer_of request in
      let chain = split b',' (default (lookup (str "x-forwarded-for") request.headers) []) in
      if trusted peer
      then (if ltb 32 (length chain) then peer else walk peer peer (reverse chain))
      else peer
