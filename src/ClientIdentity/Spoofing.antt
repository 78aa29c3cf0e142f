-- ===== src/ClientIdentity/Spoofing.antt =====
-- A client cannot choose the address under which the gateway knows it.
use adaptive_gateway.Prelude.{◌≡◌, Bool, true, Option, some, List}
use adaptive_gateway.Prelude.Texts.{Text, strip}
use adaptive_gateway.ClientIdentity.{trusted}

module _ (parse_ip : Text → Option Text) (in_networks : Text → Bool) where
  -- A hop that a trusted proxy has written about another one.
  abbrev pub IsTrustedHop : Text → Type 0
  IsTrustedHop hop =
      (address : Text) × (parse_ip (strip hop) ≡ some address)
      × (trusted parse_ip in_networks address ≡ true)
