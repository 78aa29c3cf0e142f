-- ===== src/ClientIdentity/Tests.antt =====
-- A client that forges X-Forwarded-For behind one trusted proxy.
use adaptive_gateway.Prelude.{◌≡◌, refl, Bool, Option, some, [], ◌∷◌}
use adaptive_gateway.Prelude.Texts.{Text, str, text_eq, texts}
use adaptive_gateway.Prelude.Dicts.{lookup}
use adaptive_gateway.Http.{Request}
use adaptive_gateway.ClientIdentity.{client_ip, walk}

abbrev parse_ip : Text → Option Text
parse_ip s = some s

abbrev is_proxy : Text → Bool
unfolding text_eq
is_proxy = text_eq (str "10.0.0.1")

abbrev forging : Request
forging = record {
  method = str "GET";
  path = str "/";
  query = [];
  headers = (str "x-forwarded-for", str "10.0.0.1,8.8.8.8, 7.7.7.7") ∷ [];
  peer = some (str "10.0.0.1");
}

found : client_ip parse_ip is_proxy forging ≡ str "7.7.7.7"
unfolding client_ip walk texts lookup
found = refl
