-- ===== src/Config/Rules.antt =====
-- gateway/config.py: ROUTE_RULES and the loading of gateway.yaml.
pub mod Reload
use adaptive_gateway.Prelude.{
  ℕ, Bool, true, false, not, ◌||◌, Option, none, some, List, [], ◌∷◌, ◌++◌, map, any, default,
  if◌then◌else◌,
}
use adaptive_gateway.Prelude.Texts.{Text, str, text_eq, among}
use adaptive_gateway.Prelude.Dicts.{Dict, insert}
use adaptive_gateway.Prelude.Results.{
  Exc, value_error, type_error, unicode_error, yaml_error, Result, ok, raise, ◌>>=◌, refuse_if,
}
use adaptive_gateway.Config.{RouteRule, Url, validate_upstream_url}

-- What yaml.safe_load returns: a text, a mapping, or any other value.
mutual
  pub data Node : Type 0 where
    text : Text → Node
    other : Node
    mapping : Entries → Node

  pub data Entries : Type 0 where
    end : Entries
    entry : Node → Node → Entries → Entries

abbrev pub entries_of : Entries → List (Node × Node)
entries_of end = []
entries_of (entry key value entries) = (key, value) ∷ entries_of entries

-- The values that were loaded last: ROUTE_RULES, settings.upstream_services, _loaded_yaml_path.
pub record Active (F : Type 0) : Type 0 where
  pub rules : Dict (RouteRule F)
  pub upstreams : Dict Text
  pub loaded : Option Text

abbrev pub plain_rule : {F : Type 0} → RouteRule F
plain_rule = record {
  cacheable = true;
  cache_ttl = 60;
  optional_fields = [];
  upstream_timeout = none;
  queue_writes = false;
}

-- ROUTE_RULES as the module defines it, which _BUILTIN_RULES copies.
abbrev pub builtin_rules : {F : Type 0} → Dict (RouteRule F)
builtin_rules =
    (str "_default", plain_rule)
    ∷ (
      str "jsonplaceholder",
      record plain_rule { cache_ttl = 300; optional_fields = str "body" ∷ str "completed" ∷ [] },
    )
    ∷ []

-- d.update(items)
unfoldable pub update : {V : Type 0} → List (Text × V) → Dict V → Dict V
update [] d = d
update ((k, v) ∷ items) d = update items (insert k v d)

abbrev mapping_of : Node → Result Entries
mapping_of (mapping entries) = ok entries
mapping_of _ = raise value_error

abbrev text_of : Node → Result Text
text_of (text s) = ok s
text_of _ = raise value_error

abbrev is_named : Text → Node → Bool
is_named name (text s) = text_eq s name
is_named name _ = false

-- document.get(name, {})
unfoldable pub section_of : Text → List (Node × Node) → Node
section_of name [] = mapping end
section_of name ((key, value) ∷ items) =
    let later = section_of name items in if is_named name key then value else later

-- set(document) - {"upstreams", "rules"}
abbrev has_unknown : List (Node × Node) → Bool
has_unknown = any (λ item. not (is_named (str "upstreams") item.0 || is_named (str "rules") item.0))

-- A name that is no text is validated, and left out, as get_route_rule never asks for it.
abbrev named : {F : Type 0} → Node → RouteRule F → Dict (RouteRule F) → Dict (RouteRule F)
named (text name) rule rules = (name, rule) ∷ rules
named _ rule rules = rules

-- The file that a load finds, its text, and what the YAML parser makes of it.
pub record Source : Type 0 where
  pub path : Option Text
  pub read_text : Result Text
  pub safe_load : Text → Result Node

-- except (yaml.YAMLError, ValueError, TypeError)
abbrev pub generic : {A : Type 0} → Result A → Result A
generic (ok a) = ok a
generic (raise unicode_error) = raise value_error
generic (raise yaml_error) = raise value_error
generic (raise type_error) = raise value_error
generic (raise e) = raise e

-- RouteRule.model_validate raises ValidationError, which is a ValueError.
module _ {F : Type 0} (urlsplit : Text → Result Url)
    (model_validate : Node → Result (RouteRule F)) where
  unfoldable pub parse_entries : List (Node × Node) → Result (Dict (RouteRule F))
  parse_entries [] = ok []
  parse_entries ((name, value) ∷ items) =
      model_validate value >>= λ rule. parse_entries items >>= λ rules. ok (named name rule rules)

  unfoldable pub parse_rules : Node → Result (Dict (RouteRule F))
  parse_rules raw = mapping_of raw >>= λ entries. parse_entries (entries_of entries)

  -- for name, base in raw_upstreams.items()
  unfoldable pub add_upstreams : List (Node × Node) → Dict Text → Result (Dict Text)
  add_upstreams [] upstreams = ok upstreams
  add_upstreams ((name, base) ∷ items) upstreams = text_of name >>= λ name'.
      text_of base >>= λ base'. validate_upstream_url urlsplit base' >>= λ url.
      add_upstreams items (insert name' url upstreams)

  -- The upstreams and the rules of a document, with those of the environment and the module.
  unfoldable pub configured : Dict Text → Node → Result (Dict Text × Dict (RouteRule F))
  configured env document = mapping_of document >>= λ sections.
      refuse_if (has_unknown (entries_of sections)) value_error >>= λ _.
      mapping_of (section_of (str "upstreams") (entries_of sections)) >>= λ raw.
      add_upstreams (entries_of raw) env >>= λ upstreams.
      parse_rules (section_of (str "rules") (entries_of sections)) >>= λ rules.
      ok (upstreams, update rules builtin_rules)

  abbrev pub with_document :
      Text → Result (Dict Text × Dict (RouteRule F)) → Active F → Result (Option Text) × Active F
  with_document path (raise e) active = (raise e, active)
  with_document path (ok (upstreams, rules)) active =
      (ok (some path), record { rules = rules; upstreams = upstreams; loaded = some path })

  -- Without a file the built-in rules and the environment's upstreams are active.
  abbrev pub with_path :
      Dict Text
      → Option Text
      → Result (Dict Text × Dict (RouteRule F))
      → Active F
      → Result (Option Text) × Active F
  with_path env none parsed active =
      (ok none, record { rules = builtin_rules; upstreams = env; loaded = none })
  with_path env (some path) parsed active = with_document path (generic parsed) active

  abbrev pub parsed : Dict Text → Source → Result (Dict Text × Dict (RouteRule F))
  parsed env source = source.read_text >>= source.safe_load >>= configured env

  unfoldable pub load_route_rules : Dict Text → Source → Active F → Result (Option Text) × Active F
  load_route_rules env source active = with_path env source.path (parsed env source) active

  -- Loads one after the other, in one process.
  unfoldable pub reload_all : Dict Text → List Source → Active F → Active F
  reload_all env [] active = active
  reload_all env (source ∷ sources) active =
      reload_all env sources (load_route_rules env source active).1
