-- ===== src/Optimizer/Strip.antt =====
-- `_strip_fields`. A configured field is a dotted path; it is used as the list of its parts.
-- The keys of an object that json.loads built are distinct, so popping or replacing one of them
-- touches one item.
pub mod Paths
pub mod Removal
pub mod Retention
use adaptive_gateway.Prelude.{
  ℕ, Bool, true, false, Option, none, some, List, [], ◌∷◌, map, ◌==◌, if◌then◌else◌,
}
use adaptive_gateway.Prelude.Texts.{Text, text_eq}
use adaptive_gateway.Json.{
  Json, null, bool, int, real, text, arr, obj, Items, nil, cons, Fields, end, field,
}

abbrev push : ℕ → List Text → List Text
push c [] = (c ∷ []) ∷ []
push c (p ∷ ps) = (c ∷ p) ∷ ps

-- The heads that `field.partition(".")` gives when it is called again on each nonempty tail.
unfoldable pub path_of : Text → List Text
path_of [] = [] ∷ []
path_of (c ∷ []) = if c == b'.' then [] ∷ [] else (c ∷ []) ∷ []
path_of (c ∷ d ∷ s) = let rest = path_of (d ∷ s) in if c == b'.' then [] ∷ rest else push c rest

module _ {F : Type 0} where
  -- Apply `g` to the objects that are reached through lists alone.
  unfoldable mutual
    pub descend : (Fields F → Fields F) → Json F → Json F
    descend g (arr vs) = arr (descend_items g vs)
    descend g (obj fs) = obj (g fs)
    descend g null = null
    descend g (bool b) = bool b
    descend g (int n) = int n
    descend g (real x) = real x
    descend g (text s) = text s

    pub descend_items : (Fields F → Fields F) → Items F → Items F
    descend_items g nil = nil
    descend_items g (cons v vs) = cons (descend g v) (descend_items g vs)

  -- result.pop(head, None)
  unfoldable pub pop_field : Text → Fields F → Fields F
  pop_field h end = end
  pop_field h (field k v fs) =
      let rest = pop_field h fs in if text_eq k h then rest else field k v rest

  -- if head in result: result[head] = g(result[head])
  unfoldable pub alter : Text → (Json F → Json F) → Fields F → Fields F
  alter h g end = end
  alter h g (field k v fs) =
      let rest = alter h g fs in if text_eq k h then field k (g v) rest else field k v rest

  -- One round of the loop over the fields.
  unfoldable pub strip_path : List Text → Fields F → Fields F
  strip_path [] fs = fs
  strip_path (h ∷ []) fs = pop_field h fs
  strip_path (h ∷ p ∷ ps) fs = alter h (descend (strip_path (p ∷ ps))) fs

  unfoldable pub strip_paths : List (List Text) → Fields F → Fields F
  strip_paths [] fs = fs
  strip_paths (p ∷ ps) fs = strip_paths ps (strip_path p fs)

  unfoldable pub strip_fields : List Text → Json F → Json F
  strip_fields [] v = v
  strip_fields (f ∷ fs) v = descend (strip_paths (map path_of (f ∷ fs))) v
