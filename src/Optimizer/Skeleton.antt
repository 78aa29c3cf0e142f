-- ===== src/Optimizer/Skeleton.antt =====
-- `_make_skeleton`, and the comparison of the transformed value with the parsed one.
pub mod Laws
use adaptive_gateway.Prelude.{ℕ, zero, suc, Bool, true, false, ◌&&◌, List, ◌==◌, if◌then◌else◌}
use adaptive_gateway.Prelude.Texts.{Text, text_eq}
use adaptive_gateway.Prelude.Ints.{ℤ, pos, negsuc}
use adaptive_gateway.Json.{
  Json, null, bool, int, real, text, arr, obj, Items, nil, cons, Fields, end, field,
}
use adaptive_gateway.Optimizer.Strip.{strip_fields}

-- SKELETON_MAX_ARRAY_ITEMS
abbrev pub skeleton_max_array_items : ℕ
skeleton_max_array_items = 10

abbrev int_eq : ℤ → ℤ → Bool
int_eq (pos m) (pos n) = m == n
int_eq (negsuc m) (negsuc n) = m == n
int_eq _ _ = false

abbrev bool_eq : Bool → Bool → Bool
bool_eq true b = b
bool_eq false b = if b then false else true

module _ {F : Type 0} where
  -- `truncate_items n vs` is `[truncate(item) for item in vs[:n]]`.
  unfoldable mutual
    pub truncate : Json F → Json F
    truncate (arr vs) = arr (truncate_items skeleton_max_array_items vs)
    truncate (obj fs) = obj (truncate_fields fs)
    truncate null = null
    truncate (bool b) = bool b
    truncate (int n) = int n
    truncate (real x) = real x
    truncate (text s) = text s

    pub truncate_items : ℕ → Items F → Items F
    truncate_items n nil = nil
    truncate_items zero (cons v vs) = nil
    truncate_items (suc n) (cons v vs) = cons (truncate v) (truncate_items n vs)

    pub truncate_fields : Fields F → Fields F
    truncate_fields end = end
    truncate_fields (field k v fs) = field k (truncate v) (truncate_fields fs)

  unfoldable pub make_skeleton : Json F → List Text → Json F
  make_skeleton v fields = truncate (strip_fields fields v)

  -- transformed == data, with `eq` on numbers. The transformations keep the order of the items and
  -- the kind of a scalar, so the items are compared in order and the scalars kind by kind.
  module _ (eq : F → F → Bool) where
    unfoldable mutual
      pub json_eq : Json F → Json F → Bool
      json_eq null null = true
      json_eq (bool a) (bool b) = bool_eq a b
      json_eq (int a) (int b) = int_eq a b
      json_eq (real a) (real b) = eq a b
      json_eq (text a) (text b) = text_eq a b
      json_eq (arr a) (arr b) = items_eq a b
      json_eq (obj a) (obj b) = fields_eq a b
      json_eq _ _ = false

      pub items_eq : Items F → Items F → Bool
      items_eq nil nil = true
      items_eq (cons v vs) (cons w ws) = json_eq v w && items_eq vs ws
      items_eq _ _ = false

      pub fields_eq : Fields F → Fields F → Bool
      fields_eq end end = true
      fields_eq (field k v fs) (field j w gs) = text_eq k j && (json_eq v w && fields_eq fs gs)
      fields_eq _ _ = false
