-- ===== src/Optimizer/Skeleton/Laws.antt =====
-- The bounds of a skeleton, and that it has no configured path either.
use adaptive_gateway.Prelude.{ℕ, zero, suc, ◌≤◌, ◌≡◌, refl, Bool, false, List, [], ◌∷◌, ◌++◌, arith}
use adaptive_gateway.Prelude.Texts.{Text}
use adaptive_gateway.Json.{
  Json, null, bool, int, real, text, arr, obj, Items, nil, cons, Fields, end, field,
}
use adaptive_gateway.Optimizer.Strip.{path_of, strip_fields}
use adaptive_gateway.Optimizer.Strip.Removal.{
  parts-false, reaches, reaches_items, has_at, has_path, strip_fields-removes,
}
use adaptive_gateway.Optimizer.Skeleton.{
  skeleton_max_array_items, truncate, truncate_items, truncate_fields, make_skeleton,
}

module _ {F : Type 0} where
  unfoldable pub count_items : Items F → ℕ
  count_items nil = 0
  count_items (cons v vs) = suc (count_items vs)

  -- No list at any depth has more than `n` items.
  mutual
    pub IsWithin : ℕ → Json F → Type 0
    IsWithin n (arr vs) = (count_items vs ≤ n) × AreWithin n vs
    IsWithin n (obj fs) = FieldsWithin n fs
    IsWithin n _ = Unit

    pub AreWithin : ℕ → Items F → Type 0
    AreWithin n nil = Unit
    AreWithin n (cons v vs) = IsWithin n v × AreWithin n vs

    pub FieldsWithin : ℕ → Fields F → Type 0
    FieldsWithin n end = Unit
    FieldsWithin n (field k v fs) = IsWithin n v × FieldsWithin n fs

  mutual
    unfolding truncate IsWithin count_items

    truncate-IsWithin : (v : Json F) → IsWithin skeleton_max_array_items (truncate v)
    truncate-IsWithin (arr vs) = truncate_items-AreWithin skeleton_max_array_items vs
    truncate-IsWithin (obj fs) = truncate_fields-FieldsWithin fs
    truncate-IsWithin null = tt
    truncate-IsWithin (bool b) = tt
    truncate-IsWithin (int n) = tt
    truncate-IsWithin (real x) = tt
    truncate-IsWithin (text s) = tt

    truncate_items-AreWithin :
        (n : ℕ) (vs : Items F)
        → (count_items (truncate_items n vs) ≤ n)
          × AreWithin skeleton_max_array_items (truncate_items n vs)
    truncate_items-AreWithin n nil = (omega arith, tt)
    truncate_items-AreWithin zero (cons v vs) = (omega arith, tt)
    truncate_items-AreWithin (suc n) (cons v vs) =
        let (few, within) = truncate_items-AreWithin n vs in
        (omega arith, (truncate-IsWithin v, within))

    truncate_fields-FieldsWithin :
        (fs : Fields F) → FieldsWithin skeleton_max_array_items (truncate_fields fs)
    truncate_fields-FieldsWithin end = tt
    truncate_fields-FieldsWithin (field k v fs) =
        (truncate-IsWithin v, truncate_fields-FieldsWithin fs)

  mutual
    unfolding truncate reaches

    reaches-truncate :
        (q : Fields F → Bool)
        → ((fs : Fields F) → q fs ≡ false → q (truncate_fields fs) ≡ false)
        → (v : Json F) → reaches q v ≡ false
        → reaches q (truncate v) ≡ false
    reaches-truncate q keep (arr vs) h = reaches-truncate_items q keep skeleton_max_array_items vs h
    reaches-truncate q keep (obj fs) h = keep fs h
    reaches-truncate q keep null h = refl
    reaches-truncate q keep (bool b) h = refl
    reaches-truncate q keep (int n) h = refl
    reaches-truncate q keep (real x) h = refl
    reaches-truncate q keep (text s) h = refl

    reaches-truncate_items :
        (q : Fields F → Bool)
        → ((fs : Fields F) → q fs ≡ false → q (truncate_fields fs) ≡ false)
        → (n : ℕ) (vs : Items F) → reaches_items q vs ≡ false
        → reaches_items q (truncate_items n vs) ≡ false
    reaches-truncate_items q keep n nil h = refl
    reaches-truncate_items q keep zero (cons v vs) h = refl
    reaches-truncate_items q keep (suc n) (cons v vs) h =
        let (here, later) = parts-false (reaches q v) (reaches_items q vs) h in
        rw (reaches-truncate q keep v here) (reaches-truncate_items q keep n vs later)

  has_at-truncate_fields :
      (h : Text) (q : Json F → Bool)
      → ((v : Json F) → q v ≡ false → q (truncate v) ≡ false)
      → (fs : Fields F) → has_at h q fs ≡ false
      → has_at h q (truncate_fields fs) ≡ false
  unfolding has_at truncate
  has_at-truncate_fields h q keep end e = refl
  has_at-truncate_fields h q keep (field k v fs) e =
      ground (arith, keep v, has_at-truncate_fields h q keep fs)

  has_path-truncate_fields :
      (p : List Text) (fs : Fields F)
      → has_path p fs ≡ false
      → has_path p (truncate_fields fs) ≡ false
  unfolding has_path
  has_path-truncate_fields [] fs e = refl
  has_path-truncate_fields (h ∷ []) fs e = has_at-truncate_fields h _ (λ v n. n) fs e
  has_path-truncate_fields (h ∷ p ∷ ps) fs e =
      has_at-truncate_fields h _ (reaches-truncate _ (has_path-truncate_fields (p ∷ ps))) fs e

  -- A skeleton has at most ten items in every list, at any depth, and no configured path.
  pub make_skeleton_minimal :
      (before after : List Text) (f : Text) (v : Json F)
      → IsWithin 10 (make_skeleton v (before ++ f ∷ after))
        × (reaches (has_path (path_of f)) (make_skeleton v (before ++ f ∷ after)) ≡ false)
  unfolding make_skeleton
  make_skeleton_minimal before after f v = (
    truncate-IsWithin (strip_fields (before ++ f ∷ after) v),
    reaches-truncate _ (has_path-truncate_fields (path_of f)) _
        (strip_fields-removes before after f v),
  )
