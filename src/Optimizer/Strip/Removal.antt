-- ===== src/Optimizer/Strip/Removal.antt =====
-- No configured path survives.
use mathlib.Core.List.{map-append}
use adaptive_gateway.Prelude.{
  ◌≡◌, refl, Bool, true, false, ◌||◌, List, [], ◌∷◌, ◌++◌, map, arith, if◌then◌else◌,
}
use adaptive_gateway.Prelude.Texts.{Text, text_eq}
use adaptive_gateway.Json.{
  Json, null, bool, int, real, text, arr, obj, Items, nil, cons, Fields, end, field,
}
use adaptive_gateway.Optimizer.Strip.{
  path_of, descend, descend_items, pop_field, alter, strip_path, strip_paths, strip_fields,
}

pub parts-false : (a b : Bool) → (a || b) ≡ false → (a ≡ false) × (b ≡ false)
parts-false a b h = ground arith

module _ {F : Type 0} where
  -- Some object that is reached through lists alone satisfies `q`.
  unfoldable mutual
    pub reaches : (Fields F → Bool) → Json F → Bool
    reaches q (arr vs) = reaches_items q vs
    reaches q (obj fs) = q fs
    reaches q _ = false

    pub reaches_items : (Fields F → Bool) → Items F → Bool
    reaches_items q nil = false
    reaches_items q (cons v vs) = reaches q v || reaches_items q vs

  -- The object has the key `h`, with a value that satisfies `q`.
  unfoldable pub has_at : Text → (Json F → Bool) → Fields F → Bool
  has_at h q end = false
  has_at h q (field k v fs) = (if text_eq k h then q v else false) || has_at h q fs

  -- The object has the path, where lists on the way are searched.
  unfoldable pub has_path : List Text → Fields F → Bool
  has_path [] fs = false
  has_path (h ∷ []) fs = has_at h (λ _. true) fs
  has_path (h ∷ p ∷ ps) fs = has_at h (reaches (has_path (p ∷ ps))) fs

  mutual
    unfolding reaches descend

    -- Descending with `g` cannot make `q` true where it was not, if `g` cannot.
    reaches-descend :
        (q : Fields F → Bool) (g : Fields F → Fields F)
        → ((fs : Fields F) → q fs ≡ false → q (g fs) ≡ false)
        → (v : Json F) → reaches q v ≡ false
        → reaches q (descend g v) ≡ false
    reaches-descend q g keep (arr vs) h = reaches-descend_items q g keep vs h
    reaches-descend q g keep (obj fs) h = keep fs h
    reaches-descend q g keep null h = refl
    reaches-descend q g keep (bool b) h = refl
    reaches-descend q g keep (int n) h = refl
    reaches-descend q g keep (real x) h = refl
    reaches-descend q g keep (text s) h = refl

    reaches-descend_items :
        (q : Fields F → Bool) (g : Fields F → Fields F)
        → ((fs : Fields F) → q fs ≡ false → q (g fs) ≡ false)
        → (vs : Items F) → reaches_items q vs ≡ false
        → reaches_items q (descend_items g vs) ≡ false
    reaches-descend_items q g keep nil h = refl
    reaches-descend_items q g keep (cons v vs) h =
        let (here, later) = parts-false (reaches q v) (reaches_items q vs) h in
        rw (reaches-descend q g keep v here) (reaches-descend_items q g keep vs later)

  mutual
    unfolding reaches descend

    reaches-descend_never :
        (q : Fields F → Bool) (g : Fields F → Fields F)
        → ((fs : Fields F) → q (g fs) ≡ false)
        → (v : Json F) → reaches q (descend g v) ≡ false
    reaches-descend_never q g never (arr vs) = reaches-descend_items_never q g never vs
    reaches-descend_never q g never (obj fs) = never fs
    reaches-descend_never q g never null = refl
    reaches-descend_never q g never (bool b) = refl
    reaches-descend_never q g never (int n) = refl
    reaches-descend_never q g never (real x) = refl
    reaches-descend_never q g never (text s) = refl

    reaches-descend_items_never :
        (q : Fields F → Bool) (g : Fields F → Fields F)
        → ((fs : Fields F) → q (g fs) ≡ false)
        → (vs : Items F) → reaches_items q (descend_items g vs) ≡ false
    reaches-descend_items_never q g never nil = refl
    reaches-descend_items_never q g never (cons v vs) =
        rw (reaches-descend_never q g never v) (reaches-descend_items_never q g never vs)

  has_at-pop_field_self :
      (h : Text) (q : Json F → Bool) (fs : Fields F) → has_at h q (pop_field h fs) ≡ false
  unfolding has_at pop_field
  has_at-pop_field_self h q end = refl
  has_at-pop_field_self h q (field k v fs) = ground (arith, has_at-pop_field_self h q fs)

  has_at-pop_field :
      (h j : Text) (q : Json F → Bool) (fs : Fields F)
      → has_at h q fs ≡ false
      → has_at h q (pop_field j fs) ≡ false
  unfolding has_at pop_field
  has_at-pop_field h j q end e = refl
  has_at-pop_field h j q (field k v fs) e = ground (arith, has_at-pop_field h j q fs)

  has_at-alter :
      (h j : Text) (q : Json F → Bool) (g : Json F → Json F)
      → ((v : Json F) → q v ≡ false → q (g v) ≡ false)
      → (fs : Fields F) → has_at h q fs ≡ false
      → has_at h q (alter j g fs) ≡ false
  unfolding has_at alter
  has_at-alter h j q g keep end e = refl
  has_at-alter h j q g keep (field k v fs) e = ground (arith, keep v, has_at-alter h j q g keep fs)

  has_at-alter_self :
      (h : Text) (q : Json F → Bool) (g : Json F → Json F)
      → ((v : Json F) → q (g v) ≡ false)
      → (fs : Fields F) → has_at h q (alter h g fs) ≡ false
  unfolding has_at alter
  has_at-alter_self h q g never end = refl
  has_at-alter_self h q g never (field k v fs) =
      ground (arith, never v, has_at-alter_self h q g never fs)

  -- Stripping a path removes it.
  has_path-strip_path_self : (p : List Text) (fs : Fields F) → has_path p (strip_path p fs) ≡ false
  unfolding has_path strip_path
  has_path-strip_path_self [] fs = refl
  has_path-strip_path_self (h ∷ []) fs = has_at-pop_field_self h _ fs
  has_path-strip_path_self (h ∷ p ∷ ps) fs =
      has_at-alter_self h _ _
        (reaches-descend_never _ _ (λ gs. has_path-strip_path_self (p ∷ ps) gs)) fs

  -- Stripping another path does not bring it back.
  has_path-strip_path :
      (p r : List Text) (fs : Fields F)
      → has_path p fs ≡ false
      → has_path p (strip_path r fs) ≡ false
  unfolding has_path strip_path
  has_path-strip_path [] r fs e = refl
  has_path-strip_path p [] fs e = e
  has_path-strip_path (h ∷ []) (j ∷ []) fs e = has_at-pop_field h j _ fs e
  has_path-strip_path (h ∷ p ∷ ps) (j ∷ []) fs e = has_at-pop_field h j _ fs e
  has_path-strip_path (h ∷ []) (j ∷ r ∷ rs) fs e = has_at-alter h j _ _ (λ v n. n) fs e
  has_path-strip_path (h ∷ p ∷ ps) (j ∷ r ∷ rs) fs e =
      has_at-alter h j _ _ (reaches-descend _ _ (λ gs. has_path-strip_path (p ∷ ps) (r ∷ rs) gs)) fs
        e

  has_path-strip_paths :
      (p : List Text) (rs : List (List Text)) (fs : Fields F)
      → has_path p fs ≡ false
      → has_path p (strip_paths rs fs) ≡ false
  unfolding strip_paths
  has_path-strip_paths p [] fs e = e
  has_path-strip_paths p (r ∷ rs) fs e =
      has_path-strip_paths p rs (strip_path r fs) (has_path-strip_path p r fs e)

  strip_paths-append :
      (ps rs : List (List Text)) (fs : Fields F)
      → strip_paths (ps ++ rs) fs ≡ strip_paths rs (strip_paths ps fs)
  unfolding strip_paths
  strip_paths-append [] rs fs = refl
  strip_paths-append (p ∷ ps) rs fs = strip_paths-append ps rs (strip_path p fs)

  strip_paths-removes :
      (before after : List (List Text)) (p : List Text) (fs : Fields F)
      → has_path p (strip_paths (before ++ p ∷ after) fs) ≡ false
  strip_paths-removes before after p fs = rw (strip_paths-append before (p ∷ after) fs) (
      unfold strip_paths in
      has_path-strip_paths p after (strip_path p (strip_paths before fs))
        (has_path-strip_path_self p (strip_paths before fs)))

  -- Whatever the value and the order of the configured fields, no object that is reached through
  -- lists has the path of a configured field afterwards.
  pub strip_fields-removes :
      (before after : List Text) (f : Text) (v : Json F)
      → reaches (has_path (path_of f)) (strip_fields (before ++ f ∷ after) v) ≡ false
  unfolding strip_fields
  strip_fields-removes [] after f v =
      reaches-descend_never _ _ (strip_paths-removes [] (map path_of after) (path_of f)) v
  strip_fields-removes (b ∷ before) after f v =
      reaches-descend_never _ _
        (λ fs.
          rw (map-append path_of (b ∷ before) (f ∷ after))
            (strip_paths-removes (map path_of (b ∷ before)) (map path_of after) (path_of f) fs))
        v
