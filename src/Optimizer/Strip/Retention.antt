-- ===== src/Optimizer/Strip/Retention.antt =====
-- What is not configured for removal stays where it is.
use mathlib.Core.Option
use adaptive_gateway.Prelude.{
  ℕ, zero, suc, ◌≡◌, refl, sym, ◌∙◌, ap, Bool, true, false, Option, none, some, List, [], ◌∷◌, map,
  arith, if◌then◌else◌, Bool-cases, All, inl, inr,
}
use adaptive_gateway.Prelude.Texts.{Text, text_eq, text_eq_iff}
use adaptive_gateway.Json.{
  Json, null, bool, int, real, text, arr, obj, Items, nil, cons, Fields, end, field,
}
use adaptive_gateway.Optimizer.Strip.{
  path_of, descend, descend_items, pop_field, alter, strip_path, strip_paths, strip_fields,
}

-- A place in a value: a key of an object, or an index of a list, at each step.
pub data Step : Type 0 where
  key : Text → Step
  index : ℕ → Step

infixl 5 ◌>>=◌
abbrev ◌>>=◌ : {A B : Type 0} → Option A → (A → Option B) → Option B
none >>= f = none
some a >>= f = f a

-- The keys of the place leave the configured path before either of them ends.
unfoldable pub diverges : List Step → List Text → Bool
diverges [] r = false
diverges (index i ∷ p) r = diverges p r
diverges (key a ∷ p) [] = false
diverges (key a ∷ p) (b ∷ r) = let deeper = diverges p r in if text_eq a b then deeper else true

diverges-nil : (p : List Step) → diverges p [] ≡ false
unfolding diverges
diverges-nil [] = refl
diverges-nil (index i ∷ p) = diverges-nil p
diverges-nil (key a ∷ p) = refl

ne_of_diverges :
    (a b : Text) (p : List Step) → diverges (key a ∷ p) (b ∷ []) ≡ true → text_eq a b ≡ false
unfolding diverges
ne_of_diverges a b p d = ground (arith, diverges-nil p)

below :
    (a b : Text) (p : List Step) (r : List Text)
    → text_eq a b ≡ true
    → diverges (key a ∷ p) (b ∷ r) ≡ true
    → diverges p r ≡ true
unfolding diverges
below a b p r e d = rw e at d

All-map :
    (p : List Step) (fs : List Text)
    → All (λ f. diverges p (path_of f) ≡ true) fs
    → All (λ r. diverges p r ≡ true) (map path_of fs)
All-map p [] d = tt
All-map p (f ∷ fs) (here, later) = (here, All-map p fs later)

module _ {F : Type 0} where
  unfoldable pub item_at : ℕ → Items F → Option (Json F)
  item_at i nil = none
  item_at zero (cons v vs) = some v
  item_at (suc i) (cons v vs) = item_at i vs

  unfoldable pub field_at : Text → Fields F → Option (Json F)
  field_at a end = none
  field_at a (field k v fs) = if text_eq k a then some v else field_at a fs

  unfoldable pub value_at : List Step → Json F → Option (Json F)
  value_at [] v = some v
  value_at (index i ∷ p) (arr vs) = item_at i vs >>= λ v. value_at p v
  value_at (key a ∷ p) (obj fs) = field_at a fs >>= λ v. value_at p v
  value_at (_ ∷ p) v = none

  item_at-descend_items :
      (i : ℕ) (g : Fields F → Fields F) (vs : Items F)
      → item_at i (descend_items g vs) ≡ Option.map (descend g) (item_at i vs)
  unfolding item_at descend
  item_at-descend_items i g nil = refl
  item_at-descend_items zero g (cons v vs) = refl
  item_at-descend_items (suc i) g (cons v vs) = item_at-descend_items i g vs

  field_at-pop_field :
      (a b : Text) (fs : Fields F)
      → text_eq a b ≡ false
      → field_at a (pop_field b fs) ≡ field_at a fs
  unfolding field_at pop_field
  field_at-pop_field a b end h = refl
  field_at-pop_field a b (field k v fs) h =
      ground (arith, text_eq_iff k a, text_eq_iff k b, text_eq_iff a b, field_at-pop_field a b fs h)

  field_at-alter_ne :
      (a b : Text) (g : Json F → Json F) (fs : Fields F)
      → text_eq a b ≡ false
      → field_at a (alter b g fs) ≡ field_at a fs
  unfolding field_at alter
  field_at-alter_ne a b g end h = refl
  field_at-alter_ne a b g (field k v fs) h =
      ground
        (arith, text_eq_iff k a, text_eq_iff k b, text_eq_iff a b, field_at-alter_ne a b g fs h)

  field_at-alter :
      (a b : Text) (g : Json F → Json F) (fs : Fields F)
      → text_eq a b ≡ true
      → field_at a (alter b g fs) ≡ Option.map g (field_at a fs)
  unfolding field_at alter
  field_at-alter a b g end h = refl
  field_at-alter a b g (field k v fs) h =
      ground (arith, text_eq_iff k a, text_eq_iff k b, text_eq_iff a b, field_at-alter a b g fs h)

  bind-map :
      (o : Option (Json F)) (g : Json F → Json F) (k : Json F → Option (Json F))
      → ((v : Json F) → k (g v) ≡ k v)
      → (Option.map g o >>= k) ≡ (o >>= k)
  bind-map none g k h = refl
  bind-map (some v) g k h = h v

  retain :
      (p : List Step) (r : List Text) (v : Json F)
      → diverges p r ≡ true
      → value_at p (descend (strip_path r) v) ≡ value_at p v
  unfolding value_at diverges descend strip_path
  retain [] r v d = cc
  retain (index i ∷ p) r (arr vs) d =
      rw item_at-descend_items (bind-map (item_at i vs) _ _ (λ v. retain p r v d))
  retain (index i ∷ p) r (obj fs) d = refl
  retain (index i ∷ p) r null d = refl
  retain (index i ∷ p) r (bool b) d = refl
  retain (index i ∷ p) r (int n) d = refl
  retain (index i ∷ p) r (real x) d = refl
  retain (index i ∷ p) r (text s) d = refl
  retain (key a ∷ p) [] v d = cc
  retain (key a ∷ p) (b ∷ []) (obj fs) d = rw (field_at-pop_field a b fs (ne_of_diverges a b p d))
  retain (key a ∷ p) (b ∷ c ∷ r) (obj fs) d = elim (Bool-cases (text_eq a b)) [
    | inl e ↦
        rw (field_at-alter a b _ fs e)
          (bind-map (field_at a fs) _ _ (λ v. retain p (c ∷ r) v (below a b p (c ∷ r) e d)))
    | inr e ↦ rw (field_at-alter_ne a b _ fs e)
  ]
  retain (key a ∷ p) (b ∷ r) (arr vs) d = refl
  retain (key a ∷ p) (b ∷ r) null d = refl
  retain (key a ∷ p) (b ∷ r) (bool c) d = refl
  retain (key a ∷ p) (b ∷ r) (int n) d = refl
  retain (key a ∷ p) (b ∷ r) (real x) d = refl
  retain (key a ∷ p) (b ∷ r) (text s) d = refl

  mutual
    unfolding descend

    descend-descend :
        (g h : Fields F → Fields F) (v : Json F)
        → descend g (descend h v) ≡ descend (λ fs. g (h fs)) v
    descend-descend g h (arr vs) = ap arr (descend-descend_items g h vs)
    descend-descend g h (obj fs) = refl
    descend-descend g h null = refl
    descend-descend g h (bool b) = refl
    descend-descend g h (int n) = refl
    descend-descend g h (real x) = refl
    descend-descend g h (text s) = refl

    descend-descend_items :
        (g h : Fields F → Fields F) (vs : Items F)
        → descend_items g (descend_items h vs) ≡ descend_items (λ fs. g (h fs)) vs
    descend-descend_items g h nil = refl
    descend-descend_items g h (cons v vs) =
        rw (descend-descend g h v) (rw (descend-descend_items g h vs))

  mutual
    unfolding descend strip_paths

    descend_nothing : (v : Json F) → descend (strip_paths []) v ≡ v
    descend_nothing (arr vs) = ap arr (descend_nothing_items vs)
    descend_nothing (obj fs) = refl
    descend_nothing null = refl
    descend_nothing (bool b) = refl
    descend_nothing (int n) = refl
    descend_nothing (real x) = refl
    descend_nothing (text s) = refl

    descend_nothing_items : (vs : Items F) → descend_items (strip_paths []) vs ≡ vs
    descend_nothing_items nil = refl
    descend_nothing_items (cons v vs) = rw (descend_nothing v) (rw (descend_nothing_items vs))

  descend_path :
      (r : List Text) (rs : List (List Text)) (v : Json F)
      → descend (strip_paths rs) (descend (strip_path r) v) ≡ descend (strip_paths (r ∷ rs)) v
  unfolding strip_paths
  descend_path r rs v = descend-descend (strip_paths rs) (strip_path r) v

  retain-All :
      (p : List Step) (rs : List (List Text)) (v : Json F)
      → All (λ r. diverges p r ≡ true) rs
      → value_at p (descend (strip_paths rs) v) ≡ value_at p v
  retain-All p [] v d = ap (value_at p) (descend_nothing v)
  retain-All p (r ∷ rs) v (here, later) =
      ap (value_at p) (sym (descend_path r rs v))
      ∙ retain-All p rs (descend (strip_path r) v) later
      ∙ retain p r v here

  -- The value at a place whose keys leave every configured path is kept as it is, in objects and in
  -- lists at any depth.
  pub strip_fields-retains :
      (p : List Step) (fields : List Text) (v : Json F)
      → All (λ f. diverges p (path_of f) ≡ true) fields
      → value_at p (strip_fields fields v) ≡ value_at p v
  unfolding strip_fields
  strip_fields-retains p [] v d = refl
  strip_fields-retains p (f ∷ fs) v d = retain-All p (map path_of (f ∷ fs)) v (All-map p (f ∷ fs) d)
