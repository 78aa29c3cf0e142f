-- ===== src/Prelude/Sorting.antt =====
-- Python's `sorted`, which is stable, and how often a test holds in a list.
use Prim.Native.Nat.{ℕ, ◌+◌, ◌≤◌}
use mathlib.Core.Path.{◌≡◌, refl, ap}
use mathlib.Core.Bool.{Bool, true, false}
use mathlib.Core.Logic.{inl, inr}
use mathlib.Core.List.{List, [], ◌∷◌, ◌++◌}
use native.Mathlib.Omega.{arith}
use adaptive_gateway.Prelude.Tests.{if◌then◌else◌, Bool-cases}
use adaptive_gateway.Prelude.Lists.{All, any}

abbrev pub bit : Bool → ℕ
bit true = 1
bit false = 0

-- sum(p(x) for x in xs)
abbrev pub tally {ℓ} : {A : Type ℓ} → (A → Bool) → List A → ℕ
tally p [] = 0
tally p (x ∷ xs) = bit (p x) + tally p xs

pub tally-append {ℓ} :
    {A : Type ℓ} (p : A → Bool) (xs ys : List A) → tally p (xs ++ ys) ≡ tally p xs + tally p ys
tally-append p [] ys = omega arith
tally-append p (x ∷ xs) ys = omega (arith, tally-append p xs ys)

module _ {ℓ} {A : Type ℓ} (le : A → A → Bool) where
  -- before the first element that is not smaller
  unfoldable pub insert : A → List A → List A
  insert x [] = x ∷ []
  insert x (y ∷ ys) = let rest = insert x ys in if le x y then x ∷ y ∷ ys else y ∷ rest

  unfoldable pub sorted : List A → List A
  sorted [] = []
  sorted (x ∷ xs) = insert x (sorted xs)

  abbrev pub IsSorted : List A → Type 0
  IsSorted [] = Unit
  IsSorted (x ∷ xs) = All (λ y. le x y ≡ true) xs × IsSorted xs

  tally-insert :
      (p : A → Bool) (x : A) (xs : List A) → tally p (insert x xs) ≡ bit (p x) + tally p xs
  unfolding insert
  tally-insert p x [] = refl
  tally-insert p x (y ∷ ys) = elim (Bool-cases (le x y)) [
    | inl e ↦ rw e refl
    | inr e ↦ rw e (omega (arith, tally-insert p x ys))
  ]

  pub tally-sorted : (p : A → Bool) (xs : List A) → tally p (sorted xs) ≡ tally p xs
  unfolding sorted
  tally-sorted p [] = refl
  tally-sorted p (x ∷ xs) = omega (arith, tally-insert p x (sorted xs), tally-sorted p xs)

  All-insert {κ} : (P : A → Type κ) (x : A) (xs : List A) → P x → All P xs → All P (insert x xs)
  unfolding insert
  All-insert P x [] h hs = (h, tt)
  All-insert P x (y ∷ ys) h (hy, hs) = elim (Bool-cases (le x y)) [
    | inl e ↦ rw e (h, (hy, hs))
    | inr e ↦ rw e (hy, All-insert P x ys h hs)
  ]

  pub All-sorted {κ} : (P : A → Type κ) (xs : List A) → All P xs → All P (sorted xs)
  unfolding sorted
  All-sorted P [] h = tt
  All-sorted P (x ∷ xs) (h, hs) = All-insert P x (sorted xs) h (All-sorted P xs hs)

  -- where the order is total and transitive
  module _ (total : (x y : A) → le x y ≡ false → le y x ≡ true)
      (trans : (x y z : A) → le x y ≡ true → le y z ≡ true → le x z ≡ true) where
    All-le :
        (x y : A) (xs : List A)
        → le x y ≡ true
        → All (λ z. le y z ≡ true) xs
        → All (λ z. le x z ≡ true) xs
    All-le x y [] h hs = tt
    All-le x y (z ∷ zs) h (hz, hs) = (trans x y z h hz, All-le x y zs h hs)

    insert-IsSorted : (x : A) (xs : List A) → IsSorted xs → IsSorted (insert x xs)
    unfolding insert
    insert-IsSorted x [] s = (tt, tt)
    insert-IsSorted x (y ∷ ys) (b, s) = elim (Bool-cases (le x y)) [
      | inl e ↦ rw e ((e, All-le x y ys e b), (b, s))
      | inr e ↦ rw e (All-insert (λ z. le y z ≡ true) x ys (total x y e) b, insert-IsSorted x ys s)
    ]

    pub sorted-IsSorted : (xs : List A) → IsSorted (sorted xs)
    unfolding sorted
    sorted-IsSorted [] = tt
    sorted-IsSorted (x ∷ xs) = insert-IsSorted x (sorted xs) (sorted-IsSorted xs)

module _ {ℓ} {A : Type ℓ} (p : A → Bool) where
  pub any-tally : (xs : List A) → any p xs ≡ true → 1 ≤ tally p xs
  any-tally [] h = cc
  any-tally (x ∷ xs) h = elim (Bool-cases (p x)) [
    | inl e ↦ omega (arith, ap bit e)
    | inr e ↦ let g = rw e at h in omega (arith, any-tally xs g)
  ]

  pub not_any-tally : (xs : List A) → any p xs ≡ false → tally p xs ≡ 0
  not_any-tally [] h = refl
  not_any-tally (x ∷ xs) h = elim (Bool-cases (p x)) [
    | inl e ↦ let g = rw e at h in cc
    | inr e ↦ let g = rw e at h in omega (arith, ap bit e, not_any-tally xs g)
  ]
