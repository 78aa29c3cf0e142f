-- ===== src/Prelude/Dicts.antt =====
-- Python's `dict` with text keys, in insertion order.
use mathlib.Core.Path.{◌≡◌, refl}
use mathlib.Core.Bool.{Bool, true, false}
use mathlib.Core.Option.{Option, none, some}
use mathlib.Core.List.{List, [], ◌∷◌}
use native.Mathlib.Omega.{arith}
use adaptive_gateway.Prelude.Tests.{if◌then◌else◌}
use adaptive_gateway.Prelude.Texts.{Text, text_eq, text_eq_iff, text_eq_refl}

abbrev pub Dict {ℓ} : Type ℓ → Type ℓ
Dict V = List (Text × V)

module _ {ℓ} {V : Type ℓ} where
  -- d.get(k)
  unfoldable pub lookup : Text → Dict V → Option V
  unfolding text_eq
  lookup k [] = none
  lookup k ((j, v) ∷ d) = if text_eq j k then some v else lookup k d

  -- k in d
  unfoldable pub has_key : Text → Dict V → Bool
  unfolding text_eq
  has_key k [] = false
  has_key k ((j, v) ∷ d) = if text_eq j k then true else has_key k d

  -- d[k] = v
  unfoldable pub insert : Text → V → Dict V → Dict V
  unfolding text_eq
  insert k v [] = (k, v) ∷ []
  insert k v ((j, w) ∷ d) = if text_eq j k then (j, v) ∷ d else (j, w) ∷ insert k v d

  -- d.pop(k, None)
  unfoldable pub pop : Text → Dict V → Dict V
  unfolding text_eq
  pop k [] = []
  pop k ((j, v) ∷ d) = if text_eq j k then pop k d else (j, v) ∷ pop k d

  pub lookup-insert :
      (k j : Text) (v : V) (d : Dict V)
      → lookup j (insert k v d) ≡ (if text_eq k j then some v else lookup j d)
  unfolding lookup insert
  lookup-insert k j v [] = refl
  lookup-insert k j v ((i, w) ∷ d) =
      ground (arith, text_eq_iff k j, text_eq_iff i k, text_eq_iff i j, lookup-insert k j v d)

  pub lookup-pop :
      (k j : Text) (d : Dict V) → lookup j (pop k d) ≡ (if text_eq k j then none else lookup j d)
  unfolding lookup pop
  lookup-pop k j [] = ground arith
  lookup-pop k j ((i, w) ∷ d) =
      ground (arith, text_eq_iff k j, text_eq_iff i k, text_eq_iff i j, lookup-pop k j d)

  pub lookup-insert_self : (k : Text) (v : V) (d : Dict V) → lookup k (insert k v d) ≡ some v
  lookup-insert_self k v d = simp (lookup-insert, text_eq_refl)

pub ruleset dict_laws = (lookup-insert, lookup-pop, text_eq_refl)
