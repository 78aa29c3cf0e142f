-- ===== src/Optimizer/Strip/Paths.antt =====
-- `path_of` is what repeated `partition(".")` gives.
use adaptive_gateway.Prelude.{
  ℕ, ◌≡◌, refl, inl, inr, List, [], ◌∷◌, arith, ◌==◌, if◌then◌else◌, Bool-cases,
}
use adaptive_gateway.Prelude.Texts.{Text, partition}
use adaptive_gateway.Optimizer.Strip.{path_of, push}

-- The code's step: the head, and the path of the tail if that is not empty.
abbrev pub one_step : Text × Text → List Text
one_step (head, []) = head ∷ []
one_step (head, c ∷ tail) = head ∷ path_of (c ∷ tail)

push-one_step : (c : ℕ) (p : Text × Text) → push c (one_step p) ≡ one_step (c ∷ p.0, p.1)
push-one_step c (head, []) = refl
push-one_step c (head, d ∷ tail) = refl

partition-cons :
    (sep c : ℕ) (s : Text)
    → partition sep (c ∷ s)
      ≡ (if c == sep then ([], s) else (c ∷ (partition sep s).0, (partition sep s).1))
unfolding partition
partition-cons sep c s = refl

path_of-cons :
    (c d : ℕ) (s : Text)
    → path_of (c ∷ d ∷ s) ≡ (if c == b'.' then [] ∷ path_of (d ∷ s) else push c (path_of (d ∷ s)))
unfolding path_of
path_of-cons c d s = refl

branches :
    (c d : ℕ) (s : Text)
    → path_of (d ∷ s) ≡ one_step (partition b'.' (d ∷ s))
    → (if c == b'.' then [] ∷ path_of (d ∷ s) else push c (path_of (d ∷ s)))
      ≡ one_step (
          if c == b'.'
          then ([], d ∷ s)
          else (c ∷ (partition b'.' (d ∷ s)).0, (partition b'.' (d ∷ s)).1))
branches c d s ih = elim (Bool-cases (c == b'.')) [
  | inl dot ↦ rw dot
  | inr other ↦ rw other (rw ih (push-one_step c (partition b'.' (d ∷ s))))
]

next :
    (c d : ℕ) (s : Text)
    → path_of (d ∷ s) ≡ one_step (partition b'.' (d ∷ s))
    → path_of (c ∷ d ∷ s) ≡ one_step (partition b'.' (c ∷ d ∷ s))
next c d s ih = rw (path_of-cons c d s, partition-cons b'.' c (d ∷ s)) (branches c d s ih)

-- A field's path is the head before its first dot, followed by the path of what stands behind that
-- dot, if anything does.
pub path_of-partition : (f : Text) → path_of f ≡ one_step (partition b'.' f)
unfolding path_of partition
path_of-partition [] = refl
path_of-partition (c ∷ []) = ground arith
path_of-partition (c ∷ d ∷ s) = next c d s (path_of-partition (d ∷ s))
