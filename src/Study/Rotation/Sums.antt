-- ===== src/Study/Rotation/Sums.antt =====
-- benchmarks/run_study.py: sums over trials, and what stands where in a rotated list.
use adaptive_gateway.Prelude.{
  ℕ, zero, suc, ◌+◌, ◌-◌, ◌<◌, ◌≤◌, ◌≡◌, refl, sym, ◌∙◌, Bool, List, [], ◌∷◌, ◌++◌, map, take,
  length, get_elem?, arith,
}
use adaptive_gateway.Prelude.Sorting.{tally, tally-append}
use adaptive_gateway.Study.Pool.Sequence.{range}
use adaptive_gateway.Study.Observations.{concat}
use adaptive_gateway.Study.Rotation.{drop, rotated}

-- sum(f(t) for t in ts)
abbrev pub total : (ℕ → ℕ) → List ℕ → ℕ
total f [] = 0
total f (t ∷ ts) = f t + total f ts

pub total-cong :
    (f g : ℕ → ℕ) (from n : ℕ)
    → ((t : ℕ) → from ≤ t → t < from + n → f t ≡ g t)
    → total f (range from n) ≡ total g (range from n)
total-cong f g from zero e = refl
total-cong f g from (suc n) e = omega (
  arith,
  e from (omega arith) (omega arith),
  total-cong f g (from + 1) n (λ t l h. e t (omega arith) (omega arith)),
)

pub total-split :
    (f : ℕ → ℕ) (from m k : ℕ)
    → total f (range from (m + k)) ≡ total f (range from m) + total f (range (from + m) k)
total-split f from zero k =
    let e : from + 0 ≡ from = omega arith in
    let d : 0 + k ≡ k = omega arith in rw (e, d) (omega arith)
total-split f from (suc m) k =
    let e : suc m + k ≡ suc (m + k) = omega arith in
    let d : from + suc m ≡ (from + 1) + m = omega arith in
    rw (e, d) (omega (arith, total-split f (from + 1) m k))

pub total-shift :
    (f : ℕ → ℕ) (from q n : ℕ)
    → total f (range (from + q) n) ≡ total (λ t. f (t + q)) (range from n)
total-shift f from q zero = refl
total-shift f from q (suc n) =
    let e : (from + q) + 1 ≡ (from + 1) + q = omega arith in
    rw e (omega (arith, total-shift f (from + 1) q n))

pub tally-concat :
    {A : Type 0} (p : A → Bool) (f : ℕ → List A) (ts : List ℕ)
    → tally p (concat (map f ts)) ≡ total (λ t. tally p (f t)) ts
tally-concat p f [] = refl
tally-concat p f (t ∷ ts) =
    omega (arith, tally-append p (f t) (concat (map f ts)), tally-concat p f ts)

module _ {ℓ} {A : Type ℓ} where
  get-append_left :
      (xs ys : List A) (i : ℕ) → i < length xs → get_elem? (xs ++ ys) i ≡ get_elem? xs i
  get-append_left [] ys i l = absurd (omega arith)
  get-append_left (x ∷ xs) ys zero l = refl
  get-append_left (x ∷ xs) ys (suc i) l = get-append_left xs ys i (omega arith)

  get-append_right :
      (xs ys : List A) (i : ℕ) → get_elem? (xs ++ ys) (length xs + i) ≡ get_elem? ys i
  get-append_right [] ys i = let e : 0 + i ≡ i = omega arith in rw e refl
  get-append_right (x ∷ xs) ys i =
      let e : suc (length xs) + i ≡ suc (length xs + i) = omega arith in
      rw e (get-append_right xs ys i)

  get-drop : (k : ℕ) (xs : List A) (i : ℕ) → get_elem? (drop k xs) i ≡ get_elem? xs (k + i)
  get-drop zero xs i = let e : 0 + i ≡ i = omega arith in rw e refl
  get-drop (suc k) [] i = refl
  get-drop (suc k) (x ∷ xs) i =
      let e : suc k + i ≡ suc (k + i) = omega arith in rw e (get-drop k xs i)

  get-take : (k : ℕ) (xs : List A) (i : ℕ) → i < k → get_elem? (take k xs) i ≡ get_elem? xs i
  get-take zero xs i l = absurd (omega arith)
  get-take (suc k) [] i l = refl
  get-take (suc k) (x ∷ xs) zero l = refl
  get-take (suc k) (x ∷ xs) (suc i) l = get-take k xs i (omega arith)

  length-drop : (k : ℕ) (xs : List A) → length (drop k xs) ≡ length xs - k
  length-drop zero xs = omega arith
  length-drop (suc k) [] = omega arith
  length-drop (suc k) (x ∷ xs) = omega (arith, length-drop k xs)

  pub get-rotated_low :
      (k p : ℕ) (xs : List A)
      → k + p < length xs
      → get_elem? (rotated k xs) p ≡ get_elem? xs (k + p)
  get-rotated_low k p xs l =
      get-append_left (drop k xs) (take k xs) p (omega (arith, length-drop k xs)) ∙ get-drop k xs p

  -- past the end the list begins again
  pub get-rotated_high :
      (k j : ℕ) (xs : List A)
      → j < k
      → k ≤ length xs
      → get_elem? (rotated k xs) ((length xs - k) + j) ≡ get_elem? xs j
  get-rotated_high k j xs l h =
      let e : length xs - k ≡ length (drop k xs) = sym (length-drop k xs) in
      rw e (get-append_right (drop k xs) (take k xs) j ∙ get-take k xs j l)
