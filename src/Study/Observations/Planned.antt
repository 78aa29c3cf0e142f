-- ===== src/Study/Observations/Planned.antt =====
-- benchmarks/study_analysis.py: what a study that `load_study` reads to its end holds.
use adaptive_gateway.Prelude.{
  ◌+◌, ◌≤◌, ◌≡◌, refl, ap, sym, Bool, true, false, not, Option, none, some, List, [], ◌∷◌, any, All,
  Bool-cases, inl, inr, arith, &&-both, not-false, All-weaken,
}
use adaptive_gateway.Prelude.Texts.{Text, text_eq, text_eq_iff}
use adaptive_gateway.Prelude.Dicts.{Dict}
use adaptive_gateway.Prelude.Floats.{Float}
use adaptive_gateway.Prelude.Results.{
  Exc, value_error, type_error, Result, ok, >>=-ok, Result-cases, ok-injective, refused-ok,
}
use adaptive_gateway.Prelude.Sorting.{bit, tally, any-tally, not_any-tally}
use adaptive_gateway.Json.{Json}
use adaptive_gateway.Study.Observations.{
  Manifest, Identity, same, planned, expect, identity, remove, match_row, read_line, Reading,
  read_lines, concat, checked, ending, is_empty, is_finished, observations, load_study,
}

module _ (fl : Float) (loads : Text → Result (Json fl.F)) (sha256 : Text → Text)
    (equal : Json fl.F → Json fl.F → Bool)
    (equal_sym : (x y : Json fl.F) → equal x y ≡ true → equal y x ≡ true)
    (equal_trans : (x y z : Json fl.F)
      → equal x y ≡ true
      → equal y z ≡ true
      → equal x z ≡ true) where
  open fl use {F}

  abbrev Id5 : Type 0
  Id5 = Identity fl loads sha256 equal

  abbrev eq5 : Id5 → Id5 → Bool
  eq5 = same fl loads sha256 equal

  equal-agree : (i x y : Json F) → equal x y ≡ true → equal i x ≡ equal i y
  equal-agree i x y h = elim (Bool-cases (equal i x)) [
    | inl a ↦ let b = equal_trans i x y a h in cc
    | inr a ↦ elim (Bool-cases (equal i y)) [
      | inl b ↦ let c = equal_trans i y x b (equal_sym x y h) in cc
      | inr b ↦ cc
    ]
  ]

  same-agree : (i x y : Id5) → eq5 x y ≡ true → eq5 i x ≡ eq5 i y
  same-agree (i, j, k, l, m) (a, b, c, d, e) (a', b', c', d', e') h =
      let (ha, hb') = &&-both (equal a a') _ h in
      let (hb, hc') = &&-both (equal b b') _ hb' in
      let (hc, hd') = &&-both (equal c c') _ hc' in
      let (hd, he) = &&-both (equal d d') _ hd' in
      rw
        (
          equal-agree i a a' ha,
          equal-agree j b b' hb,
          equal-agree k c c' hc,
          equal-agree l d d' hd,
          equal-agree m e e' he,
        )
        refl

  remove-tally :
      (i j : Id5) (js : List Id5)
      → any (eq5 j) js ≡ true
      → tally (eq5 i) js ≡ bit (eq5 i j) + tally (eq5 i) (remove fl loads sha256 equal j js)
  unfolding remove
  remove-tally i j [] h = cc
  remove-tally i j (k ∷ ks) h = elim (Bool-cases (eq5 j k)) [
    | inl e ↦ rw (e, same-agree i j k e) refl
    | inr e ↦ let g = rw e at h in rw e (omega (arith, remove-tally i j ks g))
  ]

  equal-agree_left : (x y i : Json F) → equal x y ≡ true → equal x i ≡ equal y i
  equal-agree_left x y i h = elim (Bool-cases (equal x i)) [
    | inl a ↦ let b = equal_trans y x i (equal_sym x y h) a in cc
    | inr a ↦ elim (Bool-cases (equal y i)) [
      | inl b ↦ let c = equal_trans x y i h b in cc
      | inr b ↦ cc
    ]
  ]

  same-agree_left : (x y i : Id5) → eq5 x y ≡ true → eq5 x i ≡ eq5 y i
  same-agree_left (a, b, c, d, e) (a', b', c', d', e') (i, j, k, l, m) h =
      let (ha, hb') = &&-both (equal a a') _ h in
      let (hb, hc') = &&-both (equal b b') _ hb' in
      let (hc, hd') = &&-both (equal c c') _ hc' in
      let (hd, he) = &&-both (equal d d') _ hd' in
      rw
        (
          equal-agree_left a a' i ha,
          equal-agree_left b b' j hb,
          equal-agree_left c c' k hc,
          equal-agree_left d d' l hd,
          equal-agree_left e e' m he,
        )
        refl

  tally-agree : (x y : Id5) (is : List Id5) → eq5 x y ≡ true → tally (eq5 x) is ≡ tally (eq5 y) is
  tally-agree x y [] h = refl
  tally-agree x y (i ∷ is) h = omega (arith, ap bit (same-agree_left x y i h), tally-agree x y is h)

  add_once :
      (x j : Id5) (acc : List Id5)
      → tally (eq5 j) acc ≡ 0
      → tally (eq5 x) acc ≤ 1
      → tally (eq5 x) (j ∷ acc) ≤ 1
  add_once x j acc new once = elim (Bool-cases (eq5 x j)) [
    | inl e ↦ omega (arith, ap bit e, tally-agree x j acc e)
    | inr e ↦ omega (arith, ap bit e)
  ]

  -- What `expect` collects is what it is given, and nothing twice.
  expect-tally :
      (is acc : List Id5) {expected : List Id5}
      → expect fl loads sha256 equal is acc ≡ ok expected
      → ((i : Id5) → tally (eq5 i) acc ≤ 1)
      → (i : Id5)
      → (tally (eq5 i) expected ≡ tally (eq5 i) is + tally (eq5 i) acc)
        × (tally (eq5 i) expected ≤ 1)
  unfolding expect
  expect-tally [] acc h once i = let e = ok-injective h in rw (← e) (omega arith, once i)
  expect-tally (j ∷ js) acc h once i =
      let (g, k) = refused-ok (any (eq5 j) acc) value_error _ h in
      let new = not_any-tally (eq5 j) acc g in
      let (t, o) = expect-tally js (j ∷ acc) k (λ x. add_once x j acc new (once x)) i in
      (omega (arith, t), o)

  match_row-ok :
      (expected : List Id5) (found row : Dict (Json F)) (rest : List Id5)
      → match_row fl loads sha256 equal expected found ≡ ok (row, rest)
      → (any (eq5 (identity fl loads sha256 equal row)) expected ≡ true)
        × (rest ≡ remove fl loads sha256 equal (identity fl loads sha256 equal row) expected)
  match_row-ok expected found row rest h =
      let here : Bool = any (eq5 (identity fl loads sha256 equal found)) expected in
      let (hashed, k) = refused-ok _ type_error _ h in
      let (member, l) = refused-ok (not here) value_error _ k in
      let pairs = ok-injective l in
      let a : found ≡ row = ap (λ q. q.0) pairs in
      let b : remove fl loads sha256 equal (identity fl loads sha256 equal found) expected ≡ rest =
        ap (λ q. q.1) pairs in
      rw (← a) (not-false here member, sym b)

  -- What is read are rows that were expected, each taken out once.
  read_lines-tally :
      (expected : List Id5) (lines : List Text)
      → (read_lines fl loads sha256 equal expected lines).error ≡ none
      → All
          (λ row. 1 ≤ tally (eq5 (identity fl loads sha256 equal row)) expected)
          (read_lines fl loads sha256 equal expected lines).rows
        × ((i : Id5)
            → tally (eq5 i) expected
              ≡ tally
                  (λ row. eq5 i (identity fl loads sha256 equal row))
                  (read_lines fl loads sha256 equal expected lines).rows
                + tally (eq5 i) (read_lines fl loads sha256 equal expected lines).left)
  unfolding read_lines
  read_lines-tally expected [] e = (tt, λ i. omega arith)
  read_lines-tally expected (line ∷ lines) e =
      elim (Result-cases (read_line fl loads sha256 equal expected line)) [
        | inr (x, m) ↦ let g = rw (m, read_lines) at e in cc
        | inl ((row, rest), m) ↦
            let g = rw (m, read_lines) at e in
            let (found, obj, k) = >>=-ok _ (match_row fl loads sha256 equal expected) m in
            let (member, r) = match_row-ok expected found row rest k in
            let (rows, t) = read_lines-tally rest lines g in
            let step : (i : Id5)
                → tally (eq5 i) expected
                  ≡ bit (eq5 i (identity fl loads sha256 equal row)) + tally (eq5 i) rest =
              λ i. rw r (remove-tally i (identity fl loads sha256 equal row) expected member) in
            rw (m, read_lines)
              (
                (
                  any-tally (eq5 (identity fl loads sha256 equal row)) expected member,
                  All-weaken (λ q h. omega (arith, h, step (identity fl loads sha256 equal q))) _
                      rows,
                ),
                λ i. omega (arith, step i, t i),
              )
      ]

  checked-none :
      (o : Option Exc) (passed : Bool)
      → checked fl loads sha256 equal o passed ≡ none
      → (o ≡ none) × (passed ≡ true)
  checked-none none true h = (refl, refl)
  checked-none none false h = cc
  checked-none (some e) passed h = cc

  is_empty-nil : (is : List Id5) → is_empty fl loads sha256 equal is ≡ true → is ≡ []
  is_empty-nil [] h = refl
  is_empty-nil (i ∷ is) h = cc

  ending-none :
      (m : Manifest) (lines : List Text) (r : Reading fl loads sha256 equal)
      → ending fl loads sha256 equal m lines r ≡ none
      → (r.error ≡ none) × (r.left ≡ []) × (sha256 (concat lines) ≡ m.raw_sha256)
  ending-none m lines r h =
      let found : Bool = text_eq (sha256 (concat lines)) m.raw_sha256 in
      let (e, both) = checked-none r.error _ h in
      let (empty, digest) = &&-both (is_empty fl loads sha256 equal r.left) found both in
      (e, is_empty-nil r.left empty, (text_eq_iff (sha256 (concat lines)) m.raw_sha256).0 digest)

  -- When the generator of `load_study` has ended without an exception, the lines it read have the digest
  -- that the manifest records, no request is planned twice, every row is that of one planned
  -- request, and every planned request has exactly one row. Python's `==` on JSON values is symmetric
  -- and transitive.
  pub load_study-planned :
      (allow_collected : Bool) (m : Manifest) (content : Text) (lines : List Text)
      (rows : List (Dict (Json F)))
      → load_study fl loads sha256 equal allow_collected m content lines ≡ ok (rows, none)
      → (sha256 (concat lines) ≡ m.raw_sha256)
        × ((i : Id5) → tally (eq5 i) (planned fl loads sha256 equal m) ≤ 1)
        × All
            (λ row.
              tally (eq5 (identity fl loads sha256 equal row)) (planned fl loads sha256 equal m)
              ≡ 1)
            rows
        × ((i : Id5)
            → tally (λ row. eq5 i (identity fl loads sha256 equal row)) rows
              ≡ tally (eq5 i) (planned fl loads sha256 equal m))
  unfolding load_study observations
  load_study-planned allow_collected m content lines rows h =
      let (finished, k) =
        refused-ok (not (is_finished fl loads sha256 equal allow_collected m.status)) value_error _
          h in
      let (hashed, l) = refused-ok (not (text_eq (sha256 content) m.raw_sha256)) value_error _ k in
      let pairs : observations fl loads sha256 equal m lines ≡ (rows, none) = ok-injective l in
      elim (Result-cases (expect fl loads sha256 equal (planned fl loads sha256 equal m) [])) [
        | inr (x, e) ↦ let q = rw e at pairs in let o = ap (λ p. p.1) q in cc
        | inl (expected, e) ↦
            let q = rw e at pairs in
            let r = read_lines fl loads sha256 equal expected lines in
            let same_rows : r.rows ≡ rows = ap (λ p. p.0) q in
            let (quiet, empty, digest) = ending-none m lines r (ap (λ p. p.1) q) in
            let (each, counts) = read_lines-tally expected lines quiet in
            let once = expect-tally (planned fl loads sha256 equal m) [] e (λ i. omega arith) in
            let left : (i : Id5) → tally (eq5 i) r.left ≡ 0 = λ i. rw empty refl in
            rw (← same_rows) (
              digest,
              λ i. omega (arith, once i),
              All-weaken (λ row h. omega (arith, h, once (identity fl loads sha256 equal row))) _
                  each,
              λ i. omega (arith, counts i, left i, (once i).0),
            )
      ]
