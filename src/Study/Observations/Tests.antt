-- ===== src/Study/Observations/Tests.antt =====
-- A block of one warm-up request and one measured request, whose rows stand in a file as "w" and "m".
use adaptive_gateway.Prelude.{
  ◌≤◌, ◌≡◌, refl, Bool, true, false, Option, none, some, List, [], ◌∷◌, All, arith, if◌then◌else◌,
}
use adaptive_gateway.Prelude.Texts.{Text, str, text_eq, text_eq_iff}
use adaptive_gateway.Prelude.Dicts.{Dict, lookup}
use adaptive_gateway.Prelude.Ints.{pos}
use adaptive_gateway.Prelude.Floats.{Fixed, fixed}
use adaptive_gateway.Prelude.Results.{value_error, Result, ok, raise}
use adaptive_gateway.Prelude.Sorting.{tally}
use adaptive_gateway.Json.{Json, int, text, obj, Fields, end, field, dict_of}
use adaptive_gateway.Study.Observations.{
  Manifest, concat, Identity, same, planned, expect, identity, remove, read_lines, observations,
  load_study,
}
use adaptive_gateway.Study.Observations.Planned.{load_study-planned}

-- the comparison of texts and of natural numbers
abbrev key : Json Fixed → Option Text
key (text s) = some (0 ∷ s)
key (int (pos n)) = some (1 ∷ n ∷ [])
key _ = none

abbrev key_eq : Option Text → Option Text → Bool
key_eq (some s) (some t) = text_eq s t
key_eq _ _ = false

key_eq_sym : (o p : Option Text) → key_eq o p ≡ true → key_eq p o ≡ true
key_eq_sym none p h = cc
key_eq_sym (some s) none h = cc
key_eq_sym (some s) (some t) h = ground (arith, text_eq_iff s t, text_eq_iff t s)

key_eq_trans : (o p q : Option Text) → key_eq o p ≡ true → key_eq p q ≡ true → key_eq o q ≡ true
key_eq_trans none p q h g = cc
key_eq_trans (some s) none q h g = cc
key_eq_trans (some s) (some t) none h g = cc
key_eq_trans (some s) (some t) (some u) h g =
    ground (arith, text_eq_iff s t, text_eq_iff t u, text_eq_iff s u)

abbrev equal : Json Fixed → Json Fixed → Bool
equal a b = key_eq (key a) (key b)

abbrev row : Text → Fields Fixed
row phase = field (str "trial_id") (text (str "t")) (
    field (str "condition") (text (str "POOR")) (
      field (str "mode") (text (str "full"))
        (field (str "phase") (text phase) (field (str "request_id") (int (pos 1)) end))))

abbrev loads : Text → Result (Json Fixed)
loads line =
    if text_eq line (str "w")
    then ok (obj (row (str "warmup")))
    else if text_eq line (str "m")
    then ok (obj (row (str "measured")))
    else raise value_error

-- short texts stand for their digests
abbrev sha256 : Text → Text
sha256 t = t

abbrev manifest : Manifest
manifest = record {
  status = str "complete";
  raw_sha256 = str "mw";
  condition = str "POOR";
  warmup_requests = 1;
  requests_per_block = 1;
  schedule = record { trial_id = str "t"; mode = str "full" } ∷ [];
}

abbrev rows : List (Dict (Json Fixed))
rows = dict_of (row (str "measured")) ∷ dict_of (row (str "warmup")) ∷ []

loaded :
    load_study fixed loads sha256 equal false manifest (str "mw") (str "m" ∷ str "w" ∷ [])
    ≡ ok (rows, none)
unfolding load_study observations planned expect read_lines remove lookup text_eq
loaded = refl

-- a row too few, and a row twice
missing : (observations fixed loads sha256 equal manifest (str "m" ∷ [])).1 ≡ some value_error
unfolding observations planned expect read_lines remove lookup text_eq
missing = refl

twice :
    observations fixed loads sha256 equal manifest (str "w" ∷ str "w" ∷ [])
    ≡ (dict_of (row (str "warmup")) ∷ [], some value_error)
unfolding observations planned expect read_lines remove lookup text_eq
twice = refl

load_study-planned_example :
    (sha256 (concat (str "m" ∷ str "w" ∷ [])) ≡ str "mw")
    × ((i : Identity fixed loads sha256 equal)
        → tally (same fixed loads sha256 equal i) (planned fixed loads sha256 equal manifest) ≤ 1)
    × All
        (λ r.
          tally
            (same fixed loads sha256 equal (identity fixed loads sha256 equal r))
            (planned fixed loads sha256 equal manifest)
          ≡ 1)
        rows
    × ((i : Identity fixed loads sha256 equal)
        → tally (λ r. same fixed loads sha256 equal i (identity fixed loads sha256 equal r)) rows
          ≡ tally (same fixed loads sha256 equal i) (planned fixed loads sha256 equal manifest))
load_study-planned_example =
    load_study-planned fixed loads sha256 equal (λ x y. key_eq_sym (key x) (key y))
      (λ x y z. key_eq_trans (key x) (key y) (key z)) false manifest (str "mw")
      (str "m" ∷ str "w" ∷ []) rows loaded
