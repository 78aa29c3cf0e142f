-- ===== src/Study/Observations.antt =====
-- benchmarks/study_analysis.py: `load_study` with stream=True, and the generator that it returns.
pub mod Planned
mod Tests
use adaptive_gateway.Prelude.{
  ℕ, suc, ◌≡◌, Bool, true, false, not, ◌&&◌, Option, none, some, List, [], ◌∷◌, ◌++◌, map, any,
  if◌then◌else◌, default,
}
use adaptive_gateway.Prelude.Texts.{Text, str, text_eq}
use adaptive_gateway.Prelude.Dicts.{Dict, lookup}
use adaptive_gateway.Prelude.Ints.{pos}
use adaptive_gateway.Prelude.Floats.{Float}
use adaptive_gateway.Prelude.Results.{
  Exc, value_error, type_error, Result, ok, raise, ◌>>=◌, refuse_if,
}
use adaptive_gateway.Json.{Json, null, bool, int, real, text, arr, obj, dict_of}
use adaptive_gateway.Study.Pool.Sequence.{range}

pub record PlannedBlock : Type 0 where
  pub trial_id : Text
  pub mode : Text

pub record Manifest : Type 0 where
  pub status : Text
  pub raw_sha256 : Text
  pub condition : Text
  pub warmup_requests : ℕ
  pub requests_per_block : ℕ
  pub schedule : List PlannedBlock

abbrev pub concat {ℓ} : {A : Type ℓ} → List (List A) → List A
concat [] = []
concat (xs ∷ xss) = xs ++ concat xss

-- `equal` is Python's `==` on values that json.loads returns.
module _ (fl : Float) (loads : Text → Result (Json fl.F)) (sha256 : Text → Text)
    (equal : Json fl.F → Json fl.F → Bool) where
  open fl use {F}

  -- trial_id, condition, mode, phase and request_id
  abbrev pub Identity : Type 0
  Identity = Json F × Json F × Json F × Json F × Json F

  abbrev pub same : Identity → Identity → Bool
  same (a, b, c, d, e) (a', b', c', d', e') =
      equal a a' && (equal b b' && (equal c c' && (equal d d' && equal e e')))

  abbrev hashable : Json F → Bool
  hashable null = true
  hashable (bool _) = true
  hashable (int _) = true
  hashable (real _) = true
  hashable (text _) = true
  hashable (arr _) = false
  hashable (obj _) = false

  abbrev identity_hashable : Identity → Bool
  identity_hashable (a, b, c, d, e) =
      hashable a && (hashable b && (hashable c && (hashable d && hashable e)))

  abbrev phase_identities : Text → PlannedBlock → Text → ℕ → List Identity
  phase_identities condition block phase count =
      map (λ i. (text block.trial_id, text condition, text block.mode, text phase, int (pos i)))
        (range 1 count)

  abbrev block_identities : Manifest → PlannedBlock → List Identity
  block_identities m block =
      phase_identities m.condition block (str "warmup") m.warmup_requests
      ++ phase_identities m.condition block (str "measured") m.requests_per_block

  -- the identities in the order in which the three loops make them
  unfoldable pub planned : Manifest → List Identity
  planned m = concat (map (block_identities m) m.schedule)

  -- if identity in expected: raise ...; expected.add(identity)
  unfoldable pub expect : List Identity → List Identity → Result (List Identity)
  expect [] expected = ok expected
  expect (i ∷ is) expected =
      refuse_if (any (same i) expected) value_error >>= λ _. expect is (i ∷ expected)

  abbrev field : Text → Dict (Json F) → Json F
  field k row = default (lookup k row) null

  abbrev pub identity : Dict (Json F) → Identity
  identity row = (
    field (str "trial_id") row,
    field (str "condition") row,
    field (str "mode") row,
    field (str "phase") row,
    field (str "request_id") row,
  )

  abbrev as_object : Json F → Result (Dict (Json F))
  as_object (obj fields) = ok (dict_of fields)
  as_object _ = raise value_error

  -- expected.remove(identity)
  unfoldable pub remove : Identity → List Identity → List Identity
  remove i [] = []
  remove i (j ∷ js) = let rest = remove i js in if same i j then js else j ∷ rest

  abbrev pub match_row : List Identity → Dict (Json F) → Result (Dict (Json F) × List Identity)
  match_row expected row = refuse_if (not (identity_hashable (identity row))) type_error >>= λ _.
      refuse_if (not (any (same (identity row)) expected)) value_error >>= λ _.
      ok (row, remove (identity row) expected)

  abbrev pub read_line : List Identity → Text → Result (Dict (Json F) × List Identity)
  read_line expected line = loads line >>= as_object >>= match_row expected

  -- The rows that are yielded, the identities left, and the exception that ended the loop.
  pub record Reading : Type 0 where
    pub rows : List (Dict (Json F))
    pub left : List Identity
    pub error : Option Exc

  unfoldable pub read_lines : List Identity → List Text → Reading
  read_lines expected [] = record { rows = []; left = expected; error = none }
  read_lines expected (line ∷ lines) = elim (read_line expected line) [
    | raise e ↦ record { rows = []; left = expected; error = some e }
    | ok (row, rest) ↦
        let r = read_lines rest lines in
        record { rows = row ∷ r.rows; left = r.left; error = r.error }
  ]

  abbrev pub is_empty : List Identity → Bool
  is_empty [] = true
  is_empty (_ ∷ _) = false

  abbrev pub checked : Option Exc → Bool → Option Exc
  checked (some e) passed = some e
  checked none passed = if passed then none else some value_error

  -- The loop may have raised; after it, no identity may be left, and the digest of the lines has to be
  -- the recorded one.
  abbrev pub ending : Manifest → List Text → Reading → Option Exc
  ending m lines r =
      checked r.error (is_empty r.left && text_eq (sha256 (concat lines)) m.raw_sha256)

  abbrev pub observe :
      Manifest → List Text → Result (List Identity) → List (Dict (Json F)) × Option Exc
  observe m lines (raise e) = ([], some e)
  observe m lines (ok expected) = let r = read_lines expected lines in (r.rows, ending m lines r)

  -- The rows that are yielded, and how the generator ends.
  unfoldable pub observations : Manifest → List Text → List (Dict (Json F)) × Option Exc
  observations m lines = observe m lines (expect (planned m) [])

  abbrev pub is_finished : Bool → Text → Bool
  is_finished allow_collected status = any (text_eq status) (
      str "complete"
      ∷ str "invalid_responses"
      ∷ (if allow_collected then str "collected" ∷ [] else []))

  -- `content` is what the file holds when it is hashed, `lines` what it holds when it is read.
  unfoldable pub load_study :
      Bool → Manifest → Text → List Text → Result (List (Dict (Json F)) × Option Exc)
  load_study allow_collected m content lines =
      refuse_if (not (is_finished allow_collected m.status)) value_error >>= λ _.
      refuse_if (not (text_eq (sha256 content) m.raw_sha256)) value_error >>= λ _.
      ok (observations m lines)
