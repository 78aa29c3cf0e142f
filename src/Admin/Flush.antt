-- ===== src/Admin/Flush.antt =====
-- gateway/routes/admin.py: `flush_cache`.
pub mod Namespace
use adaptive_gateway.Prelude.{
  ℕ, ◌+◌, ◌≤◌, ◌≡◌, Bool, true, false, not, ◌||◌, Option, none, some, List, [], ◌∷◌, ◌++◌, any, all,
  length, ◌==◌, if◌then◌else◌,
}
use adaptive_gateway.Prelude.Texts.{Text, str, text_eq, starts_with}
use adaptive_gateway.Auth.{Answer, answer, refuse}
use adaptive_gateway.Config.{is_empty}
use adaptive_gateway.Redis.{Redis}

-- SCAN with MATCH, run to its end, and the glob patterns of Redis. A key may be returned twice.
pub record Keyspace (r : Redis) : Type 0 where
  pub scan : ℕ → Text → r.S → List Text
  pub matches : Text → Text → Bool

-- Characters that stand for themselves in a pattern.
abbrev pub is_plain : ℕ → Bool
is_plain c = not (any (λ d. c == d) (str "*?[]\\"))

-- What the documentation of SCAN and of patterns says.
pub record KeyspaceLaws (r : Redis) (k : Keyspace r) : Type 0 where
  -- what is returned matches
  pub scan-matches :
      (t : ℕ) (pattern : Text) (s : r.S) (j : Text)
      → any (text_eq j) (k.scan t pattern s) ≡ true
      → k.matches pattern j ≡ true
  -- a key that matches and is there is returned
  pub scan_complete :
      (t t' : ℕ) (pattern : Text) (s : r.S) (j v : Text)
      → t ≤ t'
      → k.matches pattern j ≡ true
      → r.get t' j s ≡ some v
      → any (text_eq j) (k.scan t pattern s) ≡ true
  -- the plain start of a pattern stands at the start of what matches
  pub matches-start :
      (p rest j : Text)
      → all is_plain p ≡ true
      → k.matches (p ++ rest) j ≡ true
      → starts_with j p ≡ true
  -- a star after plain characters matches any rest
  pub matches-star :
      (p j : Text)
      → all is_plain p ≡ true
      → starts_with j p ≡ true
      → k.matches (p ++ str "*") j ≡ true

pub record Flushed : Type 0 where
  pub deleted : ℕ
  pub pattern : Text

module _ (r : Redis) (k : Keyspace r) where
  unfoldable pub delete_all : ℕ → List Text → r.S → r.S
  delete_all t [] s = s
  delete_all t (key ∷ keys) s = delete_all t keys (r.delete t key s)

  abbrev pub refused_prefix : Text → Bool
  refused_prefix prefix =
      is_empty prefix
      || not (starts_with prefix (str "cache:"))
      || any (λ c. any (λ d. c == d) (str "*?[]")) prefix

  unfoldable pub flush_cache : ℕ → Text → r.S → Answer Flushed × r.S
  flush_cache t prefix s =
      let pattern = prefix ++ str "*" in
      let keys = k.scan t pattern s in
      let flushed : Answer Flushed × r.S =
        (answer (record { deleted = length keys; pattern = pattern }), delete_all t keys s) in
      if refused_prefix prefix
      then (refuse 400 (str "prefix must name the cache namespace without globs"), s)
      else flushed
