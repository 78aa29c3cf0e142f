-- ===== src/Admin/Flush/Namespace.antt =====
-- What a flush of the cache deletes, and what it leaves.
use adaptive_gateway.Prelude.{
  ℕ, ◌≤◌, ◌≡◌, refl, sym, ◌∙◌, ap, inl, inr, Bool, true, false, not, ◌||◌, ◌&&◌, none, List, [],
  ◌∷◌, ◌++◌, arith, any, all, ◌==◌, Bool-cases, Option-cases, if◌then◌else◌,
}
use adaptive_gateway.Prelude.Texts.{Text, str, text_eq, text_eq_iff, starts_with}
use adaptive_gateway.Redis.{Redis, RedisLaws}
use adaptive_gateway.Admin.Flush.{
  Keyspace, KeyspaceLaws, is_plain, delete_all, refused_prefix, flush_cache,
}

module _ (r : Redis) (laws : RedisLaws r) (k : Keyspace r) (space : KeyspaceLaws r k) where
  open laws use {get-delete}
  open space use {scan-matches, scan_complete, matches-start, matches-star}

  get-delete_all :
      (t t' : ℕ) (keys : List Text) (j : Text) (s : r.S)
      → t ≤ t'
      → r.get t' j (delete_all r k t keys s) ≡ (if any (text_eq j) keys then none else r.get t' j s)
  unfolding delete_all
  get-delete_all t t' [] j s le = refl
  get-delete_all t t' (key ∷ keys) j s le = ground (
    arith,
    get-delete_all t t' keys j (r.delete t key s) le,
    get-delete t t' key j s le,
    text_eq_iff j key,
    text_eq_iff key j,
  )

  starts_with-append : (p q j : Text) → starts_with j (p ++ q) ≡ true → starts_with j p ≡ true
  unfolding starts_with
  starts_with-append [] q j h = refl
  starts_with-append (c ∷ p) q [] h = h
  starts_with-append (c ∷ p) q (d ∷ j) h = ground (arith, starts_with-append p q j)

  starts_with_split : (s p : Text) → starts_with s p ≡ true → (q : Text) × (s ≡ p ++ q)
  unfolding starts_with
  starts_with_split s [] h = (s, refl)
  starts_with_split [] (c ∷ p) h = cc
  starts_with_split (d ∷ s) (c ∷ p) h =
      let (q, e) = starts_with_split s p (ground arith) in (q, ground arith)

  accepted :
      (prefix : Text) → refused_prefix r k prefix ≡ false → starts_with prefix (str "cache:") ≡ true
  accepted prefix e = ground arith

  -- Only keys of the cache's namespace are found.
  found_in_cache :
      (t : ℕ) (prefix j : Text) (s : r.S)
      → refused_prefix r k prefix ≡ false
      → any (text_eq j) (k.scan t (prefix ++ str "*") s) ≡ true
      → starts_with j (str "cache:") ≡ true
  found_in_cache t prefix j s e found =
      let (q, split) = starts_with_split prefix (str "cache:") (accepted prefix e) in
      let m = scan-matches t (prefix ++ str "*") s j found in
      let m' : k.matches (str "cache:" ++ (q ++ str "*")) j ≡ true =
        sym (ap (λ p. k.matches (p ++ str "*") j) split) ∙ m in
      matches-start (str "cache:") (q ++ str "*") j refl m'

  flushed :
      (t : ℕ) (prefix : Text) (s : r.S)
      → refused_prefix r k prefix ≡ false
      → (flush_cache r k t prefix s).1 ≡ delete_all r k t (k.scan t (prefix ++ str "*") s) s
  unfolding flush_cache
  flushed t prefix s e = rw e refl

  kept :
      (t : ℕ) (prefix : Text) (s : r.S)
      → refused_prefix r k prefix ≡ true
      → (flush_cache r k t prefix s).1 ≡ s
  unfolding flush_cache
  kept t prefix s e = rw e refl

  -- A flush removes nothing outside "cache:" (no lock, no counter, no state of the detector),
  -- whatever prefix is asked for.
  pub flush_cache_outside :
      (t t' : ℕ) (prefix j : Text) (s : r.S)
      → t ≤ t'
      → starts_with j (str "cache:") ≡ false
      → r.get t' j (flush_cache r k t prefix s).1 ≡ r.get t' j s
  flush_cache_outside t t' prefix j s le h = elim (Bool-cases (refused_prefix r k prefix)) [
    | inl bad ↦ rw (kept t prefix s bad) refl
    | inr good ↦
        let keys = k.scan t (prefix ++ str "*") s in
        rw (flushed t prefix s good) (
          get-delete_all t t' keys j s le ∙ (elim (Bool-cases (any (text_eq j) keys)) [
            | inl found ↦ cc (sym (found_in_cache t prefix j s good found) ∙ h)
            | inr absent ↦ rw absent refl
          ]))
  ]

  no_glob : (p : Text) → all is_plain p ≡ true → any (λ c. any (λ d. c == d) (str "*?[]")) p ≡ false
  no_glob [] h = refl
  no_glob (c ∷ p) h = ground (arith, no_glob p)

  or_false : (b : Bool) → (b || false) ≡ b
  or_false true = refl
  or_false false = refl

  refused_plain :
      (prefix : Text)
      → all is_plain prefix ≡ true
      → refused_prefix r k prefix ≡ not (starts_with prefix (str "cache:"))
  unfolding starts_with
  refused_plain [] plain = refl
  refused_plain (c ∷ prefix) plain =
      ap (λ b. not (starts_with (c ∷ prefix) (str "cache:")) || b) (no_glob (c ∷ prefix) plain)
      ∙ or_false (not (starts_with (c ∷ prefix) (str "cache:")))

  deleted_plain :
      (t t' : ℕ) (prefix j : Text) (s : r.S)
      → t ≤ t'
      → all is_plain prefix ≡ true
      → (if any (text_eq j) (k.scan t (prefix ++ str "*") s) then none else r.get t' j s)
        ≡ (if starts_with j prefix then none else r.get t' j s)
  deleted_plain t t' prefix j s le plain =
      elim (Bool-cases (any (text_eq j) (k.scan t (prefix ++ str "*") s))) [
        | inl found ↦
            rw
              (
                found,
                matches-start prefix (str "*") j plain
                    (scan-matches t (prefix ++ str "*") s j found),
              )
              refl
        | inr absent ↦ elim (Bool-cases (starts_with j prefix)) [
          | inr other ↦ rw (absent, other) refl
          | inl below ↦ elim (Option-cases (r.get t' j s)) [
            | inl gone ↦ rw (absent, below, gone) refl
            | inr (v, there) ↦
                let m = matches-star prefix j plain below in
                cc (sym (scan_complete t t' (prefix ++ str "*") s j v le m there) ∙ absent)
          ]
        ]
      ]

  -- With a prefix of plain characters, no backslash among them, a flush removes every key that
  -- starts with the prefix and no other, if the prefix itself starts with "cache:"; else it
  -- removes nothing.
  pub flush_cache_plain :
      (t t' : ℕ) (prefix j : Text) (s : r.S)
      → t ≤ t'
      → all is_plain prefix ≡ true
      → r.get t' j (flush_cache r k t prefix s).1
        ≡ (if starts_with prefix (str "cache:") && starts_with j prefix then none else r.get t' j s)
  flush_cache_plain t t' prefix j s le plain =
      let e = refused_plain prefix plain in
      elim (Bool-cases (starts_with prefix (str "cache:"))) [
        | inl good ↦
            rw (flushed t prefix s (e ∙ ap not good), good)
              (get-delete_all t t' (k.scan t (prefix ++ str "*") s) j s le
                ∙ deleted_plain t t' prefix j s le plain)
        | inr bad ↦ rw (kept t prefix s (e ∙ ap not bad), bad) refl
      ]
