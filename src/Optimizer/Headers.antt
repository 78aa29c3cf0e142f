-- ===== src/Optimizer/Headers.antt =====
-- The headers of an adapted response.
use adaptive_gateway.Prelude.{
  ◌≡◌, refl, ◌∙◌, inl, inr, Bool, true, false, not, ◌||◌, Option, none, some, List, [], ◌∷◌, ◌++◌,
  arith, All, if◌then◌else◌, Bool-cases,
}
use adaptive_gateway.Prelude.Texts.{Text, str, among, text_eq, text_eq_iff}
use adaptive_gateway.Prelude.Dicts.{
  Dict, lookup, insert, pop, lookup-insert, lookup-insert_self, lookup-pop,
}
use adaptive_gateway.ProxyHttp.{representation_headers}
use adaptive_gateway.Optimizer.Modes.{Mode, pop_all, without_name, with_name}
use adaptive_gateway.Optimizer.Dispatch.{final_headers, changed_headers, coded_headers}

pub lookup-insert_ne :
    (k j : Text) (v : Text) (d : Dict Text)
    → text_eq k j ≡ false
    → lookup j (insert k v d) ≡ lookup j d
lookup-insert_ne k j v d h = rw lookup-insert (rw h)

or_else : Option Text → Option Text → Option Text
or_else none b = b
or_else (some a) b = some a

or_else-none : (a : Option Text) → or_else a none ≡ a
unfolding or_else
or_else-none none = refl
or_else-none (some a) = refl

lookup-append : (n : Text) (a b : Dict Text) → lookup n (a ++ b) ≡ or_else (lookup n a) (lookup n b)
unfolding lookup or_else
lookup-append n [] b = refl
lookup-append n ((k, v) ∷ a) b = ground (arith, lookup-append n a b)

lookup-without_name :
    (n s : Text) (d : Dict Text) → text_eq s n ≡ false → lookup n (without_name s d) ≡ lookup n d
unfolding lookup without_name
lookup-without_name n s [] h = refl
lookup-without_name n s ((k, v) ∷ d) h =
    ground (arith, text_eq_iff k s, text_eq_iff s n, text_eq_iff k n, lookup-without_name n s d h)

lookup-with_name :
    (n s : Text) (d : Dict Text) → text_eq s n ≡ false → lookup n (with_name s d) ≡ none
unfolding lookup with_name
lookup-with_name n s [] h = refl
lookup-with_name n s ((k, v) ∷ d) h =
    ground (arith, text_eq_iff k s, text_eq_iff s n, text_eq_iff k n, lookup-with_name n s d h)

-- A name other than Set-Cookie is read from the new headers.
pub lookup_merged :
    (n : Text) (new old : Dict Text)
    → text_eq (str "set-cookie") n ≡ false
    → lookup n (without_name (str "set-cookie") new ++ with_name (str "set-cookie") old)
      ≡ lookup n new
lookup_merged n new old h =
    lookup-append n (without_name (str "set-cookie") new) (with_name (str "set-cookie") old)
    ∙ rw
        (
          lookup-without_name n (str "set-cookie") new h,
          lookup-with_name n (str "set-cookie") old h,
        )
        (or_else-none (lookup n new))

lookup-pop_all_keep :
    (n : Text) (ns : List Text) (d : Dict Text) → lookup n d ≡ none → lookup n (pop_all ns d) ≡ none
unfolding pop_all
lookup-pop_all_keep n [] d h = h
lookup-pop_all_keep n (m ∷ ns) d h =
    lookup-pop_all_keep n ns (pop m d) (ground (arith, lookup-pop m n d))

lookup-pop_all :
    (n : Text) (ns : List Text) (d : Dict Text) → among n ns ≡ true → lookup n (pop_all ns d) ≡ none
unfolding pop_all among
lookup-pop_all n [] d h = cc
lookup-pop_all n (m ∷ ns) d h = elim (Bool-cases (text_eq n m)) [
  | inl e ↦
      lookup-pop_all_keep n ns (pop m d)
        (ground (arith, lookup-pop m n d, text_eq_iff n m, text_eq_iff m n))
  | inr e ↦ lookup-pop_all n ns (pop m d) (rw e at h)
]

-- The names that the optimizer itself writes.
abbrev Foreign : Text → Type 0
Foreign n =
    All (λ k. text_eq k n ≡ false)
      (str "x-response-completeness"
        ∷ str "x-adaptive-mode"
        ∷ str "x-response-mode"
        ∷ str "cache-control"
        ∷ str "set-cookie"
        ∷ [])

is_foreign : Text → Bool
is_foreign n = not (
    text_eq (str "x-response-completeness") n
    || text_eq (str "x-adaptive-mode") n
    || text_eq (str "x-response-mode") n
    || text_eq (str "cache-control") n
    || text_eq (str "set-cookie") n)

is_foreign-Foreign : (n : Text) → is_foreign n ≡ true → Foreign n
unfolding is_foreign
is_foreign-Foreign n h = ground arith

lookup-final_headers :
    (n : Text) (mode : Mode) (skeleton reduced : Bool) (coded : Option Text) (headers : Dict Text)
    → Foreign n
    → lookup n (final_headers mode skeleton reduced coded true headers)
      ≡ lookup n (pop_all representation_headers (coded_headers coded headers))
unfolding final_headers
lookup-final_headers n mode skeleton reduced coded headers (a, (b, (c, (d, e)))) = rw (
  lookup-insert_ne _ n _ _ a,
  lookup-insert_ne _ n _ _ b,
  lookup-insert_ne _ n _ _ c,
  lookup-insert_ne _ n _ _ d,
)

pub lookup-completeness :
    (mode : Mode) (skeleton reduced : Bool) (coded : Option Text) (changed : Bool)
    (headers : Dict Text)
    → lookup
        (str "x-response-completeness")
        (final_headers mode skeleton reduced coded changed headers)
      ≡ some (if reduced then str "reduced" else str "full")
unfolding final_headers
lookup-completeness mode skeleton reduced coded changed headers = lookup-insert_self _ _ _

lookup-cache_control :
    (mode : Mode) (skeleton reduced : Bool) (coded : Option Text) (headers : Dict Text)
    → lookup (str "cache-control") (final_headers mode skeleton reduced coded true headers)
      ≡ some (str "private, no-store")
unfolding final_headers text_eq
lookup-cache_control mode skeleton reduced coded headers =
    rw
      (
        lookup-insert_ne (str "x-response-completeness") (str "cache-control") _ _ refl,
        lookup-insert_ne (str "x-adaptive-mode") (str "cache-control") _ _ refl,
        lookup-insert_ne (str "x-response-mode") (str "cache-control") _ _ refl,
      )
      (lookup-insert_self _ _ _)

dropped :
    (n : Text) (mode : Mode) (skeleton reduced : Bool) (coded : Option Text)
    (headers old : Dict Text)
    → is_foreign n ≡ true
    → among n representation_headers ≡ true
    → lookup n (
        without_name (str "set-cookie") (final_headers mode skeleton reduced coded true headers)
        ++ with_name (str "set-cookie") old)
      ≡ none
dropped n mode skeleton reduced coded headers old f h =
    let foreign = is_foreign-Foreign n f in
    lookup_merged n _ old (foreign.1.1.1.1.0)
    ∙ lookup-final_headers n mode skeleton reduced coded headers foreign
    ∙ lookup-pop_all n representation_headers (coded_headers coded headers) h

-- What `optimize` does to the headers of a changed body.
abbrev pub IsPrivate : Dict Text → Type 0
IsPrivate headers =
    All (λ n. lookup n headers ≡ none) representation_headers
    × (lookup (str "cache-control") headers ≡ some (str "private, no-store"))

pub merged-IsPrivate :
    (mode : Mode) (skeleton reduced : Bool) (coded : Option Text) (headers old : Dict Text)
    → IsPrivate (
        without_name (str "set-cookie") (final_headers mode skeleton reduced coded true headers)
        ++ with_name (str "set-cookie") old)
unfolding text_eq among is_foreign
merged-IsPrivate mode skeleton reduced coded headers old =
    let f = λ (n : Text). dropped n mode skeleton reduced coded headers old in
    (
      (
        f (str "etag") refl refl,
        (
          f (str "last-modified") refl refl,
          (
            f (str "content-md5") refl refl,
            (
              f (str "digest") refl refl,
              (
                f (str "content-digest") refl refl,
                (
                  f (str "repr-digest") refl refl,
                  (f (str "content-range") refl refl, (f (str "accept-ranges") refl refl, tt)),
                ),
              ),
            ),
          ),
        ),
      ),
      lookup_merged (str "cache-control") _ old refl
          ∙ lookup-cache_control mode skeleton reduced coded headers,
    )

lookup-pop_all_other :
    (n : Text) (ns : List Text) (d : Dict Text)
    → among n ns ≡ false
    → lookup n (pop_all ns d) ≡ lookup n d
unfolding pop_all among
lookup-pop_all_other n [] d h = refl
lookup-pop_all_other n (m ∷ ns) d h =
    ground (
      arith,
      lookup-pop_all_other n ns (pop m d),
      lookup-pop m n d,
      text_eq_iff n m,
      text_eq_iff m n,
    )

pub changed-content_encoding :
    (changed : Bool) (headers : Dict Text)
    → lookup
        (str "content-encoding")
        (changed_headers changed (insert (str "content-encoding") (str "gzip") headers))
      ≡ some (str "gzip")
unfolding text_eq among
changed-content_encoding true headers =
    lookup-insert_ne (str "cache-control") (str "content-encoding") _ _ refl
    ∙ lookup-pop_all_other (str "content-encoding") representation_headers _ refl
    ∙ lookup-insert_self _ _ _
changed-content_encoding false headers = lookup-insert_self _ _ _
