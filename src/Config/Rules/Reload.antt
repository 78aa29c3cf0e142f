-- ===== src/Config/Rules/Reload.antt =====
-- What holds of the active configuration after any sequence of loads.
use mathlib.Core.Path.{subst}
use adaptive_gateway.Prelude.{
  ◌≡◌, refl, sym, ◌∙◌, ◌⊎◌, inl, inr, Option, none, some, List, [], ◌∷◌, ◌++◌, arith, All,
  Bool-cases, ap,
}
use adaptive_gateway.Prelude.Texts.{Text, str, text_eq}
use adaptive_gateway.Prelude.Dicts.{Dict, lookup, insert, lookup-insert}
use adaptive_gateway.Prelude.Results.{
  Exc, value_error, Result, ok, raise, ◌>>=◌, refuse_if, >>=-ok, Result-cases,
}
use adaptive_gateway.Config.{RouteRule, Url, validate_upstream_url}
use adaptive_gateway.Config.Rules.{
  Node, Source, Active, builtin_rules, plain_rule, update, add_upstreams, configured, generic,
  mapping_of, text_of, section_of, entries_of, has_unknown, with_path, parsed, load_route_rules,
  reload_all, parse_rules,
}

abbrev HasKey : {V : Type 0} → Text → Dict V → Type 0
HasKey {V} k d = (v : V) × (lookup k d ≡ some v)

HasKey-insert :
    {V : Type 0} (k j : Text) (v : V) (d : Dict V) → HasKey k d → HasKey k (insert j v d)
HasKey-insert k j v d (w, e) = elim (Bool-cases (text_eq j k)) [
  | inl same ↦ (v, rw (lookup-insert, same) refl)
  | inr other ↦ (w, rw (lookup-insert, other) e)
]

HasKey-update : {V : Type 0} (k : Text) (items d : Dict V) → HasKey k d → HasKey k (update items d)
unfolding update
HasKey-update k [] d h = h
HasKey-update k ((j, v) ∷ items) d h = HasKey-update k items _ (HasKey-insert k j v d h)

All-insert :
    {V : Type 0} (P : V → Type 0) (k : Text) (v : V) (d : Dict V)
    → P v
    → All (λ item. P item.1) d
    → All (λ item. P item.1) (insert k v d)
unfolding insert
All-insert P k v [] p h = (p, tt)
All-insert P k v ((j, w) ∷ d) p h = elim (Bool-cases (text_eq j k)) [
  | inl same ↦ rw same (p, h.1)
  | inr other ↦ rw other (h.0, All-insert P k v d p h.1)
]

generic-ok : {A : Type 0} (r : Result A) (a : A) → generic r ≡ ok a → r ≡ ok a
generic-ok (ok b) a e = e
generic-ok (raise value_error) a e = cc
generic-ok (raise f) a e = ground arith

module _ {F : Type 0} (urlsplit : Text → Result Url)
    (model_validate : Node → Result (RouteRule F)) where
  abbrev pub IsUpstream : Text → Type 0
  IsUpstream base = validate_upstream_url urlsplit base ≡ ok base

  validated : (base url : Text) → validate_upstream_url urlsplit base ≡ ok url → url ≡ base
  unfolding validate_upstream_url
  validated base url e = let (parsed, _, e₁) = >>=-ok (urlsplit base) _ e in ground arith

  add_upstreams-All :
      (items : List (Node × Node)) (env upstreams : Dict Text)
      → All (λ item. IsUpstream item.1) env
      → add_upstreams urlsplit model_validate items env ≡ ok upstreams
      → All (λ item. IsUpstream item.1) upstreams
  unfolding add_upstreams
  add_upstreams-All [] env upstreams h e = subst (All (λ item. IsUpstream item.1)) (ground arith) h
  add_upstreams-All ((name, base) ∷ items) env upstreams h e =
      let (name', _, e₁) = >>=-ok (text_of name) _ e in
      let (base', _, e₂) = >>=-ok (text_of base) _ e₁ in
      let (url, v, e₃) = >>=-ok (validate_upstream_url urlsplit base') _ e₂ in
      let same = validated base' url v in
      let v' : IsUpstream base' = rw same at v in
      add_upstreams-All items (insert name' url env) upstreams
        (All-insert IsUpstream name' url env (rw same v') h) e₃

  pub record IsSound (active : Active F) : Type 0 where
    pub has_default : HasKey (str "_default") active.rules
    pub upstreams : All (λ item. IsUpstream item.1) active.upstreams

  builtin_default : HasKey (str "_default") (builtin_rules {F = F})
  unfolding lookup text_eq
  builtin_default = (plain_rule, refl)

  configured_parts :
      (env upstreams : Dict Text) (document : Node) (rules : Dict (RouteRule F))
      → All (λ item. IsUpstream item.1) env
      → configured urlsplit model_validate env document ≡ ok (upstreams, rules)
      → HasKey (str "_default") rules × All (λ item. IsUpstream item.1) upstreams
  unfolding configured
  configured_parts env upstreams document rules h e =
      let (sections, _, e₁) = >>=-ok (mapping_of document) _ e in
      let (_, _, e₂) = >>=-ok (refuse_if (has_unknown (entries_of sections)) value_error) _ e₁ in
      let (raw, _, e₃) =
        >>=-ok (mapping_of (section_of (str "upstreams") (entries_of sections))) _ e₂ in
      let (upstreams', a, e₄) =
        >>=-ok (add_upstreams urlsplit model_validate (entries_of raw) env) _ e₃ in
      let (rules', _, e₅) =
        >>=-ok
          (parse_rules urlsplit model_validate (section_of (str "rules") (entries_of sections))) _
          e₄ in
      let same_rules : update rules' builtin_rules ≡ rules = ground arith in
      let same_upstreams : upstreams' ≡ upstreams = ground arith in
      (
        subst (HasKey (str "_default")) same_rules
            (HasKey-update (str "_default") rules' builtin_rules builtin_default),
        subst (All (λ item. IsUpstream item.1)) same_upstreams
            (add_upstreams-All (entries_of raw) env upstreams' h a),
      )

  module _ (env : Dict Text) (env_sound : All (λ item. IsUpstream item.1) env) where
    abbrev pub load : Source → Active F → Result (Option Text) × Active F
    load = load_route_rules urlsplit model_validate env

    with_path-IsSound :
        (path : Option Text) (document : Result (Dict Text × Dict (RouteRule F)))
        (active : Active F)
        → ((upstreams : Dict Text) (rules : Dict (RouteRule F))
            → document ≡ ok (upstreams, rules)
            → HasKey (str "_default") rules × All (λ item. IsUpstream item.1) upstreams)
        → IsSound active
        → IsSound (with_path urlsplit model_validate env path document active).1
    with_path-IsSound none document active sound kept = record {
      has_default = builtin_default;
      upstreams = env_sound;
    }
    with_path-IsSound (some path) document active sound kept =
        elim (Result-cases (generic document)) [
          | inr (e, failed) ↦ rw failed kept
          | inl ((upstreams, rules), e) ↦
              let (has_default, valid) =
                sound upstreams rules (generic-ok document (upstreams, rules) e) in
              rw e (record { has_default = has_default; upstreams = valid })
        ]

    load-IsSound :
        (source : Source) (active : Active F) → IsSound active → IsSound (load source active).1
    unfolding load_route_rules
    load-IsSound source active =
        with_path-IsSound source.path (parsed urlsplit model_validate env source) active
          (λ upstreams rules e.
            let (document, _, e') = >>=-ok (source.read_text >>= source.safe_load) _ e in
            configured_parts env upstreams document rules env_sound e')

    -- After any sequence of loads, those that fail included, ROUTE_RULES has the rule "_default"
    -- and every upstream is one that the URL check accepts, if that holds before and of the
    -- upstreams in the environment.
    pub reload_all-IsSound :
        (sources : List Source) (active : Active F)
        → IsSound active
        → IsSound (reload_all urlsplit model_validate env sources active)
    unfolding reload_all
    reload_all-IsSound [] active sound = sound
    reload_all-IsSound (source ∷ sources) active sound =
        reload_all-IsSound sources _ (load-IsSound source active sound)

  module _ (env : Dict Text) where
    abbrev pub run : Source → Active F → Result (Option Text) × Active F
    run = load_route_rules urlsplit model_validate env

    abbrev pub Fails : Source → Type 0
    Fails source = (e : Exc) × ((active : Active F) → run source active ≡ (raise e, active))

    with_path_cases :
        (path : Option Text) (document : Result (Dict Text × Dict (RouteRule F)))
        → ((e : Exc) × ((active : Active F)
              → with_path urlsplit model_validate env path document active ≡ (raise e, active)))
          ⊎ ((found : Option Text) × (next : Active F) × ((active : Active F)
                → with_path urlsplit model_validate env path document active ≡ (ok found, next)))
    with_path_cases none document = inr (none, _, λ active. refl)
    with_path_cases (some path) document = elim (Result-cases (generic document)) [
      | inr (e, failed) ↦ inl (e, λ active. rw failed refl)
      | inl (parts, e) ↦ inr (
        some path,
        record { rules = parts.1; upstreams = parts.0; loaded = some path },
        λ active. rw e refl,
      )
    ]

    -- A load either fails whatever is active and changes nothing, or sets all that is active,
    -- whatever that was.
    load_cases :
        (source : Source)
        → Fails source
          ⊎ ((path : Option Text) × (next : Active F) × ((active : Active F)
                → run source active ≡ (ok path, next)))
    unfolding load_route_rules
    load_cases source = with_path_cases source.path (parsed urlsplit model_validate env source)

    keep_failing :
        (after : List Source) (active : Active F)
        → All Fails after
        → reload_all urlsplit model_validate env after active ≡ active
    unfolding reload_all
    keep_failing [] active fails = refl
    keep_failing (source ∷ after) active ((e, failed), fails) =
        rw (failed active) (keep_failing after active fails)

    sets_all :
        (source : Source) (active next : Active F) (path : Option Text)
        → run source active ≡ (ok path, next)
        → (other : Active F) → (run source other).1 ≡ next
    sets_all source active next path e other = elim (load_cases source) [
      | inl (failure, failed) ↦ cc (failed active)
      | inr (path', next', set) ↦ ap (λ r. r.1) (set other ∙ sym (set active) ∙ e)
    ]

    last_of :
        (before after : List Source) (source : Source) (active next : Active F)
        → ((other : Active F) → (run source other).1 ≡ next)
        → All Fails after
        → reload_all urlsplit model_validate env (before ++ source ∷ after) active ≡ next
    unfolding reload_all
    last_of [] after source active next sets fails =
        ap (reload_all urlsplit model_validate env after) (sets active)
        ∙ keep_failing after next fails
    last_of (s ∷ before) after source active next sets fails =
        last_of before after source (run s active).1 next sets fails

    -- After a load that succeeded and any number that fail, exactly what that load gives is active,
    -- whatever was active before it and whatever was loaded or refused before.
    pub reload_all_last :
        (before after : List Source) (source : Source) (active next : Active F) (path : Option Text)
        → run source active ≡ (ok path, next)
        → All Fails after
        → reload_all urlsplit model_validate env (before ++ source ∷ after) active ≡ next
    reload_all_last before after source active next path e fails =
        last_of before after source active next (sets_all source active next path e) fails
