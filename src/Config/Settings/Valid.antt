-- ===== src/Config/Settings/Valid.antt =====
-- What validated settings promise the components.
use adaptive_gateway.Prelude.{
  ℕ, zero, suc, ◌≡◌, refl, inl, inr, true, false, List, [], ◌∷◌, any, arith, All, if◌then◌else◌,
}
use adaptive_gateway.Prelude.Texts.{Text}
use adaptive_gateway.Prelude.Floats.{Float}
use adaptive_gateway.Prelude.Ints.{ℤ, pos, negsuc}
use adaptive_gateway.Prelude.Results.{Result, ok, value_error, >>=-ok, refuse_if-ok, Result-cases}
use adaptive_gateway.Config.{Url, validate_upstream_url}
use adaptive_gateway.Config.Settings.{
  Settings, is_nonpositive, positive_fields, no_items, is_production, weak_secret, each,
  refused_thresholds, refused_hysteresis, refused_alpha, refused_budget, refused_backoff,
  production_checks, boundary_checks, in_order, validate_production, validate_boundaries,
}

abbrev pub IsPositive : ℤ → Type 0
IsPositive n = (m : ℕ) × (n ≡ pos (suc m))

positive : (n : ℤ) → is_nonpositive n ≡ false → IsPositive n
positive (pos zero) h = ground arith
positive (pos (suc m)) h = (m, refl)
positive (negsuc m) h = ground arith

all-IsPositive : (ns : List ℤ) → any is_nonpositive ns ≡ false → All IsPositive ns
all-IsPositive [] h = tt
all-IsPositive (n ∷ ns) h = (positive n (ground arith), all-IsPositive ns (ground arith))

each-All :
    {A B : Type 0} (check : A → Result B) (xs : List A)
    → each check xs ≡ ok tt
    → All (λ x. (b : B) × (check x ≡ ok b)) xs
each-All check [] h = tt
each-All check (x ∷ xs) h = elim (Result-cases (check x)) [
  | inl (b, e) ↦ ((b, e), each-All check xs (rw e at h))
  | inr (e, failed) ↦ ground arith
]

module _ (fl : Float) (ip_network : Text → Result (Unit {0})) (urlsplit : Text → Result Url) where
  open fl use {F, lt, le, of_ℕ, is_finite}

  pub record IsValid (s : Settings F) : Type 0 where
    pub thresholds : refused_thresholds fl ip_network urlsplit s ≡ false
    pub hysteresis : refused_hysteresis fl ip_network urlsplit s ≡ false
    pub alpha : refused_alpha fl ip_network urlsplit s ≡ false
    pub positives : All IsPositive (positive_fields s)
    pub budget : refused_budget fl ip_network urlsplit s ≡ false
    pub schedule : no_items s.queue_backoff_schedule ≡ false
    pub delays : All IsPositive s.queue_backoff_schedule
    pub lease : le (of_ℕ s.queue_claim_idle_seconds) s.upstream_timeout_seconds ≡ false
    pub upstreams :
        All
          (λ item. (url : Text) × (validate_upstream_url urlsplit item.1 ≡ ok url))
          s.upstream_services
    pub secret : is_production s ≡ true → weak_secret s.secret_key ≡ false

  checked :
      (s s' : Settings F)
      → validate_boundaries fl ip_network urlsplit s ≡ ok s'
      → (s' ≡ s) × All (λ r. (u : Unit {0}) × (r ≡ ok u)) (boundary_checks fl ip_network urlsplit s)
  unfolding validate_boundaries
  checked s s' e =
      let (u, passed, same) = >>=-ok (in_order (boundary_checks fl ip_network urlsplit s)) _ e in
      (ground arith, each-All (λ check. check) (boundary_checks fl ip_network urlsplit s) passed)

  strong_secret :
      (s : Settings F)
      → (if is_production s then validate_production fl ip_network urlsplit s else ok tt) ≡ ok tt
      → is_production s ≡ true
      → weak_secret s.secret_key ≡ false
  unfolding validate_production
  strong_secret s e production =
      let passed = rw production at e in
      let c = each-All (λ check. check) (production_checks fl ip_network urlsplit s) passed in
      refuse_if-ok (weak_secret s.secret_key) value_error c.0.1

  pub validate_boundaries-IsValid :
      (s s' : Settings F)
      → validate_boundaries fl ip_network urlsplit s ≡ ok s'
      → (s' ≡ s) × IsValid s
  validate_boundaries-IsValid s s' e =
      let (same, c) = checked s s' e in
      let schedule : refused_backoff fl ip_network urlsplit s ≡ false =
        refuse_if-ok (refused_backoff fl ip_network urlsplit s) value_error c.1.1.1.1.1.0.1 in
      (
        same,
        record {
          thresholds = refuse_if-ok (refused_thresholds fl ip_network urlsplit s) value_error c.0.1;
          hysteresis =
              refuse_if-ok (refused_hysteresis fl ip_network urlsplit s) value_error c.1.0.1;
          alpha = refuse_if-ok (refused_alpha fl ip_network urlsplit s) value_error c.1.1.0.1;
          positives =
              all-IsPositive (positive_fields s)
                (refuse_if-ok (any is_nonpositive (positive_fields s)) value_error c.1.1.1.0.1);
          budget = refuse_if-ok (refused_budget fl ip_network urlsplit s) value_error c.1.1.1.1.0.1;
          schedule = ground arith;
          delays = all-IsPositive s.queue_backoff_schedule (ground arith);
          lease =
              refuse_if-ok (le (of_ℕ s.queue_claim_idle_seconds) s.upstream_timeout_seconds)
                value_error c.1.1.1.1.1.1.0.1;
          upstreams =
              each-All (λ item. validate_upstream_url urlsplit item.1) s.upstream_services
                c.1.1.1.1.1.1.1.1.1.0.1;
          secret = strong_secret s c.1.1.1.1.1.1.1.1.1.1.1.0.1;
        },
      )
