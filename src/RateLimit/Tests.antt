-- ===== src/RateLimit/Tests.antt =====
-- A counter that is the same for every key, and a window of ten seconds with a limit of two.
use adaptive_gateway.Prelude.{
  ℕ, ◌+◌, ◌≡◌, refl, false, Option, none, some, [], ◌∷◌, arith, ltb, ◌==◌, if◌then◌else◌,
}
use adaptive_gateway.Prelude.Texts.{str}
use adaptive_gateway.RateLimit.{Counters, CounterLaws, lapsed, count_hit, check_rate_limit}
use adaptive_gateway.RateLimit.Window.{allowed, allowed_lem}

abbrev counted : ℕ → ℕ × Option ℕ → ℕ
counted t (n, d) = if lapsed t d then 0 else n

abbrev counter : Counters
counter = record {
  S = ℕ × Option ℕ;
  count = λ t _ s. counted t s;
  deadline = λ _ s. s.1;
  incr = λ t _ s. (counted t s + 1, (counted t s + 1, if counted t s == 0 then none else s.1));
  expire = λ t window _ s. (counted t s, some (t + window));
}

expired :
    (t t' window : ℕ) (s : ℕ × Option ℕ)
    → counted t' (counted t s, some (t + window)) ≡ (if ltb t' (t + window) then counted t s else 0)
expired t t' window s = ground arith

counter_laws : CounterLaws counter
counter_laws = record {
  incr-count = λ t k s. refl;
  deadline-incr = λ t k s. refl;
  count-incr = λ t t' k s _. refl;
  deadline-expire = λ t window k s. refl;
  count-expire = λ t t' window k s _. expired t t' window s;
}

-- All four requests come in one window.
allowed_lem_example : allowed counter false (str "k") 2 10 (5 ∷ 6 ∷ 9 ∷ 14 ∷ []) (0, none) ≡ 2
allowed_lem_example =
    allowed_lem counter false (str "k") 2 10 counter_laws 5 (6 ∷ 9 ∷ 14 ∷ []) (0, none) refl
      (omega arith, omega arith, (omega arith, omega arith, (omega arith, omega arith, tt)))

-- A new window starts when the first has lapsed.
next_window : allowed counter false (str "k") 2 10 (5 ∷ 6 ∷ 9 ∷ 15 ∷ 16 ∷ 17 ∷ []) (0, none) ≡ 4
unfolding check_rate_limit count_hit
next_window = refl
