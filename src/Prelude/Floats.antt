-- ===== src/Prelude/Floats.antt =====
-- Python's floating-point numbers: the type and the operations that the gateway calls, and the
-- order laws that IEEE 754 gives on finite numbers. `fixed` is one way to meet them.
use Prim.Native.Nat.{ℕ, ◌+◌, ◌-◌, ◌*◌, ◌/◌}
use mathlib.Core.Path.{◌≡◌, refl}
use mathlib.Core.Bool.{Bool, true, false, not, ◌&&◌}
use mathlib.Core.Option
use mathlib.Core.Option.{Option, none, some}
use mathlib.Core.List.{[], ◌∷◌}
use native.Mathlib.Omega.{arith}
use adaptive_gateway.Prelude.Tests.{ltb, leb, ◌==◌, if◌then◌else◌}
use adaptive_gateway.Prelude.Ints.{ℤ, pos}
use adaptive_gateway.Prelude.Texts.{Text, str}

pub record Float : Type 1 where
  pub F : Type 0
  -- math.isfinite(a)
  pub is_finite : F → Bool
  pub is_nan : F → Bool
  -- a is b or a == b, as the members of lists and dicts are compared
  pub eq : F → F → Bool
  -- a < b, a <= b
  pub lt : F → F → Bool
  pub le : F → F → Bool
  pub add : F → F → F
  pub sub : F → F → F
  pub mul : F → F → F
  -- float(n) of a nonnegative int
  pub of_ℕ : ℕ → F
  -- f"{x:.1f}" and f"{x:.0f}"
  pub format1 : F → Text
  pub format0 : F → Text
  -- float(s), with `none` for ValueError
  pub parse : Text → Option F
  -- int(x) of a finite x, and int(s) with `none` for ValueError
  pub trunc : F → ℤ
  pub parse_int : Text → Option ℤ

-- Comparisons with NaN are false, so the laws speak of finite numbers. Rounding is monotone, so
-- they hold of binary64 as they do of the rationals.
pub record FloatOrder (f : Float) : Type 0 where
  pub lt-eq-not-le :
      (a b : f.F) → f.is_finite a ≡ true → f.is_finite b ≡ true → f.lt a b ≡ not (f.le b a)
  pub lt-le : (a b : f.F) → f.lt a b ≡ true → f.le a b ≡ true
  pub le_trans : (a b c : f.F) → f.le a b ≡ true → f.le b c ≡ true → f.le a c ≡ true
  pub sub-le :
      (a b : f.F)
      → f.is_finite a ≡ true
      → f.is_finite b ≡ true
      → f.le (f.of_ℕ 0) b ≡ true
      → f.le (f.sub a b) a ≡ true
  pub sub-le-sub :
      (a b c : f.F)
      → f.is_finite a ≡ true
      → f.is_finite b ≡ true
      → f.is_finite c ≡ true
      → f.le a b ≡ true
      → f.le (f.sub a c) (f.sub b c) ≡ true
  pub sub_finite :
      (a b : f.F)
      → f.is_finite a ≡ true
      → f.is_finite b ≡ true
      → f.le (f.of_ℕ 0) b ≡ true
      → f.le b a ≡ true
      → f.is_finite (f.sub a b) ≡ true

-- Nonnegative thousandths with an infinity, for the examples.
pub data Fixed : Type 0 where
  fin : ℕ → Fixed
  inf : Fixed

abbrev digits : Text → ℕ → Option ℕ
digits [] n = some n
digits (c ∷ s) n =
    let rest = digits s (n * 10 + (c - b'0')) in if leb b'0' c && leb c b'9' then rest else none

abbrev decimal : Text → Option ℕ
decimal [] = none
decimal (c ∷ s) = digits (c ∷ s) 0

abbrev is_fin : Fixed → Bool
is_fin (fin n) = true
is_fin inf = false

abbrev lt_fixed : Fixed → Fixed → Bool
lt_fixed (fin a) (fin b) = ltb a b
lt_fixed (fin a) inf = true
lt_fixed inf b = false

abbrev le_fixed : Fixed → Fixed → Bool
le_fixed (fin a) (fin b) = leb a b
le_fixed a inf = true
le_fixed inf (fin b) = false

abbrev eq_fixed : Fixed → Fixed → Bool
eq_fixed (fin a) (fin b) = a == b
eq_fixed inf inf = true
eq_fixed _ _ = false

abbrev lift₂ : (ℕ → ℕ → ℕ) → Fixed → Fixed → Fixed
lift₂ f (fin a) (fin b) = fin (f a b)
lift₂ f (fin a) inf = inf
lift₂ f inf b = inf

abbrev floor : Fixed → ℤ
floor (fin n) = pos (n / 1000)
floor inf = pos 0

abbrev pub fixed : Float
fixed = record {
  F = Fixed;
  is_finite = is_fin;
  is_nan = λ _. false;
  eq = eq_fixed;
  lt = lt_fixed;
  le = le_fixed;
  add = lift₂ (λ a b. a + b);
  sub = lift₂ (λ a b. a - b);
  mul = lift₂ (λ a b. a * b / 1000);
  of_ℕ = λ n. fin (n * 1000);
  format1 = λ _. str "1.0";
  format0 = λ _. str "1";
  parse = λ s. Option.map (λ n. fin (n * 1000)) (decimal s);
  trunc = floor;
  parse_int = λ s. Option.map pos (decimal s);
}

le_fixed_trans : (a b c : Fixed) → le_fixed a b ≡ true → le_fixed b c ≡ true → le_fixed a c ≡ true
le_fixed_trans (fin a) (fin b) (fin c) h k = ground arith
le_fixed_trans inf (fin b) c h k = cc
le_fixed_trans (fin a) inf (fin c) h k = cc
le_fixed_trans inf inf (fin c) h k = cc
le_fixed_trans a b inf h k = ground arith

sub-le-fixed :
    (a b : Fixed) → is_fin a ≡ true → is_fin b ≡ true → le_fixed (lift₂ (λ m n. m - n) a b) a ≡ true
sub-le-fixed a b h k = ground arith

sub-le-sub-fixed :
    (a b c : Fixed)
    → is_fin a ≡ true
    → is_fin b ≡ true
    → is_fin c ≡ true
    → le_fixed a b ≡ true
    → le_fixed (lift₂ (λ m n. m - n) a c) (lift₂ (λ m n. m - n) b c) ≡ true
sub-le-sub-fixed a b c h k l le = ground arith

lt-eq-not-le-fixed :
    (a b : Fixed) → is_fin a ≡ true → is_fin b ≡ true → lt_fixed a b ≡ not (le_fixed b a)
lt-eq-not-le-fixed a b h k = ground arith

lt-le-fixed : (a b : Fixed) → lt_fixed a b ≡ true → le_fixed a b ≡ true
lt-le-fixed (fin a) (fin b) h = ground arith
lt-le-fixed (fin a) inf h = refl
lt-le-fixed inf b h = cc

fin-sub :
    (a b : Fixed) → is_fin a ≡ true → is_fin b ≡ true → is_fin (lift₂ (λ m n. m - n) a b) ≡ true
fin-sub a b h k = ground arith

pub fixed_order : FloatOrder fixed
fixed_order = record {
  lt-eq-not-le = lt-eq-not-le-fixed;
  lt-le = lt-le-fixed;
  le_trans = le_fixed_trans;
  sub-le = λ a b h k _. sub-le-fixed a b h k;
  sub-le-sub = sub-le-sub-fixed;
  sub_finite = λ a b h k _ _. fin-sub a b h k;
}
