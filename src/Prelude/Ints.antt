-- ===== src/Prelude/Ints.antt =====
-- Python's `int` where it may be negative. `negsuc n` is -(n + 1).
use Prim.Native.Nat.{ℕ, zero, suc, ◌+◌, ◌≤◌}
use mathlib.Core.Bool.{Bool}
use adaptive_gateway.Prelude.Tests.{leb}

pub data ℤ : Type 0 where
  pos : ℕ → ℤ
  negsuc : ℕ → ℤ

abbrev pub pos_part : ℤ → ℕ
pos_part (pos n) = n
pos_part (negsuc n) = 0

abbrev pub neg_part : ℤ → ℕ
neg_part (pos n) = 0
neg_part (negsuc n) = suc n

-- n + 1
abbrev pub succ : ℤ → ℤ
succ (pos n) = pos (suc n)
succ (negsuc zero) = pos 0
succ (negsuc (suc n)) = negsuc n

abbrev pub leb_ℤ : ℤ → ℤ → Bool
leb_ℤ a b = leb (pos_part a + neg_part b) (pos_part b + neg_part a)

abbrev pub ◌≤ℤ◌ : ℤ → ℤ → Type 0
◌≤ℤ◌ a b = pos_part a + neg_part b ≤ pos_part b + neg_part a
