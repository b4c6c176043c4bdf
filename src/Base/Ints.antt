-- ===== src/Base/Ints.antt =====
-- Signed integers over the native numbers, for Go's int where it can fall below zero.
use Prim.Native.Nat.{ℕ, zero, suc, ◌-◌}
use mathlib.Core.Path.{◌≡◌}
use mathlib.Core.Bool.{Bool, true, false}
use native.Mathlib.Omega.{arith}
use cicd_operator.Base.Tests.{leb, if◌then◌else◌}

-- `negsuc n` is -(n + 1).
pub data ℤ : Type 0 where
  pos : ℕ → ℤ
  negsuc : ℕ → ℤ

-- a - b, as an integer.
unfoldable pub sub_ℕ : ℕ → ℕ → ℤ
sub_ℕ a b = if leb b a then pos (a - b) else negsuc (b - a - 1)

-- z + 1 and z - 1.
unfoldable pub incr : ℤ → ℤ
incr (pos n) = pos (suc n)
incr (negsuc zero) = pos 0
incr (negsuc (suc n)) = negsuc n

unfoldable pub decr : ℤ → ℤ
decr (pos zero) = negsuc 0
decr (pos (suc n)) = pos n
decr (negsuc n) = negsuc (suc n)

-- z > 0
unfoldable pub is_pos : ℤ → Bool
is_pos (pos zero) = false
is_pos (pos (suc n)) = true
is_pos (negsuc n) = false

-- max(z, 0), as a number.
abbrev pub to_nat : ℤ → ℕ
to_nat (pos n) = n
to_nat (negsuc n) = 0

pub incr-sub_ℕ : (a b : ℕ) → incr (sub_ℕ a (suc b)) ≡ sub_ℕ a b
unfolding incr sub_ℕ
incr-sub_ℕ a b = ground arith

pub to_nat-sub_ℕ : (a b : ℕ) → to_nat (sub_ℕ a b) ≡ a - b
unfolding sub_ℕ
to_nat-sub_ℕ a b = ground arith
