-- ===== src/Base/Int.antt =====
-- The integers that a difference of two native numbers may be, with their order.
use Prim.Native.Nat.{ℕ, zero, suc, ◌-◌}
use mathlib.Core.Path.{◌≡◌}
use mathlib.Core.Bool.{Bool, true, false}
use native.Mathlib.Omega.{arith}
use opencti_middleware.Base.Tests.{leb, if◌then◌else◌}

-- `negsuc n` is -(n + 1).
pub data ℤ : Type 0 where
  pos : ℕ → ℤ
  negsuc : ℕ → ℤ

-- a - b, as an integer.
abbrev pub sub_ℕ : ℕ → ℕ → ℤ
sub_ℕ a b = if leb b a then pos (a - b) else negsuc (b - a - 1)

abbrev pub neg : ℤ → ℤ
neg (pos zero) = pos zero
neg (pos (suc n)) = negsuc n
neg (negsuc n) = pos (suc n)

abbrev pub leb_ℤ : ℤ → ℤ → Bool
leb_ℤ (pos a) (pos b) = leb a b
leb_ℤ (pos a) (negsuc b) = false
leb_ℤ (negsuc a) (pos b) = true
leb_ℤ (negsuc a) (negsuc b) = leb b a

pub leb_ℤ_trans : (a b c : ℤ) → leb_ℤ a b ≡ true → leb_ℤ b c ≡ true → leb_ℤ a c ≡ true
leb_ℤ_trans a b c h k = ground arith

pub leb_ℤ_total : (a b : ℤ) → leb_ℤ a b ≡ false → leb_ℤ b a ≡ true
leb_ℤ_total a b h = ground arith

pub leb_ℤ_antisymm : (a b : ℤ) → leb_ℤ a b ≡ true → leb_ℤ b a ≡ true → a ≡ b
leb_ℤ_antisymm a b h k = ground arith

pub leb_ℤ-neg : (a b : ℤ) → leb_ℤ (neg a) (neg b) ≡ leb_ℤ b a
leb_ℤ-neg (pos zero) (pos zero) = ground arith
leb_ℤ-neg (pos zero) (pos (suc b)) = ground arith
leb_ℤ-neg (pos zero) (negsuc b) = ground arith
leb_ℤ-neg (pos (suc a)) (pos zero) = ground arith
leb_ℤ-neg (pos (suc a)) (pos (suc b)) = ground arith
leb_ℤ-neg (pos (suc a)) (negsuc b) = ground arith
leb_ℤ-neg (negsuc a) (pos zero) = ground arith
leb_ℤ-neg (negsuc a) (pos (suc b)) = ground arith
leb_ℤ-neg (negsuc a) (negsuc b) = ground arith
