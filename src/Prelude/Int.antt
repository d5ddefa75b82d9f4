-- ===== src/Prelude/Int.antt =====
-- Signed integers, and the two's complement patterns of a w-bit word.
use Prim.Native.Nat.{ℕ, ◌+◌, ◌-◌, ◌<◌}
use mathlib.Core.Path.{◌≡◌}
use mathlib.Core.Bool.{Bool, false}
use mathlib.Core.Logic.{◌↔◌}
use mathlib.Core.Bool.{true}
use native.Mathlib.Omega.{arith}
use hla4_rs.Prelude.Tests.{ltb, ◌==◌, if◌then◌else◌}

-- `negsuc n` is -(n + 1).
pub data ℤ : Type 0 where
  pos : ℕ → ℤ
  negsuc : ℕ → ℤ

abbrev pub eqb : ℤ → ℤ → Bool
eqb (pos a) (pos b) = a == b
eqb (negsuc a) (negsuc b) = a == b
eqb _ _ = false

pub eqb_iff : (a b : ℤ) → (eqb a b ≡ true) ↔ (a ≡ b)
eqb_iff (pos a) (pos b) = ground arith
eqb_iff (pos a) (negsuc b) = ground arith
eqb_iff (negsuc a) (pos b) = ground arith
eqb_iff (negsuc a) (negsuc b) = ground arith

-- Room in a signed word whose sign bit has the weight `half`.
abbrev pub Fits : ℕ → ℤ → Type 0
Fits half (pos n) = n < half
Fits half (negsuc n) = n < half

-- The unsigned number with the same bits.
unfoldable pub to_bits : ℕ → ℤ → ℕ
to_bits half (pos n) = n
to_bits half (negsuc n) = half + half - 1 - n

unfoldable pub of_bits : ℕ → ℕ → ℤ
of_bits half n = if ltb n half then pos n else negsuc (half + half - 1 - n)

pub to_bits-lt : (half : ℕ) (z : ℤ) → 0 < half → Fits half z → to_bits half z < half + half
unfolding to_bits
to_bits-lt half (pos n) p h = omega arith
to_bits-lt half (negsuc n) p h = omega arith

pub of_bits-to_bits : (half : ℕ) (z : ℤ) → Fits half z → of_bits half (to_bits half z) ≡ z
unfolding of_bits to_bits
of_bits-to_bits half (pos n) h = ground arith
of_bits-to_bits half (negsuc n) h = ground arith

pub to_bits-of_bits : (half n : ℕ) → n < half + half → to_bits half (of_bits half n) ≡ n
unfolding of_bits to_bits
to_bits-of_bits half n h = ground arith

pub of_bits-Fits : (half n : ℕ) → n < half + half → Fits half (of_bits half n)
unfolding of_bits
of_bits-Fits half n h = ground arith
