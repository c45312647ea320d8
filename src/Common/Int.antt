-- ===== src/Common/Int.antt =====
-- Rust's `i32` and `i64`: integers with their two's complement bit patterns.
use Prim.Native.Nat.{ℕ, suc, ◌+◌, ◌-◌, ◌^◌, ◌<◌}
use mathlib.Core.Path.{◌≡◌}
use mathlib.Core.Bool.{Bool, true, false}
use native.Mathlib.Omega.{arith}
use pg_eddy.Common.Tests.{ltb, ◌==◌, if◌then◌else◌}

-- `negsuc n` is -(n + 1).
pub data ℤ : Type 0 where
  pos : ℕ → ℤ
  negsuc : ℕ → ℤ

-- The magnitude of a `w`-bit integer: both signs reach up to 2 ^ (w - 1) - 1.
abbrev pub Fits : ℕ → ℤ → Type 0
Fits half (pos n) = n < half
Fits half (negsuc n) = n < half

abbrev pub IsI32 : ℤ → Type 0
IsI32 v = Fits (2 ^ 31) v

abbrev pub IsI64 : ℤ → Type 0
IsI64 v = Fits (2 ^ 63) v

-- `v as u32`, `v as u64`: the bit pattern, given half of the modulus.
unfoldable pub to_bits : ℕ → ℤ → ℕ
to_bits half (pos n) = n
to_bits half (negsuc n) = half + half - suc n

unfoldable pub from_bits : ℕ → ℕ → ℤ
from_bits half w = if ltb w half then pos w else negsuc (half + half - suc w)

pub to_bits-lt : (half : ℕ) (v : ℤ) → Fits half v → to_bits half v < half + half
unfolding to_bits
to_bits-lt half (pos n) h = omega arith
to_bits-lt half (negsuc n) h = omega arith

pub from_bits-to_bits : (half : ℕ) (v : ℤ) → Fits half v → from_bits half (to_bits half v) ≡ v
unfolding to_bits from_bits
from_bits-to_bits half (pos n) h = ground arith
from_bits-to_bits half (negsuc n) h = ground arith

pub from_bits-Fits : (half w : ℕ) → w < half + half → Fits half (from_bits half w)
unfolding from_bits
from_bits-Fits half w h = ground arith

abbrev pub eq_ℤ : ℤ → ℤ → Bool
eq_ℤ (pos a) (pos b) = a == b
eq_ℤ (negsuc a) (negsuc b) = a == b
eq_ℤ _ _ = false

pub eq_ℤ_self : (a : ℤ) → eq_ℤ a a ≡ true
eq_ℤ_self (pos a) = ground arith
eq_ℤ_self (negsuc a) = ground arith

pub eq_ℤ→eq : (a b : ℤ) → eq_ℤ a b ≡ true → a ≡ b
eq_ℤ→eq (pos a) (pos b) h = ground arith
eq_ℤ→eq (negsuc a) (negsuc b) h = ground arith
eq_ℤ→eq (pos a) (negsuc b) h = cc
eq_ℤ→eq (negsuc a) (pos b) h = cc
