-- ===== src/Common/Bytes.antt =====
-- Bytes, and the `to_le_bytes`, `from_le_bytes`, `to_be_bytes` and `from_be_bytes` of Rust's
-- unsigned integers. A byte slice is a list of numbers below 256.
use Prim.Native.Nat.{ℕ, zero, suc, ◌+◌, ◌*◌, ◌/◌, ◌%◌, ◌^◌, ◌<◌}
use mathlib.Core.Path.{◌≡◌, refl, ap, ◌∙◌}
use mathlib.Core.List.{List, [], ◌∷◌, reverse, reverse-reverse}
use mathlib.Core.Bool.{Bool, true, false, ◌&&◌}
use pg_eddy.Common.Tests.{◌==◌, ==_self}
use native.Mathlib.Omega.{arith}
use native.Mathlib.Nat.{pow-suc}
use pg_eddy.Common.Lists.{length, length-reverse, All}

-- Equality of byte slices.
abbrev pub eq_bytes : List ℕ → List ℕ → Bool
eq_bytes [] [] = true
eq_bytes [] (c ∷ cs) = false
eq_bytes (b ∷ bs) [] = false
eq_bytes (b ∷ bs) (c ∷ cs) = (b == c) && eq_bytes bs cs

pub eq_bytes_self : (bs : List ℕ) → eq_bytes bs bs ≡ true
eq_bytes_self [] = refl
eq_bytes_self (b ∷ bs) = rw (==_self b) (eq_bytes_self bs)

pub eq_bytes→eq : (bs cs : List ℕ) → eq_bytes bs cs ≡ true → bs ≡ cs
eq_bytes→eq [] [] h = refl
eq_bytes→eq [] (c ∷ cs) h = cc
eq_bytes→eq (b ∷ bs) [] h = cc
eq_bytes→eq (b ∷ bs) (c ∷ cs) h = ground (arith, eq_bytes→eq bs cs)

abbrev pub IsByte : ℕ → Type 0
IsByte b = b < 256

-- The `k` low bytes of `v`, lowest first.
unfoldable pub le_bytes : ℕ → ℕ → List ℕ
le_bytes zero v = []
le_bytes (suc k) v = (v % 256) ∷ le_bytes k (v / 256)

unfoldable pub from_le : List ℕ → ℕ
from_le [] = 0
from_le (b ∷ bs) = b + 256 * from_le bs

unfoldable pub be_bytes : ℕ → ℕ → List ℕ
unfolding le_bytes
be_bytes k v = reverse (le_bytes k v)

unfoldable pub from_be : List ℕ → ℕ
unfolding from_le
from_be bs = from_le (reverse bs)

pub length-le_bytes : (k v : ℕ) → length (le_bytes k v) ≡ k
unfolding le_bytes
length-le_bytes zero v = refl
length-le_bytes (suc k) v = ap suc (length-le_bytes k (v / 256))

pub length-be_bytes : (k v : ℕ) → length (be_bytes k v) ≡ k
unfolding be_bytes
length-be_bytes k v = length-reverse (le_bytes k v) ∙ length-le_bytes k v

pub le_bytes-All : (k v : ℕ) → All IsByte (le_bytes k v)
unfolding le_bytes
le_bytes-All zero v = tt
le_bytes-All (suc k) v = (omega arith, le_bytes-All k (v / 256))

-- Reading back what was written: the value itself, where it fits `k` bytes.
pub from_le-le_bytes : (k v : ℕ) → v < 256 ^ k → from_le (le_bytes k v) ≡ v
unfolding le_bytes from_le
from_le-le_bytes zero v h = omega arith
from_le-le_bytes (suc k) v h =
    let fits : v / 256 < 256 ^ k = omega (arith, pow-suc 256 k) in
    omega (arith, from_le-le_bytes k (v / 256) fits)

pub from_be-be_bytes : (k v : ℕ) → v < 256 ^ k → from_be (be_bytes k v) ≡ v
unfolding be_bytes from_be
from_be-be_bytes k v h = rw (reverse-reverse) (from_le-le_bytes k v h)

-- A slice of bytes stands for a number that fits it.
pub from_le-lt : (bs : List ℕ) → All IsByte bs → from_le bs < 256 ^ length bs
unfolding from_le
from_le-lt [] h = omega arith
from_le-lt (b ∷ bs) (h, hs) = omega (arith, from_le-lt bs hs, pow-suc 256 (length bs))
