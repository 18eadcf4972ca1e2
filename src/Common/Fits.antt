-- ===== src/Common/Fits.antt =====
-- The values of C's `int`, as a test.
use Prim.Native.Nat.{ℕ, ◌%◌, ◌^◌, ◌<◌}
use mathlib.Core.Path.{◌≡◌, refl}
use mathlib.Core.Bool.{Bool, true}
use native.Mathlib.Omega.{arith}
use trfs_stackable_filesyste.Common.Tests.{ltb}
use trfs_stackable_filesyste.Common.Int.{ℤ, pos, negsuc, int32, bits32, bits32-lt, IsInt32}

-- `IsInt32` as a test.
pub fits_int : ℤ → Bool
fits_int (pos n) = ltb n (2 ^ 31)
fits_int (negsuc n) = ltb n (2 ^ 31)

pub fits_int-IsInt32 : (e : ℤ) → fits_int e ≡ true → IsInt32 e
unfolding fits_int
fits_int-IsInt32 (pos n) h = ground arith
fits_int-IsInt32 (negsuc n) h = ground arith

pub IsInt32-fits_int : (e : ℤ) → IsInt32 e → fits_int e ≡ true
unfolding fits_int
IsInt32-fits_int (pos n) h = ground arith
IsInt32-fits_int (negsuc n) h = ground arith

pub fits_int-zero : fits_int (pos 0) ≡ true
unfolding fits_int
fits_int-zero = refl

pub fits_int-one : fits_int (pos 1) ≡ true
unfolding fits_int
fits_int-one = refl

pub fits_int-small : (n : ℕ) → n < 4096 → fits_int (negsuc n) ≡ true
unfolding fits_int
fits_int-small n h = ground arith

pub fits_int-int32 : (n : ℕ) → fits_int (int32 (n % 2 ^ 32)) ≡ true
unfolding fits_int int32
fits_int-int32 n = ground arith

pub fits_int-bits32 : (z : ℤ) → fits_int (int32 (bits32 z)) ≡ true
unfolding fits_int int32
fits_int-bits32 z = ground (arith, bits32-lt z)
