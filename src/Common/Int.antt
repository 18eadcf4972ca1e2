-- ===== src/Common/Int.antt =====
-- C's signed `int` and `short` as integers over the native numbers, with their bit patterns.
use Prim.Native.Nat.{ℕ, ◌-◌, ◌%◌, ◌^◌, ◌<◌}
use mathlib.Core.Path.{◌≡◌}
use mathlib.Core.Bool.{Bool, true, false}
use native.Mathlib.Omega.{arith}
use trfs_stackable_filesyste.Common.Tests.{ltb, ◌==◌, if◌then◌else◌}

-- `negsuc n` is -(n + 1).
pub data ℤ : Type 0 where
  pos : ℕ → ℤ
  negsuc : ℕ → ℤ

abbrev pub eqb_ℤ : ℤ → ℤ → Bool
eqb_ℤ (pos a) (pos b) = a == b
eqb_ℤ (pos a) (negsuc b) = false
eqb_ℤ (negsuc a) (pos b) = false
eqb_ℤ (negsuc a) (negsuc b) = a == b

-- `e < 0`
abbrev pub is_negative : ℤ → Bool
is_negative (pos a) = false
is_negative (negsuc a) = true

-- `e != 0`
abbrev pub is_error : ℤ → Bool
is_error (pos a) = if a == 0 then false else true
is_error (negsuc a) = true

-- The 32-bit pattern of an `int`, and the `int` of a pattern.
unfoldable pub bits32 : ℤ → ℕ
bits32 (pos n) = n % 2 ^ 32
bits32 (negsuc n) = 2 ^ 32 - 1 - n % 2 ^ 32

unfoldable pub int32 : ℕ → ℤ
int32 w = if ltb w (2 ^ 31) then pos w else negsuc (2 ^ 32 - 1 - w)

-- What an `int` can hold.
abbrev pub IsInt32 : ℤ → Type 0
IsInt32 (pos n) = n < 2 ^ 31
IsInt32 (negsuc n) = n < 2 ^ 31

-- The same for `short`.
unfoldable pub bits16 : ℤ → ℕ
bits16 (pos n) = n % 2 ^ 16
bits16 (negsuc n) = 2 ^ 16 - 1 - n % 2 ^ 16

unfoldable pub int16 : ℕ → ℤ
int16 w = if ltb w (2 ^ 15) then pos w else negsuc (2 ^ 16 - 1 - w)

abbrev pub IsInt16 : ℤ → Type 0
IsInt16 (pos n) = n < 2 ^ 15
IsInt16 (negsuc n) = n < 2 ^ 15

pub int32-bits32 : (z : ℤ) → IsInt32 z → int32 (bits32 z) ≡ z
unfolding int32 bits32
int32-bits32 (pos n) h = ground arith
int32-bits32 (negsuc n) h = ground arith

pub int16-bits16 : (z : ℤ) → IsInt16 z → int16 (bits16 z) ≡ z
unfolding int16 bits16
int16-bits16 (pos n) h = ground arith
int16-bits16 (negsuc n) h = ground arith

pub bits32-lt : (z : ℤ) → bits32 z < 2 ^ 32
unfolding bits32
bits32-lt (pos n) = omega arith
bits32-lt (negsuc n) = omega arith

pub bits16-lt : (z : ℤ) → bits16 z < 2 ^ 16
unfolding bits16
bits16-lt (pos n) = omega arith
bits16-lt (negsuc n) = omega arith
