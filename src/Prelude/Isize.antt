-- ===== src/Prelude/Isize.antt =====
-- Integers, and those of 64 bits: the casts `as isize` and the subtraction, which panics on overflow.
use Prim.Native.Nat.{ℕ, ◌+◌, ◌-◌, ◌^◌}
use mathlib.Core.Option.{Option, none, some}
use h.Prelude.Tests.{ltb, leb, if◌then◌else◌}

-- `negsuc n` is `- n - 1`.
pub data ℤ : Type 0 where
  pos : ℕ → ℤ
  negsuc : ℕ → ℤ

unfoldable pub as_isize : ℕ → ℤ
as_isize n = if ltb n (2 ^ 63) then pos n else negsuc (2 ^ 64 - 1 - n)

infixl 6 ◌-ℤ◌
unfoldable pub ◌-ℤ◌ : ℤ → ℤ → ℤ
pos a -ℤ pos b = if leb b a then pos (a - b) else negsuc (b - a - 1)
pos a -ℤ negsuc b = pos (a + b + 1)
negsuc a -ℤ pos b = negsuc (a + b)
negsuc a -ℤ negsuc b = if leb a b then pos (b - a) else negsuc (a - b - 1)

unfoldable pub in_isize : ℤ → Option ℤ
in_isize (pos n) = if ltb n (2 ^ 63) then some (pos n) else none
in_isize (negsuc n) = if ltb n (2 ^ 63) then some (negsuc n) else none

unfoldable pub sub_isize : ℤ → ℤ → Option ℤ
unfolding in_isize ◌-ℤ◌
sub_isize x y = in_isize (x -ℤ y)
