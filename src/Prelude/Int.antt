-- ===== src/Prelude/Int.antt =====
-- Signed 64-bit integers as integers over the native numbers. `negsuc n` is -(n + 1).
use Prim.Native.Nat.{ℕ, suc, ◌+◌, ◌-◌, ◌*◌, ◌%◌, ◌^◌, ◌≤◌, ◌<◌}
use mathlib.Core.Bool.{Bool}
use go_stream.Prelude.Tests.{ltb, leb, if◌then◌else◌}

pub data ℤ : Type 0 where
  pos : ℕ → ℤ
  negsuc : ℕ → ℤ

abbrev pos_part : ℤ → ℕ
pos_part (pos n) = n
pos_part (negsuc n) = 0

abbrev neg_part : ℤ → ℕ
neg_part (pos n) = 0
neg_part (negsuc n) = suc n

infix 50 ◌≤ℤ◌ ◌<ℤ◌
abbrev pub ◌≤ℤ◌ : ℤ → ℤ → Type 0
a ≤ℤ b = pos_part a + neg_part b ≤ pos_part b + neg_part a

abbrev pub ◌<ℤ◌ : ℤ → ℤ → Type 0
a <ℤ b = pos_part a + neg_part b < pos_part b + neg_part a

abbrev pub leb_ℤ : ℤ → ℤ → Bool
leb_ℤ a b = leb (pos_part a + neg_part b) (pos_part b + neg_part a)

abbrev pub ltb_ℤ : ℤ → ℤ → Bool
ltb_ℤ a b = ltb (pos_part a + neg_part b) (pos_part b + neg_part a)

-- An int64, and the smallest one.
abbrev pub IsInt64 : ℤ → Type 0
IsInt64 a = (pos_part a < 2 ^ 63) × (neg_part a ≤ 2 ^ 63)

-- The int64 with the 64 bits of `w`.
abbrev of_word : ℕ → ℤ
of_word w = if ltb w (2 ^ 63) then pos w else negsuc (2 ^ 64 - 1 - w)

abbrev wrap64 : ℤ → ℤ
wrap64 (pos n) = of_word (n % 2 ^ 64)
wrap64 (negsuc n) = of_word (2 ^ 64 - 1 - n % 2 ^ 64)

-- `a * 2` on int64.
abbrev pub double64 : ℤ → ℤ
double64 (pos n) = wrap64 (pos (2 * n))
double64 (negsuc n) = wrap64 (negsuc (2 * n + 1))
