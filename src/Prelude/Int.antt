-- ===== src/Prelude/Int.antt =====
-- Signed integers over the native numbers, under the library's names, and Go's `int64`.
use Prim.Native.Nat.{ℕ, suc, ◌+◌, ◌-◌, ◌*◌, ◌/◌, ◌%◌, ◌^◌, ◌≤◌}
use mathlib.Core.Bool.{Bool}
use xk6_otel_gen.Prelude.Tests.{ltb, leb, ◌==◌, if◌then◌else◌}

-- `negsuc n` is -(n + 1).
pub data ℤ : Type 0 where
  pos : ℕ → ℤ
  negsuc : ℕ → ℤ

abbrev pub pos_part : ℤ → ℕ
pos_part (pos n) = n
pos_part (negsuc n) = 0

abbrev pub neg_part : ℤ → ℕ
neg_part (pos n) = 0
neg_part (negsuc n) = suc n

-- a - b, as an integer.
abbrev pub sub_ℕ : ℕ → ℕ → ℤ
sub_ℕ a b = if leb b a then pos (a - b) else negsuc (b - a - 1)

infixl 65 ◌+ℤ◌ ◌-ℤ◌
infixl 70 ◌*ℤ◌
infix 50 ◌≤ℤ◌
unfoldable pub ◌+ℤ◌ : ℤ → ℤ → ℤ
a +ℤ b = sub_ℕ (pos_part a + pos_part b) (neg_part a + neg_part b)

unfoldable pub ◌-ℤ◌ : ℤ → ℤ → ℤ
a -ℤ b = sub_ℕ (pos_part a + neg_part b) (neg_part a + pos_part b)

unfoldable pub ◌*ℤ◌ : ℤ → ℤ → ℤ
a *ℤ b =
    sub_ℕ (pos_part a * pos_part b + neg_part a * neg_part b)
      (pos_part a * neg_part b + neg_part a * pos_part b)

abbrev pub ◌≤ℤ◌ : ℤ → ℤ → Type 0
a ≤ℤ b = pos_part a + neg_part b ≤ pos_part b + neg_part a

abbrev pub ltb_ℤ : ℤ → ℤ → Bool
ltb_ℤ a b = ltb (pos_part a + neg_part b) (pos_part b + neg_part a)

abbrev pub eq_ℤ : ℤ → ℤ → Bool
eq_ℤ a b = pos_part a + neg_part b == pos_part b + neg_part a

abbrev pub max_ℤ : ℤ → ℤ → ℤ
max_ℤ a b = if ltb_ℤ a b then b else a

-- Go's `int64`: the bit pattern of an integer modulo 2^64, read as a signed number.
abbrev pub half_word : ℕ
half_word = 2 ^ 63

abbrev pub word : ℕ
word = 2 ^ 64

abbrev pub of_bits : ℕ → ℤ
of_bits b = if ltb b half_word then pos b else negsuc (word - b - 1)

unfoldable pub wrap : ℤ → ℤ
wrap (pos n) = of_bits (n % word)
wrap (negsuc n) = of_bits (word - 1 - n % word)

-- The operations of int64.
unfoldable pub add_64 : ℤ → ℤ → ℤ
unfolding wrap ◌+ℤ◌
add_64 a b = wrap (a +ℤ b)

unfoldable pub sub_64 : ℤ → ℤ → ℤ
unfolding wrap ◌-ℤ◌
sub_64 a b = wrap (a -ℤ b)

unfoldable pub mul_64 : ℤ → ℤ → ℤ
unfolding wrap ◌*ℤ◌
mul_64 a b = wrap (a *ℤ b)

-- The quotient by a positive number, rounded towards 0.
abbrev pub quot_ℤ : ℤ → ℕ → ℤ
quot_ℤ (pos n) k = pos (n / k)
quot_ℤ (negsuc n) k = sub_ℕ 0 (suc n / k)

-- 1 << n
unfoldable pub shift_one : ℕ → ℤ
unfolding wrap
shift_one n = wrap (pos (2 ^ n))
