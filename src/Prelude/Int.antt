-- ===== src/Prelude/Int.antt =====
-- Signed integers over the native numbers: the values of Go's int32 and int64, and the conversions
-- between them and the unsigned words that carry them.
use Prim.Native.Nat.{ℕ, suc, ◌+◌, ◌-◌, ◌*◌, ◌%◌, ◌^◌, ◌≤◌, ◌<◌}
use mathlib.Core.Path.{◌≡◌}
use mathlib.Core.Bool.{Bool}
use native.Mathlib.Omega.{arith}
use opcda_access_adapter.Prelude.Tests.{ltb, leb, if◌then◌else◌}

-- `negsuc n` is -(n + 1).
pub data ℤ : Type 0 where
  pos : ℕ → ℤ
  negsuc : ℕ → ℤ

abbrev pub pos_part : ℤ → ℕ
pos_part (pos n) = n
pos_part (negsuc n) = 0

abbrev pub neg_part : ℤ → ℕ
neg_part (pos n) = 0
neg_part (negsuc n) = suc n

abbrev pub sub_ℕ : ℕ → ℕ → ℤ
sub_ℕ a b = if leb b a then pos (a - b) else negsuc (b - a - 1)

infixl 65 ◌+ℤ◌ ◌-ℤ◌
unfoldable pub ◌+ℤ◌ : ℤ → ℤ → ℤ
a +ℤ b = sub_ℕ (pos_part a + pos_part b) (neg_part a + neg_part b)

unfoldable pub ◌-ℤ◌ : ℤ → ℤ → ℤ
a -ℤ b = sub_ℕ (pos_part a + neg_part b) (neg_part a + pos_part b)

abbrev pub ltb_ℤ : ℤ → ℤ → Bool
ltb_ℤ a b = ltb (pos_part a + neg_part b) (pos_part b + neg_part a)

abbrev pub leb_ℤ : ℤ → ℤ → Bool
leb_ℤ a b = leb (pos_part a + neg_part b) (pos_part b + neg_part a)

-- The signed value of a word of `w` bits, and the word of a signed value: Go's int32(x) for a
-- uint32 x and uint32(x) for an int32 x, with w = 32, and so for 64.
unfoldable pub signed : ℕ → ℕ → ℤ
signed w n = if ltb n (2 ^ (w - 1)) then pos n else negsuc (2 ^ w - 1 - n)

unfoldable pub word : ℕ → ℤ → ℕ
word w (pos n) = n % 2 ^ w
word w (negsuc n) = 2 ^ w - 1 - n % 2 ^ w

pub word-signed_32 : (n : ℕ) → n < 2 ^ 32 → word 32 (signed 32 n) ≡ n
unfolding signed word
word-signed_32 n h = ground arith

pub word-signed_64 : (n : ℕ) → n < 2 ^ 64 → word 64 (signed 64 n) ≡ n
unfolding signed word
word-signed_64 n h = ground arith

-- A value in the range of an int32, and of an int64.
abbrev pub IsInt32 : ℤ → Type 0
IsInt32 z = (pos_part z < 2 ^ 31) × (neg_part z ≤ 2 ^ 31)

abbrev pub IsInt64 : ℤ → Type 0
IsInt64 z = (pos_part z < 2 ^ 63) × (neg_part z ≤ 2 ^ 63)

pub word-lt_32 : (z : ℤ) → word 32 z < 2 ^ 32
unfolding word
word-lt_32 (pos n) = omega arith
word-lt_32 (negsuc n) = omega arith

pub word-lt_64 : (z : ℤ) → word 64 z < 2 ^ 64
unfolding word
word-lt_64 (pos n) = omega arith
word-lt_64 (negsuc n) = omega arith

pub signed-word_32 : (z : ℤ) → IsInt32 z → signed 32 (word 32 z) ≡ z
unfolding signed word
signed-word_32 (pos n) h = ground arith
signed-word_32 (negsuc n) h = ground arith

pub signed-word_64 : (z : ℤ) → IsInt64 z → signed 64 (word 64 z) ≡ z
unfolding signed word
signed-word_64 (pos n) h = ground arith
signed-word_64 (negsuc n) h = ground arith

-- k * z
unfoldable pub scale : ℕ → ℤ → ℤ
scale k z = sub_ℕ (k * pos_part z) (k * neg_part z)
