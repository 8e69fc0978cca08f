-- ===== src/Base/Int.antt =====
-- Signed 64-bit integers: the integers over the native numbers, under the library's names, and
-- `i64` arithmetic as integer arithmetic followed by the wrap-around of the machine.
use Prim.Native.Nat.{ℕ, suc, ◌+◌, ◌-◌, ◌/◌, ◌%◌, ◌≤◌, ◌<◌}
use mathlib.Core.Path.{◌≡◌, refl}
use mathlib.Core.Logic.{◌⊎◌}
use mathlib.Core.Bool.{Bool}
use mathlib.Core.Option.{Option, none, some}
use native.Mathlib.Omega.{arith}
use wtfis_stalling.Base.Tests.{ltb, leb, if◌then◌else◌}

-- `negsuc n` is -(n + 1).
pub data ℤ : Type 0 where
  pos : ℕ → ℤ
  negsuc : ℕ → ℤ

abbrev pub pos_part : ℤ → ℕ
pos_part (pos n) = n
pos_part (negsuc n) = 0

abbrev pub neg_part : ℤ → ℕ
neg_part (pos n) = 0
neg_part (negsuc n) = suc n

abbrev pub sub_ℕ : ℕ → ℕ → ℤ
sub_ℕ a b = if leb b a then pos (a - b) else negsuc (b - a - 1)

infix 50 ◌≤ℤ◌ ◌<ℤ◌
abbrev pub ◌≤ℤ◌ : ℤ → ℤ → Type 0
a ≤ℤ b = pos_part a + neg_part b ≤ pos_part b + neg_part a

abbrev pub ◌<ℤ◌ : ℤ → ℤ → Type 0
a <ℤ b = pos_part a + neg_part b < pos_part b + neg_part a

abbrev pub ltb_ℤ : ℤ → ℤ → Bool
ltb_ℤ a b = ltb (pos_part a + neg_part b) (pos_part b + neg_part a)

abbrev pub leb_ℤ : ℤ → ℤ → Bool
leb_ℤ a b = leb (pos_part a + neg_part b) (pos_part b + neg_part a)

unfoldable pub min_ℤ : ℤ → ℤ → ℤ
min_ℤ a b = if leb_ℤ a b then a else b

unfoldable pub max_ℤ : ℤ → ℤ → ℤ
max_ℤ a b = if leb_ℤ a b then b else a

-- The value that a 64-bit pattern stands for, and the one that an `i64` result wraps to.
abbrev pub signed64 : ℕ → ℤ
signed64 w = if ltb w 9223372036854775808 then pos w else negsuc (18446744073709551615 - w)

unfoldable pub wrap_i64 : ℤ → ℤ
wrap_i64 (pos n) = signed64 (n % 18446744073709551616)
wrap_i64 (negsuc n) = signed64 (18446744073709551615 - n % 18446744073709551616)

pub i64_max : ℤ
i64_max = pos 9223372036854775807

infixl 65 ◌+i64◌ ◌-i64◌
unfoldable pub ◌+i64◌ : ℤ → ℤ → ℤ
unfolding wrap_i64
a +i64 b = wrap_i64 (sub_ℕ (pos_part a + pos_part b) (neg_part a + neg_part b))

unfoldable pub ◌-i64◌ : ℤ → ℤ → ℤ
unfolding wrap_i64
a -i64 b = wrap_i64 (sub_ℕ (pos_part a + neg_part b) (neg_part a + pos_part b))

-- A tick count far enough from the ends of an `i64` that a few sums and differences stay inside.
abbrev pub IsTick : ℤ → Type 0
IsTick z = (pos_part z < 1152921504606846976) × (neg_part z < 1152921504606846976)

pub wrap_i64_exact :
    (p n : ℕ) → p < 9223372036854775808 → n < 9223372036854775808 → wrap_i64 (sub_ℕ p n) ≡ sub_ℕ p n
unfolding wrap_i64
wrap_i64_exact p n hp hn = ground arith

-- Inside the range the operations are those of the integers, read off the two parts.
abbrev pub IsSum : ℤ → ℕ → ℕ → Type 0
IsSum r p n = (pos_part r + n ≡ neg_part r + p) × (pos_part r ≤ p) × (neg_part r ≤ n)

pub +i64_parts :
    (a b : ℤ)
    → pos_part a + pos_part b < 9223372036854775808
    → neg_part a + neg_part b < 9223372036854775808
    → IsSum (a +i64 b) (pos_part a + pos_part b) (neg_part a + neg_part b)
unfolding ◌+i64◌
+i64_parts a b hp hn = ground arith

pub -i64_parts :
    (a b : ℤ)
    → pos_part a + neg_part b < 9223372036854775808
    → neg_part a + pos_part b < 9223372036854775808
    → IsSum (a -i64 b) (pos_part a + neg_part b) (neg_part a + pos_part b)
unfolding ◌-i64◌
-i64_parts a b hp hn = ground arith

pub eq_of_parts : (a b : ℤ) → pos_part a + neg_part b ≡ pos_part b + neg_part a → a ≡ b
eq_of_parts a b h = ground arith

pub max_ℤ-bounds : (a b : ℤ) → (a ≤ℤ max_ℤ a b) × (b ≤ℤ max_ℤ a b)
unfolding max_ℤ
max_ℤ-bounds a b = ground arith

pub max_ℤ-cases : (a b : ℤ) → (max_ℤ a b ≡ a) ⊎ (max_ℤ a b ≡ b)
unfolding max_ℤ
max_ℤ-cases a b = ground arith

pub min_ℤ-bounds : (a b : ℤ) → (min_ℤ a b ≤ℤ a) × (min_ℤ a b ≤ℤ b)
unfolding min_ℤ
min_ℤ-bounds a b = ground arith

pub min_ℤ-cases : (a b : ℤ) → (min_ℤ a b ≡ a) ⊎ (min_ℤ a b ≡ b)
unfolding min_ℤ
min_ℤ-cases a b = ground arith

wraps : pos 9223372036854775807 +i64 pos 1 ≡ negsuc 9223372036854775807
unfolding ◌+i64◌
wraps = refl

-- `a / d` for a positive divisor: Rust's division rounds towards zero.
unfoldable pub div_i64 : ℤ → ℕ → ℤ
div_i64 (pos n) d = pos (n / d)
div_i64 (negsuc n) d = sub_ℕ 0 (suc n / d)

-- `Option::max` on timestamps: `None` is below every value.
unfoldable pub max_opt : Option ℤ → Option ℤ → Option ℤ
unfolding max_ℤ
max_opt none b = b
max_opt (some a) none = some a
max_opt (some a) (some b) = some (max_ℤ a b)

pub parts_disjoint : (z : ℤ) → (pos_part z ≡ 0) ⊎ (neg_part z ≡ 0)
parts_disjoint z = ground arith
