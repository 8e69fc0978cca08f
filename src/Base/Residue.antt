-- ===== src/Base/Residue.antt =====
-- `i64` addition wraps, and is associative all the same: it is addition of 64-bit patterns.
use Prim.Native.Nat.{ℕ, ◌+◌, ◌-◌, ◌%◌, ◌<◌}
use mathlib.Core.Path.{◌≡◌, refl, sym, ap, ◌∙◌}
use native.Mathlib.Omega.{arith}
use wtfis_stalling.Base.Int.{ℤ, pos, negsuc, pos_part, neg_part, sub_ℕ, signed64, wrap_i64, ◌+i64◌}

abbrev modulus : ℕ
modulus = 18446744073709551616

-- The pattern of an integer.
residue : ℤ → ℕ
residue (pos n) = n % modulus
residue (negsuc n) = 18446744073709551615 - n % modulus

wrap_i64-residue : (z : ℤ) → wrap_i64 z ≡ signed64 (residue z)
unfolding wrap_i64 residue
wrap_i64-residue (pos n) = refl
wrap_i64-residue (negsuc n) = refl

residue-signed64 : (w : ℕ) → w < modulus → residue (signed64 w) ≡ w
unfolding residue
residue-signed64 w h = ground arith

residue-lt : (z : ℤ) → residue z < modulus
unfolding residue
residue-lt (pos n) = omega arith
residue-lt (negsuc n) = omega arith

residue-parts : (z : ℤ) → residue z ≡ (pos_part z + (modulus - neg_part z % modulus)) % modulus
unfolding residue
residue-parts (pos n) = omega arith
residue-parts (negsuc n) = omega arith

residue-sub_ℕ : (p n : ℕ) → residue (sub_ℕ p n) ≡ (p + (modulus - n % modulus)) % modulus
unfolding residue
residue-sub_ℕ p n = ground arith

+i64-residue : (a b : ℤ) → a +i64 b ≡ signed64 ((residue a + residue b) % modulus)
unfolding ◌+i64◌
+i64-residue a b =
    wrap_i64-residue (sub_ℕ (pos_part a + pos_part b) (neg_part a + neg_part b))
    ∙ ap signed64 (
        omega (
          arith,
          residue-sub_ℕ (pos_part a + pos_part b) (neg_part a + neg_part b),
          residue-parts a,
          residue-parts b,
        ))

residue-+i64 : (a b : ℤ) → residue (a +i64 b) ≡ (residue a + residue b) % modulus
residue-+i64 a b = ap residue (+i64-residue a b) ∙ residue-signed64 _ (omega arith)

pub +i64_assoc : (a b c : ℤ) → a +i64 b +i64 c ≡ a +i64 (b +i64 c)
+i64_assoc a b c =
    +i64-residue (a +i64 b) c
    ∙ ap signed64 (omega (arith, residue-+i64 a b, residue-+i64 b c))
    ∙ sym (+i64-residue a (b +i64 c))
