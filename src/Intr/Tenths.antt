-- ===== src/Intr/Tenths.antt =====
-- Which tenth of a stall a time falls in: the slot of `slices_covered` in src/intr.rs.
use native.Mathlib.Nat.{mul-le-mul_right, lt_of_mul-lt-mul_right}
use native.Mathlib.Omega.{div_any}
use wtfis_stalling.Base.{
  subst, ◌%◌, ℕ, suc, ◌+◌, ◌*◌, ◌/◌, ◌-◌, ◌≡◌, ◌≤◌, ◌<◌, arith, Bool, ◌&&◌, ◌||◌, ◌==◌, ltb, leb,
  min, max, u64, Bool-cases, inl, inr,
}
use wtfis_stalling.Base.Int.{ℤ, pos, pos_part, neg_part, leb_ℤ, max_ℤ, ◌-i64◌, -i64_parts, IsTick}
use wtfis_stalling.Intr.{inside, slot, tenth_of, stall_len}

-- How far the second number is above the first one.
abbrev pub gap : ℤ → ℤ → ℕ
gap a b = pos_part b + neg_part a - (pos_part a + neg_part b)

-- Tenth `i` of a stall of `len` ticks begins at `i * len / 10`; the last one has its end too.
abbrev pub in_tenth : ℕ → ℕ → ℕ → Bool
in_tenth i len d = leb (i * len) (10 * d) && (ltb (10 * d) (suc i * len) || i == 9)

abbrev pub falls_in : ℤ → ℤ → ℕ → ℤ → Bool
falls_in start end i t =
    leb_ℤ start t && leb_ℤ t end && in_tenth i (max 1 (gap start end)) (gap start t)

-- A number between two multiples is in the band of the lower one alone.
in_band :
    (q i len x : ℕ)
    → q * len ≤ x
    → x < suc q * len
    → (q == i) ≡ (leb (i * len) x && ltb x (suc i * len))
in_band q i len x lo hi = elim (Bool-cases (ltb q i)) [
  | inl t ↦
      let above : suc q * len ≤ i * len = mul-le-mul_right len (ground (arith, t)) in
      ground (arith, t, above, lo, hi)
  | inr f ↦ elim (Bool-cases (ltb i q)) [
    | inl t ↦
        let below : suc i * len ≤ q * len = mul-le-mul_right len (ground (arith, t)) in
        ground (arith, t, below, lo, hi)
    | inr g ↦
        let same : q ≡ i = ground (arith, f, g) in
        let lo' : i * len ≤ x = subst (λ n. n * len ≤ x) same lo in
        let hi' : x < suc i * len = subst (λ n. x < suc n * len) same hi in
        ground (arith, same, lo', hi')
  ]
]

in_last_band :
    (q i len x : ℕ)
    → q * len ≤ x
    → x < suc q * len
    → i < 10
    → (min q 9 == i) ≡ (leb (i * len) x && (ltb x (suc i * len) || i == 9))
in_last_band q i len x lo hi small = elim (Bool-cases (leb 10 q)) [
  | inl t ↦
      let past : 10 * len ≤ q * len = mul-le-mul_right len (ground (arith, t)) in
      let next : suc i * len ≤ 10 * len = mul-le-mul_right len small in
      ground (arith, t, past, next, lo)
  | inr f ↦
      let within : suc q * len ≤ 10 * len = mul-le-mul_right len (ground (arith, f)) in
      let band = in_band q i len x lo hi in ground (arith, f, within, band, hi)
]

quotient :
    (i len d : ℕ)
    → 1 ≤ len
    → d ≤ len
    → i < 10
    → (min (u64 (d * 10 / len)) 9 == i) ≡ in_tenth i len d
quotient i len d some_len short small =
    let q = d * 10 / len in
    let whole = div_any (d * 10) len in
    let rest : d * 10 % len < len = omega arith in
    let lo : q * len ≤ 10 * d = omega (arith, whole) in
    let hi : 10 * d < suc q * len = omega (arith, whole, rest) in
    let few : q < 11 = lt_of_mul-lt-mul_right len (omega (arith, lo, short, some_len)) in
    let same : u64 q ≡ q = omega (arith, few) in rw same (in_last_band q i len (10 * d) lo hi small)

stall_len-gap :
    (start end : ℤ) → IsTick start → IsTick end → stall_len start end ≡ max 1 (gap start end)
unfolding stall_len max_ℤ
stall_len-gap start end hs he =
    let parts = -i64_parts end start (omega arith) (omega arith) in ground (arith, parts)

pub slot-tenth :
    (start end t : ℤ) (i : ℕ)
    → IsTick start
    → IsTick end
    → i < 10
    → (inside start end t && slot start end t == i) ≡ falls_in start end i t
unfolding inside slot tenth_of
slot-tenth start end t i hs he small = elim (Bool-cases (leb_ℤ start t && leb_ℤ t end)) [
  | inr f ↦ ground (arith, f)
  | inl h ↦
      let parts = -i64_parts t start (ground (arith, h)) (ground (arith, h)) in
      let apart : t -i64 start ≡ pos (gap start t) = ground (arith, parts, h) in
      let short : gap start t ≤ max 1 (gap start end) = ground (arith, h) in
      rw (apart, stall_len-gap start end hs he)
        (ground
          (arith, h, quotient i (max 1 (gap start end)) (gap start t) (omega arith) short small))
]
