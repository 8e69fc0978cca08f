-- ===== src/Gpu/Cadence.antt =====
-- src/gputrace/mod.rs: how regularly something happened, in ticks of the counter.
use wtfis_stalling.Base.{
  ℕ, ◌+◌, ◌*◌, ◌/◌, ◌≡◌, ◌⊎◌, inl, inr, refl, sym, subst, arith, Bool, Option, none, some, List, [],
  ◌∷◌, if◌then◌else◌, ltb, length, get_elem?, Memᴰ, All, Bool-cases,
}
use wtfis_stalling.Base.Int.{
  ℤ, pos, negsuc, ltb_ℤ, leb_ℤ, ◌≤ℤ◌, ◌<ℤ◌, ◌-i64◌, max_ℤ, IsTick, -i64_parts,
}
use wtfis_stalling.Base.Sort.{sort}
use wtfis_stalling.Util.{ms_to_ticks}

-- Milliseconds stand as ticks.
pub record Cadence : Type 0 where
  pub count : ℕ
  pub typical_ms : ℤ
  pub worst_ms : ℤ
  pub worst_at : ℤ

-- `windows(2)`, with when each gap ended.
unfoldable pub gaps : List ℤ → List (ℤ × ℤ)
gaps [] = []
gaps (a ∷ []) = []
gaps (a ∷ b ∷ ts) = (b, b -i64 a) ∷ gaps (b ∷ ts)

-- The fold: the first of the longest gaps.
unfoldable pub worst_gap : ℤ × ℤ → List (ℤ × ℤ) → ℤ × ℤ
worst_gap best [] = best
worst_gap best (cur ∷ gs) = worst_gap (if ltb_ℤ best.1 cur.1 then cur else best) gs

abbrev pub i64_min : ℤ
i64_min = negsuc 9223372036854775807

abbrev lengths : List (ℤ × ℤ) → List ℤ
lengths [] = []
lengths (g ∷ gs) = g.1 ∷ lengths gs

abbrev or_zero : Option ℤ → ℤ
or_zero none = pos 0
or_zero (some z) = z

-- The index of the median is inside the list, so there is one.
unfoldable pub median : List (ℤ × ℤ) → ℤ
median gs = or_zero (get_elem? (sort leb_ℤ (lengths gs)) (length gs / 2))

unfoldable pub cadence : List ℤ → Option Cadence
unfolding gaps worst_gap median
cadence times =
    let worst = worst_gap (pos 0, i64_min) (gaps times) in
    if ltb (length times) 3
    then none
    else some (record {
      count = length times;
      typical_ms = median (gaps times);
      worst_ms = worst.1;
      worst_at = worst.0;
    })

-- At least 50 ms, and three times the typical gap, which is not negative in a sorted list.
abbrev times_three : ℤ → ℤ
times_three (pos n) = pos (3 * n)
times_three (negsuc n) = negsuc (3 * n + 2)

unfoldable pub stalled : ℕ → Cadence → Bool
unfolding max_ℤ
stalled freq c = leb_ℤ (max_ℤ (ms_to_ticks freq 50) (times_three c.typical_ms)) c.worst_ms

worst_gap-bound :
    (best : ℤ × ℤ) (gs : List (ℤ × ℤ))
    → (best.1 ≤ℤ (worst_gap best gs).1) × All (λ g. g.1 ≤ℤ (worst_gap best gs).1) gs
unfolding worst_gap
worst_gap-bound best [] = (omega arith, tt)
worst_gap-bound best (cur ∷ gs) =
    let rest = worst_gap-bound (if ltb_ℤ best.1 cur.1 then cur else best) gs in
    (ground (arith, rest.0), (ground (arith, rest.0), rest.1))

worst_gap-Memᴰ :
    (best : ℤ × ℤ) (gs : List (ℤ × ℤ)) → (worst_gap best gs ≡ best) ⊎ Memᴰ (worst_gap best gs) gs
unfolding worst_gap
worst_gap-Memᴰ best [] = inl refl
worst_gap-Memᴰ best (cur ∷ gs) = elim (Bool-cases (ltb_ℤ best.1 cur.1)) [
  | inl t ↦
      rw (t, if◌then◌else◌)
        (elim (worst_gap-Memᴰ cur gs) [
          | inl same ↦ inr (Memᴰ.head same)
          | inr m ↦ inr (Memᴰ.tail m)
        ])
  | inr f ↦
      rw (f, if◌then◌else◌)
        (elim (worst_gap-Memᴰ best gs) [ inl same ↦ inl same | inr m ↦ inr (Memᴰ.tail m) ])
]

gap_above : (a b : ℤ) → IsTick a → IsTick b → i64_min <ℤ b -i64 a
gap_above a b ha hb = omega (arith, -i64_parts b a (omega arith) (omega arith))

abbrev pub IsWorst : ℤ → ℤ → List (ℤ × ℤ) → Type 0
IsWorst at ms gs = Memᴰ (at, ms) gs × All (λ g. g.1 ≤ℤ ms) gs

-- Of at least three times, well inside an `i64`: the worst gap is one of the gaps between
-- neighbours, it ended when it is said to have ended, and no gap is longer.
pub cadence-IsWorst :
    (times : List ℤ) (c : Cadence)
    → All IsTick times
    → cadence times ≡ some c
    → IsWorst c.worst_at c.worst_ms (gaps times)
unfolding cadence gaps
cadence-IsWorst [] c ticks e = absurd cc
cadence-IsWorst (a ∷ []) c ticks e = absurd cc
cadence-IsWorst (a ∷ b ∷ ts) c ticks e =
    let gs = (b, b -i64 a) ∷ gaps (b ∷ ts) in
    let w = worst_gap (pos 0, i64_min) gs in
    let bound = worst_gap-bound (pos 0, i64_min) gs in
    let same : (c.worst_at ≡ w.0) × (c.worst_ms ≡ w.1) = ground (arith, e) in
    let member : Memᴰ w gs = elim (worst_gap-Memᴰ (pos 0, i64_min) gs) [
      | inl none_longer ↦ absurd (
          omega (
            arith,
            gap_above a b ticks.0 ticks.1.0,
            subst (λ (g : ℤ × ℤ). (b -i64 a) ≤ℤ g.1) none_longer bound.1.0,
          ))
      | inr m ↦ m
    ] in
    subst (λ at. IsWorst at c.worst_ms gs) (sym same.0)
      (subst (λ ms. IsWorst w.0 ms gs) (sym same.1) (member, bound.1))
