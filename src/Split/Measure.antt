-- ===== src/Split/Measure.antt =====
-- `union_len` against its meaning: the number of ticks that some interval covers.
use wtfis_stalling.Base.{
  ℕ, zero, suc, ◌+◌, ◌-◌, ◌*◌, ◌≤◌, ◌<◌, ◌≡◌, refl, sym, ap, ◌∙◌, ◌⊎◌, inl, inr, Bool, true, false,
  Bool-cases, ◌&&◌, ◌||◌, none, some, List, [], ◌∷◌, arith, if◌then◌else◌, filter, any, All,
  of_bool, min,
}
use wtfis_stalling.Base.Int.{
  ℤ, pos, pos_part, neg_part, sub_ℕ, IsTick, parts_disjoint, ◌≤ℤ◌, ◌<ℤ◌, ltb_ℤ, leb_ℤ, max_ℤ,
  ◌+i64◌, ◌-i64◌, +i64_parts, -i64_parts, eq_of_parts,
}
use wtfis_stalling.Base.Sort.{sort, IsSorted, All-sort, any-sort, sort-IsSorted}
use wtfis_stalling.Split.Union.{Span, span_le, is_proper, merge_spans, union_len}

-- The tick `k` after `lo`.
abbrev pub tick : ℤ → ℕ → ℤ
tick lo k = sub_ℕ (pos_part lo + k) (neg_part lo)

abbrev pub within : ℤ → Span → Bool
within t s = leb_ℤ s.0 t && ltb_ℤ t s.1

abbrev pub covered : List Span → ℤ → Bool
covered spans t = any (within t) spans

-- How many of the `n` ticks from `lo` on pass a test.
unfoldable pub count_ticks : (ℤ → Bool) → ℤ → ℕ → ℕ
count_ticks p lo zero = 0
count_ticks p lo (suc n) = count_ticks p lo n + of_bool (p (tick lo n))

pub count_ticks-congr :
    (p q : ℤ → Bool) (lo : ℤ) (n : ℕ)
    → ((k : ℕ) → k < n → p (tick lo k) ≡ q (tick lo k))
    → count_ticks p lo n ≡ count_ticks q lo n
unfolding count_ticks
count_ticks-congr p q lo zero h = refl
count_ticks-congr p q lo (suc n) h =
    rw (count_ticks-congr p q lo n (λ k lt. h k (omega arith)), h n (omega arith)) refl

count_ticks-disjoint :
    (p q r : ℤ → Bool) (lo : ℤ) (n : ℕ)
    → ((k : ℕ)
        → k < n
        → of_bool (r (tick lo k)) ≡ of_bool (p (tick lo k)) + of_bool (q (tick lo k)))
    → count_ticks r lo n ≡ count_ticks p lo n + count_ticks q lo n
unfolding count_ticks
count_ticks-disjoint p q r lo zero h = refl
count_ticks-disjoint p q r lo (suc n) h =
    omega (arith, count_ticks-disjoint p q r lo n (λ k lt. h k (omega arith)), h n (omega arith))

pub count_ticks-le : (p : ℤ → Bool) (lo : ℤ) (n : ℕ) → count_ticks p lo n ≤ n
unfolding count_ticks
count_ticks-le p lo zero = omega arith
count_ticks-le p lo (suc n) = ground (arith, count_ticks-le p lo n)

-- An interval from `x` to `y` ticks after `lo`.
count_ticks-span :
    (lo : ℤ) (s : Span) (x y n : ℕ)
    → pos_part s.0 + neg_part lo ≡ neg_part s.0 + pos_part lo + x
    → pos_part s.1 + neg_part lo ≡ neg_part s.1 + pos_part lo + y
    → x ≤ y
    → count_ticks (λ t. within t s) lo n ≡ min n y - min n x
unfolding count_ticks
count_ticks-span lo s x y zero hx hy h = omega arith
count_ticks-span lo s x y (suc n) hx hy h = ground (arith, count_ticks-span lo s x y n hx hy h)

-- A proper interval inside the window of the `n` ticks from `lo` on.
abbrev pub IsInside : ℤ → ℕ → Span → Type 0
IsInside lo n s =
    (lo ≤ℤ s.0) × (s.0 <ℤ s.1) × (pos_part s.1 + neg_part lo ≤ neg_part s.1 + pos_part lo + n)

abbrev pub limit : ℕ
limit = 1152921504606846976

abbrev span_length : Span → ℕ
span_length s = pos_part s.1 + neg_part s.0 - (neg_part s.1 + pos_part s.0)

count_ticks-none : (lo : ℤ) (n : ℕ) → count_ticks (covered []) lo n ≡ 0
unfolding count_ticks
count_ticks-none lo zero = refl
count_ticks-none lo (suc n) = omega (arith, count_ticks-none lo n)

module _ (lo : ℤ) (n : ℕ) (lo_tick : IsTick lo) (small : n < limit) where
  inside_ticks :
      (s : Span)
      → IsInside lo n s
      → (pos_part s.0 < 2 * limit)
        × (neg_part s.0 < 2 * limit)
        × (pos_part s.1 < 2 * limit)
        × (neg_part s.1 < 2 * limit)
  inside_ticks s h = omega (arith, parts_disjoint s.0, parts_disjoint s.1)

  count_ticks-inside :
      (s : Span) → IsInside lo n s → count_ticks (λ t. within t s) lo n ≡ span_length s
  count_ticks-inside s h = omega (
    arith,
    count_ticks-span lo s (pos_part s.0 + neg_part lo - (neg_part s.0 + pos_part lo))
        (pos_part s.1 + neg_part lo - (neg_part s.1 + pos_part lo)) n (omega arith) (omega arith)
        (omega arith),
  )

  sub-span : (s : Span) → IsInside lo n s → s.1 -i64 s.0 ≡ pos (span_length s)
  sub-span s h = eq_of_parts _ _ (omega (arith, inside_ticks s h, -i64_parts s.1 s.0))

  total-span :
      (m : ℕ) (s : Span)
      → IsInside lo n s
      → m < limit
      → pos m +i64 (s.1 -i64 s.0) ≡ pos (m + span_length s)
  total-span m s h b =
      rw (sub-span s h) (eq_of_parts _ _ (omega (arith, +i64_parts (pos m) (pos (span_length s)))))

  abbrev measure : List Span → ℕ
  measure spans = count_ticks (covered spans) lo n

  -- Joining two spans that touch covers the same ticks.
  touching_same :
      (ca cb a b t : ℤ) (c : Bool)
      → ca ≤ℤ a
      → a ≤ℤ cb
      → a <ℤ b
      → (within t (ca, max_ℤ cb b) || c) ≡ (within t (ca, cb) || (within t (a, b) || c))
  unfolding max_ℤ
  touching_same ca cb a b t c h1 h2 h3 = ground arith

  measure-touching :
      (ca cb a b : ℤ) (spans : List Span)
      → ca ≤ℤ a
      → a ≤ℤ cb
      → a <ℤ b
      → measure ((ca, max_ℤ cb b) ∷ spans) ≡ measure ((ca, cb) ∷ (a, b) ∷ spans)
  measure-touching ca cb a b spans h1 h2 h3 =
      count_ticks-congr (covered ((ca, max_ℤ cb b) ∷ spans)) (covered ((ca, cb) ∷ (a, b) ∷ spans))
        lo n (λ k lt. touching_same ca cb a b (tick lo k) (covered spans (tick lo k)) h1 h2 h3)

  -- Nothing that starts at `a` or later covers a tick before `a`.
  covered-early :
      (a t : ℤ) (spans : List Span) → All (λ s. a ≤ℤ s.0) spans → t <ℤ a → covered spans t ≡ false
  covered-early a t [] h e = refl
  covered-early a t (s ∷ spans) h e = ground (arith, covered-early a t spans h.1 e)

  -- A span that ends before the others begin adds its own length.
  measure-apart :
      (s : Span) (spans : List Span)
      → IsInside lo n s
      → All (λ r. s.1 ≤ℤ r.0) spans
      → measure (s ∷ spans) ≡ span_length s + measure spans
  measure-apart s spans h late =
      count_ticks-disjoint (λ t. within t s) (covered spans) (covered (s ∷ spans)) lo n
        (λ k lt. apart (tick lo k))
      ∙ ap (λ (x : ℕ). x + measure spans) (count_ticks-inside s h)
    where
      apart :
          (t : ℤ)
          → of_bool (within t s || covered spans t)
            ≡ of_bool (within t s) + of_bool (covered spans t)
      apart t = ground (arith, covered-early s.1 t spans late)

  abbrev StartsFrom : ℤ → List Span → Type 0
  StartsFrom a = All (λ s. a ≤ℤ s.0)

  StartsFrom-mono : (a b : ℤ) (spans : List Span) → a ≤ℤ b → StartsFrom b spans → StartsFrom a spans
  StartsFrom-mono a b [] h st = tt
  StartsFrom-mono a b (s ∷ spans) h st = (omega arith, StartsFrom-mono a b spans h st.1)

  StartsFrom-sorted :
      (s : Span) (spans : List Span) → All (λ r. span_le s r ≡ true) spans → StartsFrom s.0 spans
  unfolding span_le
  StartsFrom-sorted s [] h = tt
  StartsFrom-sorted s (r ∷ spans) h = (ground arith, StartsFrom-sorted s spans h.1)

  measure-one : (s : Span) → IsInside lo n s → measure (s ∷ []) ≡ span_length s
  measure-one s h = omega (arith, measure-apart s [] h tt, count_ticks-none lo n)

  IsInside-touching :
      (ca cb a b : ℤ)
      → IsInside lo n (ca, cb)
      → IsInside lo n (a, b)
      → IsInside lo n (ca, max_ℤ cb b)
  unfolding max_ℤ
  IsInside-touching ca cb a b h k = ground arith

  -- The loop over spans in the order of their starts adds up what they cover.
  merge_spans-measure :
      (m : ℕ) (cur : Span) (spans : List Span)
      → m + measure (cur ∷ spans) < limit
      → IsInside lo n cur
      → All (IsInside lo n) spans
      → StartsFrom cur.0 spans
      → IsSorted span_le spans
      → merge_spans (pos m) (some cur) spans ≡ pos (m + measure (cur ∷ spans))
  unfolding merge_spans
  merge_spans-measure m cur [] bound h hs st so =
      total-span m cur h (omega arith) ∙ ap (λ x. pos (m + x)) (sym (measure-one cur h))
  merge_spans-measure m cur ((a, b) ∷ spans) bound h hs st so = elim (Bool-cases (leb_ℤ a cur.1)) [
    | inl near ↦
        let same = measure-touching cur.0 cur.1 a b spans st.0 (ground arith) hs.0.1 in
        rw (near, if◌then◌else◌)
          (merge_spans-measure m (cur.0, max_ℤ cur.1 b) spans (omega (arith, same))
              (IsInside-touching cur.0 cur.1 a b h hs.0) hs.1 st.1 so.1
            ∙ ap (λ x. pos (m + x)) same)
    | inr far ↦
        let later = StartsFrom-sorted (a, b) spans so.0 in
        let gap : cur.1 ≤ℤ a = ground arith in
        let more =
          measure-apart cur ((a, b) ∷ spans) h (gap, StartsFrom-mono cur.1 a spans gap later) in
        rw (far, if◌then◌else◌, total-span m cur h (omega arith))
          (merge_spans-measure (m + span_length cur) (a, b) spans (omega (arith, more)) hs.0 hs.1
              later so.1
            ∙ ap pos (omega (arith, more)))
  ]

-- Proper or not, an interval that does not reach out of the window.
abbrev pub IsClipped : ℤ → ℕ → Span → Type 0
IsClipped lo n s = (lo ≤ℤ s.0) × (pos_part s.1 + neg_part lo ≤ neg_part s.1 + pos_part lo + n)

All-proper :
    (lo : ℤ) (n : ℕ) (spans : List Span)
    → All (IsClipped lo n) spans
    → All (IsInside lo n) (filter is_proper spans)
All-proper lo n [] h = tt
All-proper lo n (s ∷ spans) h = elim (Bool-cases (is_proper s)) [
  | inl e ↦ rw (e, if◌then◌else◌) ((h.0.0, ground arith, h.0.1), All-proper lo n spans h.1)
  | inr e ↦ rw (e, if◌then◌else◌) (All-proper lo n spans h.1)
]

-- An empty interval covers nothing.
covered-proper : (t : ℤ) (spans : List Span) → covered (filter is_proper spans) t ≡ covered spans t
covered-proper t [] = refl
covered-proper t (s ∷ spans) = ground (arith, covered-proper t spans)

span_le_total : (x y : Span) → (span_le x y ≡ true) ⊎ (span_le y x ≡ true)
unfolding span_le
span_le_total x y = ground arith

span_le_trans : (x y z : Span) → span_le x y ≡ true → span_le y z ≡ true → span_le x z ≡ true
unfolding span_le
span_le_trans x y z h k = ground arith

merge_sorted :
    (lo : ℤ) (n : ℕ) (spans : List Span)
    → IsTick lo
    → n < limit
    → All (IsInside lo n) spans
    → IsSorted span_le spans
    → merge_spans (pos 0) none spans ≡ pos (count_ticks (covered spans) lo n)
unfolding merge_spans ◌+i64◌
merge_sorted lo n [] t small h so = rw (count_ticks-none lo n) refl
merge_sorted lo n (s ∷ spans) t small h so =
    merge_spans-measure lo n t small 0 s spans
      (omega (arith, count_ticks-le (covered (s ∷ spans)) lo n)) h.0 h.1
      (StartsFrom-sorted lo n t small s spans so.0) so.1
    ∙ ap pos (omega arith)

-- The union's length is the number of ticks that at least one interval covers: overlaps count once
-- and gaps not at all, in whatever order the intervals come.
pub union_len-measure :
    (lo : ℤ) (n : ℕ) (spans : List Span)
    → IsTick lo
    → n < 1152921504606846976
    → All (IsClipped lo n) spans
    → union_len spans ≡ pos (count_ticks (covered spans) lo n)
unfolding union_len
union_len-measure lo n spans t small h =
    merge_sorted lo n (sort span_le (filter is_proper spans)) t small
      (All-sort span_le (IsInside lo n) _ (All-proper lo n spans h))
      (sort-IsSorted span_le span_le_total span_le_trans _)
    ∙ ap pos (
        count_ticks-congr _ (covered spans) lo n (λ k lt.
          any-sort span_le (within (tick lo k)) (filter is_proper spans)
          ∙ covered-proper (tick lo k) spans))
