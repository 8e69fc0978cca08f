-- ===== src/Intr/Slices.antt =====
-- The slices that are counted are those in which a DPC began.
use wtfis_stalling.Base.{
  ℕ, zero, suc, ◌+◌, ◌≡◌, ◌≤◌, ◌<◌, refl, sym, ap, ◌∙◌, arith, Bool, true, false, ◌&&◌, ◌||◌, List,
  [], ◌∷◌, ◌==◌, if◌then◌else◌, set, replicate, any, of_bool, Bool-cases, inl, inr,
}
use wtfis_stalling.Base.Int.{ℤ, IsTick}
use wtfis_stalling.Intr.Tenths.{falls_in, slot-tenth}
use wtfis_stalling.Intr.{slices, inside, slot, mark, marks, count_true, slices_covered}

module _ (start end : ℤ) where
  abbrev marks_slice : ℕ → ℤ → Bool
  marks_slice i t = inside start end t && slot start end t == i

  -- How many of `n` slices, from number `i` on, a time marks.
  abbrev slices_marked : List ℤ → ℕ → ℕ → ℕ
  slices_marked ts zero i = 0
  slices_marked ts (suc n) i = of_bool (any (marks_slice i) ts) + slices_marked ts n (suc i)

  -- What the marks of the times make of slices that are marked already.
  abbrev joined : List ℤ → ℕ → List Bool → List Bool
  joined ts i [] = []
  joined ts i (b ∷ hit) = (b || any (marks_slice i) ts) ∷ joined ts (suc i) hit

  joined-past :
      (t : ℤ) (ts : List ℤ) (i : ℕ) (hit : List Bool)
      → slot start end t < i
      → joined (t ∷ ts) i hit ≡ joined ts i hit
  joined-past t ts i [] h = refl
  joined-past t ts i (b ∷ hit) h =
      let other : marks_slice i t ≡ false = ground arith in
      rw (other, joined-past t ts (suc i) hit (omega arith)) refl

  joined-outside :
      (t : ℤ) (ts : List ℤ) (i : ℕ) (hit : List Bool)
      → inside start end t ≡ false
      → joined (t ∷ ts) i hit ≡ joined ts i hit
  joined-outside t ts i [] h = refl
  joined-outside t ts i (b ∷ hit) h = rw (h, joined-outside t ts (suc i) hit h) refl

  joined-set :
      (t : ℤ) (ts : List ℤ) (i j : ℕ) (hit : List Bool)
      → inside start end t ≡ true
      → slot start end t ≡ i + j
      → joined ts i (set hit j true) ≡ joined (t ∷ ts) i hit
  joined-set t ts i j [] h e = refl
  joined-set t ts i zero (b ∷ hit) h e =
      let here : marks_slice i t ≡ true = ground arith in
      rw (here, joined-past t ts (suc i) hit (omega arith)) (ground arith)
  joined-set t ts i (suc j) (b ∷ hit) h e =
      let other : marks_slice i t ≡ false = ground arith in
      rw (other, joined-set t ts (suc i) j hit h (omega arith)) refl

  joined-nil : (i : ℕ) (hit : List Bool) → hit ≡ joined [] i hit
  joined-nil i [] = refl
  joined-nil i (b ∷ hit) = ground (arith, joined-nil (suc i) hit)

  marks-joined : (ts : List ℤ) (hit : List Bool) → marks start end ts hit ≡ joined ts 0 hit
  unfolding marks mark
  marks-joined [] hit = joined-nil 0 hit
  marks-joined (t ∷ ts) hit = elim (Bool-cases (inside start end t)) [
    | inl h ↦
        rw (h, if◌then◌else◌)
          (marks-joined ts (set hit (slot start end t) true)
            ∙ joined-set t ts 0 (slot start end t) hit h (omega arith))
    | inr f ↦ rw (f, if◌then◌else◌) (marks-joined ts hit ∙ sym (joined-outside t ts 0 hit f))
  ]

  count_joined :
      (ts : List ℤ) (n i : ℕ) → count_true (joined ts i (replicate n false)) ≡ slices_marked ts n i
  count_joined ts zero i = refl
  count_joined ts (suc n) i = omega (arith, count_joined ts n (suc i))

  -- How many of `n` tenths of the stall, from number `i` on, have a time in them.
  abbrev pub slices_hit : List ℤ → ℕ → ℕ → ℕ
  slices_hit ts zero i = 0
  slices_hit ts (suc n) i = of_bool (any (falls_in start end i) ts) + slices_hit ts n (suc i)

  module _ (hs : IsTick start) (he : IsTick end) where
    any-tenth :
        (ts : List ℤ) (i : ℕ) → i < 10 → any (marks_slice i) ts ≡ any (falls_in start end i) ts
    any-tenth [] i small = refl
    any-tenth (t ∷ ts) i small =
        ground (arith, slot-tenth start end t i hs he small, any-tenth ts i small)

    slices_marked-hit :
        (ts : List ℤ) (n i : ℕ) → i + n ≤ 10 → slices_marked ts n i ≡ slices_hit ts n i
    slices_marked-hit ts zero i h = refl
    slices_marked-hit ts (suc n) i h =
        rw (any-tenth ts i (omega arith), slices_marked-hit ts n (suc i) (omega arith)) refl

    -- For a stall whose bounds are well inside an `i64`: the slices covered are those of the ten
    -- equal parts of it in which at least one of the times falls, of which the last has its end.
    pub slices_covered-hit :
        (starts : List ℤ) → slices_covered start end starts ≡ slices_hit starts slices 0
    unfolding slices_covered
    slices_covered-hit starts =
        ap count_true (marks-joined starts (replicate slices false))
        ∙ count_joined starts slices 0
        ∙ slices_marked-hit starts slices 0 (omega arith)
