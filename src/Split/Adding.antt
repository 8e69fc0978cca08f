-- ===== src/Split/Adding.antt =====
-- The totals of several disks or runs: `merge` against `add`, and the counts against the outcomes.
use wtfis_stalling.Base.{ℕ, ◌+◌, ◌≤◌, ◌<◌, ◌≡◌, refl, List, [], ◌∷◌, arith, length}
use wtfis_stalling.Split.Correlate.{
  How, by_irp, by_original_irp, by_fallback, Split, Outcome, split, unmatched, ambiguous,
  not_covered,
}
use wtfis_stalling.Split.Totals.{SplitTotals, no_splits, add, matched, tried}

-- `for o in outcomes { totals.add(o) }`.
unfoldable pub add_all : SplitTotals → List Outcome → SplitTotals
add_all t [] = t
add_all t (o ∷ os) = add_all (add t o) os

abbrev counted : SplitTotals → ℕ
counted t = t.by_irp + t.by_orig + t.by_fallback + t.unmatched + t.ambiguous + t.not_covered

counted-add_split :
    (how : How) (t : SplitTotals) (s : Split)
    → s.how ≡ how
    → counted t + 1 < 4294967296
    → counted (add t (split s)) ≡ counted t + 1
unfolding add
counted-add_split by_irp t s e h = ground arith
counted-add_split by_original_irp t s e h = ground arith
counted-add_split by_fallback t s e h = ground arith

counted-add :
    (t : SplitTotals) (o : Outcome) → counted t + 1 < 4294967296 → counted (add t o) ≡ counted t + 1
counted-add t (split s) h = counted-add_split s.how t s refl h
counted-add t unmatched h = unfold add in omega arith
counted-add t ambiguous h = unfold add in omega arith
counted-add t not_covered h = unfold add in omega arith

counted-add_all :
    (t : SplitTotals) (os : List Outcome)
    → counted t + length os + 1 < 4294967296
    → counted (add_all t os) ≡ counted t + length os
unfolding add_all
counted-add_all t [] h = omega arith
counted-add_all t (o ∷ os) h =
    let one = counted-add t o (omega arith) in
    omega (arith, one, counted-add_all (add t o) os (omega (arith, one)))

-- Every slow request is counted exactly once: "N of M" counts all of the disk's slow requests but
-- those that the trace did not cover, for fewer than 2^32 - 1 of them.
pub tried-add_all :
    (os : List Outcome)
    → length os + 1 < 4294967296
    → (tried (add_all no_splits os) + (add_all no_splits os).not_covered ≡ length os)
      × (matched (add_all no_splits os) ≤ tried (add_all no_splits os))
unfolding tried
tried-add_all os h = omega (arith, counted-add_all no_splits os (omega arith))
