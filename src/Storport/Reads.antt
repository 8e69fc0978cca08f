-- ===== src/Storport/Reads.antt =====
-- What is read out of the storage trace: the window of the ring, and the resets of a drive.
use mathlib.Core.List.{Perm}
use mathlib.Core.List.Perm
use wtfis_stalling.Base.{
  ℕ, ◌*◌, ◌/◌, ◌<◌, ◌≡◌, ◌⊎◌, inl, inr, Bool, true, false, not, Bool-cases, if◌then◌else◌, All, [],
  ◌∷◌, ◌++◌, List, none, some, Option, arith, filter, min,
}
use wtfis_stalling.Base.Int.{ℤ, ◌≤ℤ◌, IsTick}
use wtfis_stalling.State.Losses.{All-imp}
use wtfis_stalling.Base.Sort.{IsSorted, All-sort, sort-perm, sort-IsSorted}
use wtfis_stalling.Util.{ms_to_ticks}
use wtfis_stalling.Cut.{IsPartitionPoint, IsSearchable, in_window, window-eq-filter}
use wtfis_stalling.Storport.Types.{ScsiAddr, ReqRec, ResetRec, hits}
use wtfis_stalling.Storport.Ring.{StorInner}
use wtfis_stalling.Storport.Report.{StorageReport, req_window, resets_of, reset_le}

-- For bounds well inside an `i64`, a counter of less than 10^15 ticks a second, a ring partitioned at
-- both edges of the window widened by a millisecond, in whatever order it is within and beyond them,
-- and a binary search that finds the partition point of partitioned lists: the window is exactly the
-- requests of the ring that completed in it, in the ring's order.
pub req_window-eq-filter :
    (pp : (ReqRec → Bool) → List ReqRec → ℕ) (freq : ℕ) (s : StorInner) (from to : ℤ)
    → IsPartitionPoint pp
    → freq < 1000000000000000
    → IsTick from
    → IsTick to
    → IsSearchable (λ r. r.ts) (ms_to_ticks freq 1) from to s.reqs
    → req_window pp freq s from to ≡ filter (in_window (λ (r : ReqRec). r.ts) from to) s.reqs
unfolding req_window ms_to_ticks
req_window-eq-filter pp freq s from to finds small hf ht edges =
    window-eq-filter (λ r. r.ts) (min (1 * freq / 1000) 9223372036854775807) pp from to s.reqs finds
      hf ht (omega arith) edges

reset_le_total : (x y : ResetRec) → (reset_le x y ≡ true) ⊎ (reset_le y x ≡ true)
reset_le_total x y = ground arith

reset_le_trans :
    (x y z : ResetRec) → reset_le x y ≡ true → reset_le y z ≡ true → reset_le x z ≡ true
reset_le_trans x y z h k = ground arith

-- A part of an address that a reset does not name stands for all of them.
abbrev MayBe : Option ℕ → ℕ → Type 0
MayBe part n = (part ≡ none) ⊎ (part ≡ some n)

-- The reset takes the drive down: it was at the drive's port, and no part of the drive's address is
-- other than one that the reset names.
abbrev pub TakesDown : ResetRec → ScsiAddr → Type 0
TakesDown x a = (x.port ≡ a.port) × MayBe x.bus a.bus × MayBe x.target a.target × MayBe x.lun a.lun

hits-TakesDown : (x : ResetRec) (a : ScsiAddr) → hits x a ≡ true → TakesDown x a
unfolding hits
hits-TakesDown x a h = ground arith

TakesDown-hits : (x : ResetRec) (a : ScsiAddr) → TakesDown x a → hits x a ≡ true
unfolding hits
TakesDown-hits x a h = ground arith

missed-not-TakesDown : (x : ResetRec) (a : ScsiAddr) → hits x a ≡ false → ¬ TakesDown x a
missed-not-TakesDown x a f t = let e = TakesDown-hits x a t in absurd (ground (arith, e, f))

perm_middle : (x : ResetRec) (xs ys : List ResetRec) → Perm (x ∷ xs ++ ys) (xs ++ x ∷ ys)
perm_middle x [] ys = Perm.refl _
perm_middle x (z ∷ xs) ys =
    Perm.trans (Perm.swap z x (xs ++ ys)) (Perm.cons z (perm_middle x xs ys))

-- Every element is in one of two lists by a test.
filter-perm :
    (p : ResetRec → Bool) (xs : List ResetRec) → Perm xs (filter p xs ++ filter (λ x. not (p x)) xs)
filter-perm p [] = Perm.refl _
filter-perm p (x ∷ xs) = elim (Bool-cases (p x)) [
  | inl t ↦ rw (t, if◌then◌else◌) (Perm.cons x (filter-perm p xs))
  | inr f ↦
      rw (f, if◌then◌else◌)
        (Perm.trans (Perm.cons x (filter-perm p xs))
          (perm_middle x (filter p xs) (filter (λ y. not (p y)) xs)))
]

All-filter :
    (P : ResetRec → Type 0) (p : ResetRec → Bool) (xs : List ResetRec)
    → ((x : ResetRec) → p x ≡ true → P x)
    → All P (filter p xs)
All-filter P p [] h = tt
All-filter P p (x ∷ xs) h = elim (Bool-cases (p x)) [
  | inl t ↦ rw (t, if◌then◌else◌) (h x t, All-filter P p xs h)
  | inr f ↦ rw (f, if◌then◌else◌) (All-filter P p xs h)
]

abbrev pub IsOldestFirst : List ResetRec → Type 0
IsOldestFirst [] = Unit
IsOldestFirst (x ∷ xs) = All (λ y. x.ts ≤ℤ y.ts) xs × IsOldestFirst xs

IsSorted-IsOldestFirst : (xs : List ResetRec) → IsSorted reset_le xs → IsOldestFirst xs
IsSorted-IsOldestFirst [] h = tt
IsSorted-IsOldestFirst (x ∷ xs) h =
    (All-imp _ (λ y. x.ts ≤ℤ y.ts) xs (λ y le. ground arith) h.0, IsSorted-IsOldestFirst xs h.1)

-- The resets of the report are, in some order, those given for the drive and some others: those given
-- take the drive down, none of the others does, and those given are in the order of their times.
pub resets_of-IsOldestFirst :
    (r : StorageReport) (a : ScsiAddr)
    → (others : List ResetRec) × Perm r.resets (resets_of r a ++ others)
      × All (λ x. TakesDown x a) (resets_of r a)
      × All (λ x. ¬ TakesDown x a) others
      × IsOldestFirst (resets_of r a)
unfolding resets_of
resets_of-IsOldestFirst r a =
    let hit = filter (λ x. hits x a) r.resets in
    let others = filter (λ x. not (hits x a)) r.resets in
    (
      others,
      Perm.trans (filter-perm (λ x. hits x a) r.resets)
          (Perm.append_right others (Perm.symm (sort-perm reset_le hit))),
      All-sort reset_le (λ x. TakesDown x a) hit
          (All-filter (λ x. TakesDown x a) (λ x. hits x a) r.resets (λ x h. hits-TakesDown x a h)),
      All-filter (λ x. ¬ TakesDown x a) (λ x. not (hits x a)) r.resets
          (λ x h. missed-not-TakesDown x a (ground (arith, h))),
      IsSorted-IsOldestFirst (resets_of r a)
          (sort-IsSorted reset_le reset_le_total reset_le_trans hit),
    )
