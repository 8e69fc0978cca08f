-- ===== src/DiskStuck/Behind.antt =====
-- Who `stuck_behind` finds, and that each thread is found once.
use wtfis_stalling.Base.{
  ℕ, ◌<◌, All, ◌≡◌, ◌⊎◌, refl, ap, ◌∙◌, arith, Bool, true, false, ◌&&◌, ◌||◌, Option, none, some,
  List, [], ◌∷◌, ◌++◌, if◌then◌else◌, ◌==◌, Bool-cases, inl, inr, any, filter,
}
use wtfis_stalling.Base.Int.{◌<ℤ◌}
use wtfis_stalling.Base.Sort.{sort, insert_sorted, any-insert, IsSorted, sort-IsSorted, any-sort}
use wtfis_stalling.State.Records.{IoRec, SwitchRec, ReadyRec}
use wtfis_stalling.DiskStuck.{
  Stuck, wait_before, was_stuck, near_end, add_stuck, has_tid, find_stuck, stuck_le, stuck_behind,
}

-- A wake-up whose wait passes the tests.
abbrev woke_from : ℕ → IoRec → List IoRec → ReadyRec → Option SwitchRec → Bool
woke_from freq slow others r none = false
woke_from freq slow others r (some off) = was_stuck freq slow others off r

abbrev pub woke_stuck : ℕ → IoRec → List IoRec → List SwitchRec → ReadyRec → Bool
woke_stuck freq slow others sw r = woke_from freq slow others r (wait_before sw r.tid r.ts)

any-append {ℓ} :
    {A : Type ℓ} (p : A → Bool) (xs ys : List A) → any p (xs ++ ys) ≡ (any p xs || any p ys)
any-append p [] ys = refl
any-append p (x ∷ xs) ys = ground (arith, any-append p xs ys)

add_stuck-has_tid :
    (freq : ℕ) (slow : IoRec) (others : List IoRec) (r : ReadyRec) (off : Option SwitchRec)
    (out : List Stuck) (tid : ℕ)
    → has_tid (add_stuck freq slow others r off out) tid
      ≡ (has_tid out tid || r.tid == tid && woke_from freq slow others r off)
unfolding add_stuck
add_stuck-has_tid freq slow others r none out tid = ground arith
add_stuck-has_tid freq slow others r (some off) out tid =
    elim (Bool-cases (was_stuck freq slow others off r)) [
      | inl t ↦ rw (t, if◌then◌else◌, any-append (λ s. s.tid == tid) out _) (ground arith)
      | inr t ↦ rw (t, if◌then◌else◌) (ground arith)
    ]

same_tid : (out : List Stuck) (a b : ℕ) → (a == b) ≡ true → has_tid out a ≡ has_tid out b
same_tid out a b e = ap (has_tid out) (ground arith)

find_stuck-has_tid :
    (freq : ℕ) (slow : IoRec) (others : List IoRec) (sw : List SwitchRec) (rd : List ReadyRec)
    (out : List Stuck) (tid : ℕ)
    → has_tid (find_stuck freq slow others sw rd out) tid
      ≡ (has_tid out tid || any (λ r. r.tid == tid && woke_stuck freq slow others sw r) rd)
unfolding find_stuck
find_stuck-has_tid freq slow others sw [] out tid = ground arith
find_stuck-has_tid freq slow others sw (r ∷ rd) out tid =
    let off = wait_before sw r.tid r.ts in
    elim (Bool-cases (has_tid out r.tid)) [
      | inl t ↦
          rw (t, if◌then◌else◌)
            (find_stuck-has_tid freq slow others sw rd out tid
              ∙ ground (arith, t, same_tid out r.tid tid))
      | inr t ↦
          rw (t, if◌then◌else◌)
            (find_stuck-has_tid freq slow others sw rd (add_stuck freq slow others r off out) tid
              ∙ ground (arith, add_stuck-has_tid freq slow others r off out tid))
    ]

any-filter {ℓ} :
    {A : Type ℓ} (p q : A → Bool) (xs : List A) → any p (filter q xs) ≡ any (λ x. q x && p x) xs
any-filter p q [] = refl
any-filter p q (x ∷ xs) = ground (arith, any-filter p q xs)

-- A thread is found exactly when some wake-up near the end of the request ended a wait of that
-- thread which passes the tests.
pub stuck_behind-has_tid :
    (freq : ℕ) (slow : IoRec) (others : List IoRec) (sw : List SwitchRec) (rd : List ReadyRec)
    (tid : ℕ)
    → has_tid (stuck_behind freq slow others sw rd) tid
      ≡ any (λ r. near_end freq slow r && (r.tid == tid && woke_stuck freq slow others sw r)) rd
unfolding stuck_behind
stuck_behind-has_tid freq slow others sw rd tid =
    any-sort stuck_le (λ s. s.tid == tid)
      (find_stuck freq slow others sw (filter (near_end freq slow) rd) [])
    ∙ find_stuck-has_tid freq slow others sw (filter (near_end freq slow) rd) [] tid
    ∙ any-filter (λ r. r.tid == tid && woke_stuck freq slow others sw r) (near_end freq slow) rd

-- Each thread stands in the list once.
abbrev pub AreDistinct : List Stuck → Type 0
AreDistinct [] = Unit
AreDistinct (s ∷ ss) = (has_tid ss s.tid ≡ false) × AreDistinct ss

AreDistinct-append :
    (out : List Stuck) (s : Stuck)
    → has_tid out s.tid ≡ false
    → AreDistinct out
    → AreDistinct (out ++ s ∷ [])
AreDistinct-append [] s f d = (refl, tt)
AreDistinct-append (x ∷ out) s f d = (
  any-append (λ y. y.tid == x.tid) out (s ∷ []) ∙ ground (arith, f, d.0),
  AreDistinct-append out s (ground (arith, f)) d.1,
)

AreDistinct-insert :
    (s : Stuck) (ss : List Stuck)
    → has_tid ss s.tid ≡ false
    → AreDistinct ss
    → AreDistinct (insert_sorted stuck_le s ss)
unfolding insert_sorted
AreDistinct-insert s [] f d = (refl, tt)
AreDistinct-insert s (x ∷ ss) f d = elim (Bool-cases (stuck_le s x)) [
  | inl t ↦ rw (t, if◌then◌else◌) (f, d)
  | inr t ↦
      rw (t, if◌then◌else◌)
        (
          any-insert stuck_le (λ y. y.tid == x.tid) s ss ∙ ground (arith, f, d.0),
          AreDistinct-insert s ss (ground (arith, f)) d.1,
        )
]

AreDistinct-sort : (ss : List Stuck) → AreDistinct ss → AreDistinct (sort stuck_le ss)
unfolding sort
AreDistinct-sort [] d = tt
AreDistinct-sort (s ∷ ss) d =
    AreDistinct-insert s (sort stuck_le ss) (any-sort stuck_le (λ y. y.tid == s.tid) ss ∙ d.0)
      (AreDistinct-sort ss d.1)

add_stuck-AreDistinct :
    (freq : ℕ) (slow : IoRec) (others : List IoRec) (r : ReadyRec) (off : Option SwitchRec)
    (out : List Stuck)
    → has_tid out r.tid ≡ false
    → AreDistinct out
    → AreDistinct (add_stuck freq slow others r off out)
unfolding add_stuck
add_stuck-AreDistinct freq slow others r none out f d = d
add_stuck-AreDistinct freq slow others r (some off) out f d =
    elim (Bool-cases (was_stuck freq slow others off r)) [
      | inl t ↦ rw (t, if◌then◌else◌) (AreDistinct-append out _ f d)
      | inr t ↦ rw (t, if◌then◌else◌) d
    ]

find_stuck-AreDistinct :
    (freq : ℕ) (slow : IoRec) (others : List IoRec) (sw : List SwitchRec) (rd : List ReadyRec)
    (out : List Stuck)
    → AreDistinct out
    → AreDistinct (find_stuck freq slow others sw rd out)
unfolding find_stuck
find_stuck-AreDistinct freq slow others sw [] out d = d
find_stuck-AreDistinct freq slow others sw (r ∷ rd) out d = elim (Bool-cases (has_tid out r.tid)) [
  | inl t ↦ rw (t, if◌then◌else◌) (find_stuck-AreDistinct freq slow others sw rd out d)
  | inr t ↦
      rw (t, if◌then◌else◌)
        (find_stuck-AreDistinct freq slow others sw rd _
          (add_stuck-AreDistinct freq slow others r (wait_before sw r.tid r.ts) out t d))
]

stuck_le-total : (x y : Stuck) → (stuck_le x y ≡ true) ⊎ (stuck_le y x ≡ true)
unfolding stuck_le
stuck_le-total x y = ground arith

stuck_le_trans : (x y z : Stuck) → stuck_le x y ≡ true → stuck_le y z ≡ true → stuck_le x z ≡ true
unfolding stuck_le
stuck_le_trans x y z e f = ground arith

-- Of two threads in the list the first waited longer, or as long and has the lower number.
abbrev ComesBefore : Stuck → Stuck → Type 0
ComesBefore a b = (b.waited <ℤ a.waited) ⊎ ((a.waited ≡ b.waited) × (a.tid < b.tid))

abbrev pub AreRanked : List Stuck → Type 0
AreRanked [] = Unit
AreRanked (s ∷ ss) = All (ComesBefore s) ss × AreRanked ss

All-ComesBefore :
    (s : Stuck) (ss : List Stuck)
    → All (λ x. stuck_le s x ≡ true) ss
    → has_tid ss s.tid ≡ false
    → All (ComesBefore s) ss
unfolding stuck_le
All-ComesBefore s [] o d = tt
All-ComesBefore s (x ∷ ss) o d =
    (ground (arith, o.0, d), All-ComesBefore s ss o.1 (ground (arith, d)))

IsSorted-AreRanked : (ss : List Stuck) → IsSorted stuck_le ss → AreDistinct ss → AreRanked ss
IsSorted-AreRanked [] o d = tt
IsSorted-AreRanked (s ∷ ss) o d = (All-ComesBefore s ss o.0 d.0, IsSorted-AreRanked ss o.1 d.1)

-- Each thread is in the list once, and of two in the list the first one waited longer, or as long and
-- has the lower number.
pub stuck_behind-ordered :
    (freq : ℕ) (slow : IoRec) (others : List IoRec) (sw : List SwitchRec) (rd : List ReadyRec)
    → AreDistinct (stuck_behind freq slow others sw rd)
      × AreRanked (stuck_behind freq slow others sw rd)
unfolding stuck_behind
stuck_behind-ordered freq slow others sw rd =
    let out = find_stuck freq slow others sw (filter (near_end freq slow) rd) [] in
    let once =
      AreDistinct-sort out
        (find_stuck-AreDistinct freq slow others sw (filter (near_end freq slow) rd) [] tt) in
    let ordered = sort-IsSorted stuck_le stuck_le-total stuck_le_trans out in
    (once, IsSorted-AreRanked (sort stuck_le out) ordered once)
