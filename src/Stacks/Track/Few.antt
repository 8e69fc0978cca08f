-- ===== src/Stacks/Track/Few.antt =====
-- No processor has more than four events that wait for their stack.
use wtfis_stalling.Base.{
  ℕ, zero, suc, ◌+◌, ◌-◌, ◌≡◌, ◌≤◌, refl, sym, subst, arith, Bool, some, List, [], ◌∷◌, ◌++◌,
  if◌then◌else◌, ltb, length, length-append, Bool-cases, inl, inr, Option-cases, tail, All, set,
  replicate,
}
use wtfis_stalling.Base.Int.{ℤ}
use wtfis_stalling.Base.Assoc.{nat_eq}
use wtfis_stalling.Stacks.Keep.{Pending, pending_per_cpu}
use wtfis_stalling.Stacks.Track.{StackState, pend, take, take_first, take_any, hit, grow, slots_of}

abbrev pub Slots : Type 0
Slots = List (List Pending)

-- At most four events wait for their stack on each processor.
abbrev pub AreFew : Slots → Type 0
AreFew = All (λ slots. length slots ≤ pending_per_cpu)

AreFew-grow : (all : Slots) (n : ℕ) → AreFew all → AreFew (all ++ replicate n [])
AreFew-grow [] zero h = tt
AreFew-grow [] (suc n) h = (omega arith, AreFew-grow [] n tt)
AreFew-grow (slots ∷ all) n h = (h.0, AreFew-grow all n h.1)

AreFew-set :
    (all : Slots) (i : ℕ) (slots : List Pending)
    → length slots ≤ pending_per_cpu
    → AreFew all
    → AreFew (set all i slots)
AreFew-set [] i slots l h = tt
AreFew-set (x ∷ all) zero slots l h = (l, h.1)
AreFew-set (x ∷ all) (suc i) slots l h = (h.0, AreFew-set all i slots l h.1)

slots_of-few : (all : Slots) (i : ℕ) → AreFew all → length (slots_of all i) ≤ pending_per_cpu
slots_of-few [] i h = omega arith
slots_of-few (x ∷ all) zero h = h.0
slots_of-few (x ∷ all) (suc i) h = slots_of-few all i h.1

length-tail :
    (p : Pending) (xs : List Pending) → suc (length (tail (xs ++ p ∷ []))) ≡ length (xs ++ p ∷ [])
length-tail p [] = refl
length-tail p (x ∷ xs) = refl

pub pend-few :
    (s : StackState) (cpu : ℕ) (p : Pending) → AreFew s.per_cpu → AreFew (pend s cpu p).per_cpu
unfolding pend
pend-few s cpu p h =
    let all = grow s.per_cpu (cpu + 1) in
    let few = AreFew-grow s.per_cpu (cpu + 1 - length s.per_cpu) h in
    let slots = slots_of all cpu in
    let n = slots_of-few all cpu few in
    elim (Bool-cases (ltb pending_per_cpu (length (slots ++ p ∷ [])))) [
      | inl t ↦
          rw (t, if◌then◌else◌)
            (AreFew-set all cpu _ (omega (arith, length-tail p slots, length-append slots (p ∷ [])))
              few)
      | inr t ↦ rw (t, if◌then◌else◌) (AreFew-set all cpu _ (ground arith) few)
    ]

take_first-length :
    (h : Pending → Bool) (slots left : List Pending) (p : Pending)
    → take_first h slots ≡ some (p, left)
    → suc (length left) ≡ length slots
unfolding take_first
take_first-length h [] left p e = absurd cc
take_first-length h (x ∷ slots) left p e = elim (Bool-cases (h x)) [
  | inl t ↦ ground (arith, t, e)
  | inr t ↦ elim (Option-cases (take_first h slots)) [
    | inl none_ ↦ ground (arith, t, e, none_)
    | inr ((q, rest), here) ↦ ground (arith, t, e, here, take_first-length h slots rest q here)
  ]
]

take_any-few :
    (h : Pending → Bool) (all left : Slots) (p : Pending)
    → take_any h all ≡ some (p, left)
    → AreFew all
    → AreFew left
unfolding take_any
take_any-few h [] left p e few = absurd cc
take_any-few h (slots ∷ all) left p e few = elim (Option-cases (take_first h slots)) [
  | inl empty ↦ elim (Option-cases (take_any h all)) [
    | inl nowhere ↦ absurd (ground (arith, empty, nowhere, e))
    | inr ((q, others), there) ↦
        let same : left ≡ slots ∷ others = ground (arith, empty, there, e) in
        subst AreFew (sym same) (few.0, take_any-few h all others q there few.1)
  ]
  | inr ((q, rest), here) ↦
      let same : left ≡ rest ∷ all = ground (arith, here, e) in
      subst AreFew (sym same) (omega (arith, take_first-length h slots rest q here), few.1)
]

pub take-few :
    (per_cpu left : Slots) (cpu : ℕ) (ts : ℤ) (tid : ℕ) (p : Pending) (elsewhere : Bool)
    → take per_cpu cpu ts tid ≡ some (p, (left, elsewhere))
    → AreFew per_cpu
    → AreFew left
unfolding take
take-few per_cpu left cpu ts tid p elsewhere e few =
    elim (Option-cases (take_first (hit ts tid) (slots_of per_cpu cpu))) [
      | inl empty ↦ elim (Option-cases (take_any (hit ts tid) per_cpu)) [
        | inl nowhere ↦ absurd (ground (arith, empty, nowhere, e))
        | inr ((q, others), there) ↦
            let same : left ≡ others = ground (arith, empty, there, e) in
            subst AreFew (sym same) (take_any-few (hit ts tid) per_cpu others q there few)
      ]
      | inr ((q, rest), here) ↦
          let same : left ≡ set per_cpu cpu rest = ground (arith, here, e) in
          let n = slots_of-few per_cpu cpu few in
          subst AreFew (sym same) (
            AreFew-set per_cpu cpu rest
              (omega (arith, take_first-length (hit ts tid) (slots_of per_cpu cpu) rest q here))
              few)
    ]
