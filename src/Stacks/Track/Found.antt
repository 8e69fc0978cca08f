-- ===== src/Stacks/Track/Found.antt =====
-- An event that has just been put to wait is the one its stack finds: `pend` and `take` of
-- src/stacks.rs.
use wtfis_stalling.Base.{
  ℕ, zero, suc, ◌+◌, ◌-◌, ◌≡◌, ◌≤◌, ◌<◌, refl, ap, ◌∙◌, arith, Bool, true, false, Option, some,
  List, [], ◌∷◌, ◌++◌, if◌then◌else◌, ltb, length, length-append, Bool-cases, inl, inr, tail, any,
  set, replicate, max,
}
use wtfis_stalling.Base.Int.{ℤ, max_opt}
use wtfis_stalling.Base.Assoc.{nat_eq}
use wtfis_stalling.Stacks.Track.{take_first, hit, shrink, slots_of, grow, pend, take, StackState}
use wtfis_stalling.Stacks.Keep.{Pending, IoStack, pending_per_cpu}

-- The event that came last is the one that is found, where none before it fits.
take_first-last :
    (h : Pending → Bool) (slots : List Pending) (p : Pending)
    → any h slots ≡ false
    → h p ≡ true
    → take_first h (slots ++ p ∷ []) ≡ some (p, slots)
unfolding take_first
take_first-last h [] p f t = rw t refl
take_first-last h (x ∷ slots) p f t =
    let miss : h x ≡ false = ground (arith, f) in
    let rest : any h slots ≡ false = ground (arith, f) in
    rw (miss, take_first-last h slots p rest t) refl

any-tail :
    (h : Pending → Bool) (slots : List Pending) → any h slots ≡ false → any h (tail slots) ≡ false
any-tail h [] f = refl
any-tail h (x ∷ slots) f = ground (arith, f)

tail-append :
    (slots : List Pending) (p : Pending)
    → 1 ≤ length slots
    → tail (slots ++ p ∷ []) ≡ tail slots ++ p ∷ []
tail-append [] p h = absurd (omega arith)
tail-append (x ∷ slots) p h = refl

slots_of-set :
    (all : List (List Pending)) (i : ℕ) (slots : List Pending)
    → i < length all
    → slots_of (set all i slots) i ≡ slots
slots_of-set [] i slots h = absurd (omega arith)
slots_of-set (x ∷ all) zero slots h = refl
slots_of-set (x ∷ all) (suc i) slots h = slots_of-set all i slots (omega arith)

length-replicate : (n : ℕ) → length (replicate {A = List Pending} n []) ≡ n
length-replicate zero = refl
length-replicate (suc n) = ap suc (length-replicate n)

slots_of-grow :
    (all : List (List Pending)) (i n : ℕ) → slots_of (all ++ replicate n []) i ≡ slots_of all i
slots_of-grow [] i zero = refl
slots_of-grow [] zero (suc n) = refl
slots_of-grow [] (suc i) (suc n) = slots_of-grow [] i n
slots_of-grow (x ∷ all) zero n = refl
slots_of-grow (x ∷ all) (suc i) n = slots_of-grow all i n

-- The youngest of a queue stays whatever its cap.
pub last-shrink :
    (cap : ℕ) (ts : ℤ × (ℕ × IoStack) → ℤ) (q : List (ℤ × (ℕ × IoStack))) (item : ℤ × (ℕ × IoStack))
    (lost : Option ℤ)
    → (rest : List (ℤ × (ℕ × IoStack))) × ((shrink cap ts (q ++ item ∷ []) lost).0
        ≡ rest ++ item ∷ [])
unfolding shrink
last-shrink cap ts [] item lost = ([], ground arith)
last-shrink cap ts (x ∷ q) item lost =
    elim (Bool-cases (ltb (max cap 1) (suc (length (q ++ item ∷ []))))) [
      | inl t ↦ rw (t, if◌then◌else◌) (last-shrink cap ts q item (max_opt lost (some (ts x))))
      | inr f ↦ rw (f, if◌then◌else◌) (x ∷ q, refl)
    ]

take-found :
    (per_cpu : List (List Pending)) (cpu : ℕ) (ts : ℤ) (tid : ℕ) (slots : List Pending)
    (p : Pending)
    → slots_of per_cpu cpu ≡ slots ++ p ∷ []
    → any (hit ts tid) slots ≡ false
    → hit ts tid p ≡ true
    → take per_cpu cpu ts tid ≡ some (p, (set per_cpu cpu slots, false))
unfolding take
take-found per_cpu cpu ts tid slots p e f t =
    let here : take_first (hit ts tid) (slots_of per_cpu cpu) ≡ some (p, slots) =
      ap (take_first (hit ts tid)) e ∙ take_first-last (hit ts tid) slots p f t in
    ground (arith, here)

-- An event that waits on its processor is found by its stack.
pub take-pend :
    (s : StackState) (cpu : ℕ) (p : Pending) (ts : ℤ) (tid : ℕ)
    → any (hit ts tid) (slots_of s.per_cpu cpu) ≡ false
    → hit ts tid p ≡ true
    → (left : List (List Pending)) × (take (pend s cpu p).per_cpu cpu ts tid
        ≡ some (p, (left, false)))
unfolding pend
take-pend s cpu p ts tid f t =
    let all = grow s.per_cpu (cpu + 1) in
    let slots = slots_of all cpu in
    let room : cpu < length all = omega (
      arith,
      length-append s.per_cpu (replicate (cpu + 1 - length s.per_cpu) []),
      length-replicate (cpu + 1 - length s.per_cpu),
    ) in
    let none_before : any (hit ts tid) slots ≡ false =
      ap (any (hit ts tid)) (slots_of-grow s.per_cpu cpu (cpu + 1 - length s.per_cpu)) ∙ f in
    elim (Bool-cases (ltb pending_per_cpu (length (slots ++ p ∷ [])))) [
      | inl full ↦
          let some_before : 1 ≤ length slots = ground (arith, full, length-append slots (p ∷ [])) in
          rw (full, if◌then◌else◌)
            (
              _,
              take-found (set all cpu (tail (slots ++ p ∷ []))) cpu ts tid (tail slots) p
                  (slots_of-set all cpu (tail (slots ++ p ∷ [])) room
                    ∙ tail-append slots p some_before)
                  (any-tail (hit ts tid) slots none_before) t,
            )
      | inr few ↦
          rw (few, if◌then◌else◌)
            (
              _,
              take-found (set all cpu (slots ++ p ∷ [])) cpu ts tid slots p
                  (slots_of-set all cpu (slots ++ p ∷ []) room) none_before t,
            )
    ]
