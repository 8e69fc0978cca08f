-- ===== src/DiskStuck/Sound.antt =====
-- What it says of a thread that it was stuck behind a request.
use wtfis_stalling.Base.{
  ℕ, ◌≡◌, ◌⊎◌, ◌==◌, ap, false, refl, subst, arith, Bool, true, Option, none, some, List, [], ◌∷◌,
  ◌++◌, if◌then◌else◌, Bool-cases, inl, inr, Option-cases, filter, All, Memᴰ,
}
use wtfis_stalling.Base.Int.{ℤ, ◌≤ℤ◌, ◌<ℤ◌, ◌-i64◌}
use wtfis_stalling.Base.Sort.{All-sort}
use wtfis_stalling.Util.{ms_to_ticks}
use wtfis_stalling.State.Records.{IoRec, SwitchRec, ReadyRec}
use wtfis_stalling.Switches.Probe.{state_waiting, eq_ℤ}
use wtfis_stalling.DiskStuck.{
  Stuck, rfind, takes_off, wait_before, was_stuck, near_end, add_stuck, has_tid, find_stuck,
  stuck_le, stuck_behind, start_of, stuck_min_ms, began_during, long_enough,
}

-- A switch that did not take the thread off a processor at `at` or before.
abbrev IsOther : ℕ → ℤ → SwitchRec → Type 0
IsOther tid at x = ((x.old_tid == tid) ≡ false) ⊎ (at <ℤ x.ts)

-- The last switch of the records that took the thread off a processor at `at` or before; and it was
-- into a wait.
pub record IsWaitBefore (sw : List SwitchRec) (tid : ℕ) (at : ℤ) (off : SwitchRec) : Type 0 where
  pub older : List SwitchRec
  pub newer : List SwitchRec
  pub recorded : sw ≡ older ++ off ∷ newer
  pub newest : All (IsOther tid at) newer
  pub same_thread : off.old_tid ≡ tid
  pub before : off.ts ≤ℤ at
  pub waiting : eq_ℤ off.old_state state_waiting ≡ true

rfind-none :
    (p : SwitchRec → Bool) (xs : List SwitchRec) → rfind p xs ≡ none → All (λ x. p x ≡ false) xs
unfolding rfind
rfind-none p [] e = tt
rfind-none p (y ∷ ys) e = elim (Option-cases (rfind p ys)) [
  | inl empty ↦ elim (Bool-cases (p y)) [
    | inl t ↦ absurd (ground (arith, empty, t, e))
    | inr f ↦ (f, rfind-none p ys empty)
  ]
  | inr (z, found) ↦ absurd (ground (arith, found, e))
]

-- The last one that passes, what is before it, and what is after it.
record IsLast (p : SwitchRec → Bool) (xs : List SwitchRec) (x : SwitchRec) : Type 0 where
  older : List SwitchRec
  newer : List SwitchRec
  there : xs ≡ older ++ x ∷ newer
  passes : p x ≡ true
  none_after : All (λ y. p y ≡ false) newer

rfind-some :
    (p : SwitchRec → Bool) (xs : List SwitchRec) (x : SwitchRec)
    → rfind p xs ≡ some x
    → IsLast p xs x
unfolding rfind
rfind-some p [] x e = absurd cc
rfind-some p (y ∷ ys) x e = elim (Option-cases (rfind p ys)) [
  | inl empty ↦ elim (Bool-cases (p y)) [
    | inl t ↦
        let same : y ≡ x = ground (arith, empty, t, e) in
        subst (IsLast p (y ∷ ys)) same (record {
          older = [];
          newer = ys;
          there = refl;
          passes = t;
          none_after = rfind-none p ys empty;
        })
    | inr f ↦ absurd (ground (arith, empty, f, e))
  ]
  | inr (z, found) ↦
      let same : z ≡ x = ground (arith, found, e) in
      let l = rfind-some p ys z found in
      subst (IsLast p (y ∷ ys)) same (record {
        older = y ∷ l.older;
        newer = l.newer;
        there = ap (◌∷◌ y) l.there;
        passes = l.passes;
        none_after = l.none_after;
      })
]

takes_off-IsOther :
    (tid : ℕ) (at : ℤ) (xs : List SwitchRec)
    → All (λ x. takes_off tid at x ≡ false) xs
    → All (IsOther tid at) xs
unfolding takes_off
takes_off-IsOther tid at [] h = tt
takes_off-IsOther tid at (x ∷ xs) h = (ground (arith, h.0), takes_off-IsOther tid at xs h.1)

pub wait_before-some :
    (sw : List SwitchRec) (tid : ℕ) (at : ℤ) (off : SwitchRec)
    → wait_before sw tid at ≡ some off
    → IsWaitBefore sw tid at off
unfolding wait_before takes_off
wait_before-some sw tid at off e = elim (Option-cases (rfind (takes_off tid at) sw)) [
  | inl empty ↦ absurd (ground (arith, empty, e))
  | inr (z, found) ↦ elim (Bool-cases (eq_ℤ z.old_state state_waiting)) [
    | inl t ↦
        let same : z ≡ off = ground (arith, found, t, e) in
        let l = rfind-some (takes_off tid at) sw z found in
        let h = l.passes in
        subst (IsWaitBefore sw tid at) same (record {
          older = l.older;
          newer = l.newer;
          recorded = l.there;
          newest = takes_off-IsOther tid at l.newer l.none_after;
          same_thread = ground (arith, h);
          before = ground (arith, h);
          waiting = t;
        })
    | inr f ↦ absurd (ground (arith, found, f, e))
  ]
]

-- The records that show that a thread was stuck behind `slow`.
pub record IsBehind (freq : ℕ) (slow : IoRec) (sw : List SwitchRec) (rd : List ReadyRec) (s : Stuck)
    : Type 0 where
  pub wake : ReadyRec
  pub off : SwitchRec
  pub recorded : Memᴰ wake rd
  pub near : near_end freq slow wake ≡ true
  pub thread : wake.tid ≡ s.tid
  pub wait : IsWaitBefore sw s.tid s.woke_at off
  pub woke_at : s.woke_at ≡ wake.ts
  pub waited : s.waited ≡ wake.ts -i64 off.ts
  pub outstanding : (start_of slow ≤ℤ off.ts) × (off.ts <ℤ slow.end)
  pub long : ms_to_ticks freq stuck_min_ms ≤ℤ s.waited

pub All-append {ℓ κ} :
    {A : Type ℓ} (P : A → Type κ) (xs : List A) (x : A) → All P xs → P x → All P (xs ++ x ∷ [])
All-append P [] x h p = (p, tt)
All-append P (y ∷ xs) x h p = (h.0, All-append P xs x h.1 p)

module _ (freq : ℕ) (slow : IoRec) (others : List IoRec) (sw : List SwitchRec)
    (all : List ReadyRec) where
  add_stuck_sound :
      (r : ReadyRec) (off : Option SwitchRec) (out : List Stuck)
      → Memᴰ r all
      → near_end freq slow r ≡ true
      → wait_before sw r.tid r.ts ≡ off
      → All (IsBehind freq slow sw all) out
      → All (IsBehind freq slow sw all) (add_stuck freq slow others r off out)
  unfolding add_stuck was_stuck began_during long_enough
  add_stuck_sound r none out m n e h = h
  add_stuck_sound r (some off) out m n e h = elim (Bool-cases (was_stuck freq slow others off r)) [
    | inl t ↦
        rw (t, if◌then◌else◌)
          (All-append _ out _ h (record {
            wake = r;
            off = off;
            recorded = m;
            near = n;
            thread = refl;
            wait = wait_before-some sw r.tid r.ts off e;
            woke_at = refl;
            waited = refl;
            outstanding = ground (arith, t);
            long = ground (arith, t);
          }))
    | inr f ↦ rw (f, if◌then◌else◌) h
  ]

  find_stuck_sound :
      (rd : List ReadyRec) (out : List Stuck)
      → All (λ r. Memᴰ r all × (near_end freq slow r ≡ true)) rd
      → All (IsBehind freq slow sw all) out
      → All (IsBehind freq slow sw all) (find_stuck freq slow others sw rd out)
  unfolding find_stuck
  find_stuck_sound [] out m h = h
  find_stuck_sound (r ∷ rd) out m h = elim (Bool-cases (has_tid out r.tid)) [
    | inl t ↦ rw (t, if◌then◌else◌) (find_stuck_sound rd out m.1 h)
    | inr f ↦
        rw (f, if◌then◌else◌)
          (find_stuck_sound rd (add_stuck freq slow others r (wait_before sw r.tid r.ts) out) m.1
            (add_stuck_sound r (wait_before sw r.tid r.ts) out m.0.0 m.0.1 refl h))
  ]

All-filter {ℓ} :
    {A : Type ℓ} (p : A → Bool) (all xs : List A)
    → All (λ x. Memᴰ x all) xs
    → All (λ x. Memᴰ x all × (p x ≡ true)) (filter p xs)
All-filter p all [] h = tt
All-filter p all (x ∷ xs) h = elim (Bool-cases (p x)) [
  | inl t ↦ rw (t, if◌then◌else◌) ((h.0, t), All-filter p all xs h.1)
  | inr f ↦ rw (f, if◌then◌else◌) (All-filter p all xs h.1)
]

All-weaken {ℓ} :
    {A : Type ℓ} (y : A) (all xs : List A)
    → All (λ x. Memᴰ x all) xs
    → All (λ x. Memᴰ x (y ∷ all)) xs
All-weaken y all [] h = tt
All-weaken y all (x ∷ xs) h = (Memᴰ.tail h.0, All-weaken y all xs h.1)

pub All-Memᴰ {ℓ} : {A : Type ℓ} (xs : List A) → All (λ x. Memᴰ x xs) xs
All-Memᴰ [] = tt
All-Memᴰ (x ∷ xs) = (Memᴰ.head refl, All-weaken x xs xs (All-Memᴰ xs))

-- Every thread in the list has its records: a wake-up in the window around the end of the request,
-- and the newest record up to then of a switch that took the thread off a processor, which was into a
-- wait and while the request was outstanding; the time between them is the wait that is reported, ten
-- milliseconds at least.
pub stuck_behind_sound :
    (freq : ℕ) (slow : IoRec) (others : List IoRec) (sw : List SwitchRec) (rd : List ReadyRec)
    → All (IsBehind freq slow sw rd) (stuck_behind freq slow others sw rd)
unfolding stuck_behind
stuck_behind_sound freq slow others sw rd =
    All-sort stuck_le (IsBehind freq slow sw rd)
      (find_stuck freq slow others sw (filter (near_end freq slow) rd) [])
      (find_stuck_sound freq slow others sw rd (filter (near_end freq slow) rd) []
        (All-filter (near_end freq slow) rd rd (All-Memᴰ rd)) tt)
