-- ===== src/Switches/Late.antt =====
-- What a late wake-up stands for: no record of an earlier one.
use wtfis_stalling.Base.{
  ℕ, ◌≡◌, sym, ◌⊎◌, inl, inr, Bool, true, false, Bool-cases, Option-cases, some, List, [], ◌∷◌,
  arith, Memᴰ, All, subst, ==_iff,
}
use wtfis_stalling.Base.Int.{ℤ, ◌≤ℤ◌, ◌<ℤ◌, ltb_ℤ, ◌+i64◌, ◌-i64◌}
use wtfis_stalling.State.Records.{SwitchRec, ReadyRec}
use wtfis_stalling.Switches.Probe.{
  ProbeWindow, readied_late, on_time_slack, find, is_wake_up, classify_probe,
}

-- Wake-ups in the order of their times.
abbrev pub InOrder : List ReadyRec → Type 0
InOrder [] = Unit
InOrder (r ∷ rs) = All (λ (x : ReadyRec). r.ts ≤ℤ x.ts) rs × InOrder rs

All-Mem : (P : ReadyRec → Type 0) (rs : List ReadyRec) (x : ReadyRec) → All P rs → Memᴰ x rs → P x
All-Mem P [] x h m = elim m [ ]
All-Mem P (y ∷ rs) x h (Memᴰ.head e) = subst P (sym e) h.0
All-Mem P (y ∷ rs) x h (Memᴰ.tail m) = All-Mem P rs x h.1 m

first-earliest :
    (y : ReadyRec) (rs : List ReadyRec) (x : ReadyRec)
    → InOrder (y ∷ rs)
    → Memᴰ x (y ∷ rs)
    → y.ts ≤ℤ x.ts
first-earliest y rs x o (Memᴰ.head e) = rw e (omega arith)
first-earliest y rs x o (Memᴰ.tail m) = All-Mem (λ (z : ReadyRec). y.ts ≤ℤ z.ts) rs x o.0 m

find-cons :
    (p : ReadyRec → Bool) (y : ReadyRec) (rs : List ReadyRec) (r : ReadyRec)
    → find p (y ∷ rs) ≡ some r
    → ((p y ≡ true) × (y ≡ r)) ⊎ ((p y ≡ false) × (find p rs ≡ some r))
unfolding find
find-cons p y rs r e = elim (Bool-cases (p y)) [
  | inl t ↦ inl (ground (arith, t, e))
  | inr t ↦ inr (ground (arith, t, e))
]

-- The wake-up that is found is the earliest of those that pass.
find-earliest :
    (p : ReadyRec → Bool) (rs : List ReadyRec) (r x : ReadyRec)
    → InOrder rs
    → find p rs ≡ some r
    → Memᴰ x rs
    → p x ≡ true
    → r.ts ≤ℤ x.ts
find-earliest p [] r x o e m h = elim m [ ]
find-earliest p (y ∷ rs) r x o e m h = elim (find-cons p y rs r e) [
  | inl (t, same) ↦ subst (λ (z : ReadyRec). z.ts ≤ℤ x.ts) same (first-earliest y rs x o m)
  | inr (t, rest) ↦ elim m [
    | Memᴰ.head here ↦ cc
    | Memᴰ.tail m' ↦ find-earliest p rs r x o.1 rest m' h
  ]
]

late_from :
    (freq : ℕ) (sw : List SwitchRec) (rd : List ReadyRec) (w : ProbeWindow) (delay : ℤ)
    → classify_probe freq sw rd w ≡ readied_late delay
    → let slack = on_time_slack freq (w.end -i64 w.start) in
      (r : ReadyRec) × (find (is_wake_up w slack) rd ≡ some r)
      × (ltb_ℤ (w.start +i64 slack) r.ts ≡ true)
unfolding classify_probe
late_from freq sw rd w delay e =
    let slack = on_time_slack freq (w.end -i64 w.start) in
    elim (Option-cases (find (is_wake_up w slack) rd)) [
      | inl missing ↦ absurd (ground (arith, missing, e))
      | inr (r, found) ↦ (r, found, ground (arith, found, e))
    ]

-- When a measuring thread's wake-up is called late, no record of the window woke that thread from
-- the time it was due until the slack was over, in a ring that is in the order of its times.
pub readied_late_sound :
    (freq : ℕ) (sw : List SwitchRec) (rd : List ReadyRec) (w : ProbeWindow) (delay : ℤ)
    (x : ReadyRec)
    → InOrder rd
    → classify_probe freq sw rd w ≡ readied_late delay
    → Memᴰ x rd
    → x.tid ≡ w.tid
    → x.ts ≤ℤ w.end +i64 on_time_slack freq (w.end -i64 w.start)
    → let slack = on_time_slack freq (w.end -i64 w.start) in
      (x.ts <ℤ w.start -i64 slack) ⊎ (w.start +i64 slack <ℤ x.ts)
unfolding classify_probe is_wake_up
readied_late_sound freq sw rd w delay x o e m same early =
    let slack = on_time_slack freq (w.end -i64 w.start) in
    let (r, found, late) = late_from freq sw rd w delay e in
    elim (Bool-cases (is_wake_up w slack x)) [
      | inl passes ↦
          inr (ground (arith, late, find-earliest (is_wake_up w slack) rd r x o found m passes))
      | inr other ↦ ground (arith, other, (==_iff x.tid w.tid).1 same)
    ]
