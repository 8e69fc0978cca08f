-- ===== src/State/Reach.antt =====
-- `Inner::switches_cover` and the rings of switches and wake-ups: what the callback saw is in the
-- rings, or the state says why not.
use wtfis_stalling.Base.{
  ℕ, ◌+◌, ◌*◌, ◌/◌, ◌<◌, ◌⊎◌, inl, inr, Bool-cases, arith, Memᴰ, All, drop_while-cases, min, u64,
}
use wtfis_stalling.Base.Int.{ℤ, pos, ◌≤ℤ◌, ◌<ℤ◌, ltb_ℤ, div_i64, ◌-i64◌, -i64_parts, IsTick}
use wtfis_stalling.Util.{ms_to_ticks}
use wtfis_stalling.State.Records.{SwitchRec, ReadyRec}
use wtfis_stalling.State.Rings.{Inner, prune, hear, switch_keep_ms}
use wtfis_stalling.State.Losses.{LostBy, Ascending, drop_while-late, All-drop_while, All-imp}

abbrev pub at : SwitchRec → ℤ
at r = r.ts

-- The ring of switches is in order, and the clock is not behind it.
pub record InStep (s : Inner) : Type 0 where
  pub sorted : Ascending at s.switches
  pub newest : All (λ y. y.ts ≤ℤ s.latest_ts) s.switches
  pub clock : IsTick s.latest_ts

-- A record of time `t` left its ring by the cap, or by its age: then the ring of switches holds
-- only later ones.
abbrev pub IsGone : Inner → ℤ → Type 0
IsGone s t = LostBy s.ring_lost_until t ⊎ (All (λ y. t <ℤ y.ts) s.switches × (t <ℤ s.latest_ts))

abbrev pub HasSwitch : SwitchRec → Inner → Type 0
HasSwitch x s = Memᴰ x s.switches ⊎ IsGone s x.ts

abbrev pub HasReady : ReadyRec → Inner → Type 0
HasReady x s = Memᴰ x s.readies ⊎ IsGone s x.ts

abbrev pub counted : Inner → Inner
counted s = record s { events = u64 (s.events + 1) }

abbrev pub moved : Inner → ℤ → Inner
moved s ts = record (counted s) { latest_ts = ts }

-- The three things that hearing an event may do.
pub hear_cases :
    (P : Inner → Type 0) (freq : ℕ) (keep : ℤ) (s : Inner) (ts : ℤ)
    → (ts ≤ℤ s.latest_ts → P (counted s))
    → (s.latest_ts <ℤ ts → P (moved s ts) × P (prune freq (moved s ts) keep))
    → P (hear freq keep s ts)
unfolding hear
hear_cases P freq keep s ts old newer = elim (Bool-cases (ltb_ℤ s.latest_ts ts)) [
  | inr late ↦ rw (late, hear) (old (ground arith))
  | inl soon ↦ elim (Bool-cases (ltb_ℤ (div_i64 keep 8) (ts -i64 s.last_prune))) [
    | inl due ↦ rw (soon, due, hear) (newer (ground arith)).1
    | inr early ↦ rw (soon, early, hear) (newer (ground arith)).0
  ]
]

abbrev cutoff : ℕ → Inner → ℤ
cutoff freq s = s.latest_ts -i64 ms_to_ticks freq switch_keep_ms

cutoff-le :
    (freq : ℕ) (s : Inner)
    → freq < 1000000000000000
    → IsTick s.latest_ts
    → cutoff freq s ≤ℤ s.latest_ts
unfolding ms_to_ticks
cutoff-le freq s small t =
    omega (arith, -i64_parts s.latest_ts (pos (min (6000 * freq / 1000) 9223372036854775807)))

prune-IsGone : (freq : ℕ) (s : Inner) (keep t : ℤ) → IsGone s t → IsGone (prune freq s keep) t
unfolding prune
prune-IsGone freq s keep t (inl l) = inl l
prune-IsGone freq s keep t (inr (later, past)) =
    inr (All-drop_while _ (λ r. ltb_ℤ r.ts (cutoff freq s)) s.switches later, past)

-- What is older than the cutoff is gone once the ring was pruned at it.
prune-old :
    (freq : ℕ) (s : Inner) (keep t : ℤ)
    → freq < 1000000000000000
    → InStep s
    → t <ℤ cutoff freq s
    → IsGone (prune freq s keep) t
unfolding prune
prune-old freq s keep t small i old = inr (
  All-imp _ (λ (y : SwitchRec). t <ℤ y.ts) _ (λ y late. omega arith)
      (drop_while-late at (cutoff freq s) s.switches i.sorted).1,
  omega (arith, cutoff-le freq s small i.clock),
)

pub prune-HasSwitch :
    (freq : ℕ) (s : Inner) (keep : ℤ) (x : SwitchRec)
    → freq < 1000000000000000
    → InStep s
    → HasSwitch x s
    → HasSwitch x (prune freq s keep)
prune-HasSwitch freq s keep x small i (inr gone) = inr (prune-IsGone freq s keep x.ts gone)
prune-HasSwitch freq s keep x small i (inl m) =
    elim (drop_while-cases (λ (r : SwitchRec). ltb_ℤ r.ts (cutoff freq s)) s.switches x m) [
      | inl old ↦ inr (prune-old freq s keep x.ts small i (ground (arith, old)))
      | inr stays ↦ inl (unfold prune in stays)
    ]

pub prune-HasReady :
    (freq : ℕ) (s : Inner) (keep : ℤ) (x : ReadyRec)
    → freq < 1000000000000000
    → InStep s
    → HasReady x s
    → HasReady x (prune freq s keep)
prune-HasReady freq s keep x small i (inr gone) = inr (prune-IsGone freq s keep x.ts gone)
prune-HasReady freq s keep x small i (inl m) =
    elim (drop_while-cases (λ (r : ReadyRec). ltb_ℤ r.ts (cutoff freq s)) s.readies x m) [
      | inl old ↦ inr (prune-old freq s keep x.ts small i (ground (arith, old)))
      | inr stays ↦ inl (unfold prune in stays)
    ]

pub prune-InStep : (freq : ℕ) (s : Inner) (keep : ℤ) → InStep s → InStep (prune freq s keep)
unfolding prune
prune-InStep freq s keep i = record {
  sorted = (drop_while-late at (cutoff freq s) s.switches i.sorted).0;
  newest = All-drop_while _ (λ r. ltb_ℤ r.ts (cutoff freq s)) s.switches i.newest;
  clock = i.clock;
}

pub moved-InStep :
    (s : Inner) (ts : ℤ) → InStep s → IsTick ts → s.latest_ts <ℤ ts → InStep (moved s ts)
moved-InStep s ts i t h = record {
  sorted = i.sorted;
  newest = All-imp _ (λ (y : SwitchRec). y.ts ≤ℤ ts) s.switches (λ y le. omega arith) i.newest;
  clock = t;
}

moved-IsGone : (s : Inner) (ts t : ℤ) → s.latest_ts <ℤ ts → IsGone s t → IsGone (moved s ts) t
moved-IsGone s ts t h (inl l) = inl l
moved-IsGone s ts t h (inr (later, past)) = inr (later, omega arith)

pub moved-HasSwitch :
    (s : Inner) (ts : ℤ) (x : SwitchRec)
    → s.latest_ts <ℤ ts
    → HasSwitch x s
    → HasSwitch x (moved s ts)
moved-HasSwitch s ts x h (inl m) = inl m
moved-HasSwitch s ts x h (inr gone) = inr (moved-IsGone s ts x.ts h gone)

pub moved-HasReady :
    (s : Inner) (ts : ℤ) (x : ReadyRec) → s.latest_ts <ℤ ts → HasReady x s → HasReady x (moved s ts)
moved-HasReady s ts x h (inl m) = inl m
moved-HasReady s ts x h (inr gone) = inr (moved-IsGone s ts x.ts h gone)

pub counted-InStep : (s : Inner) → InStep s → InStep (counted s)
counted-InStep s i = record { sorted = i.sorted; newest = i.newest; clock = i.clock }
