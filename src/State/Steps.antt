-- ===== src/State/Steps.antt =====
-- What one event of the kernel trace does to the rings of src/state.rs.
use wtfis_stalling.Base.{
  ℕ, ◌<◌, ◌≡◌, inl, inr, Bool-cases, [], ◌∷◌, ◌++◌, arith, Memᴰ, ltb, length, max,
}
use wtfis_stalling.Base.Int.{ℤ, ◌≤ℤ◌, ◌<ℤ◌, IsTick}
use wtfis_stalling.State.Records.{SwitchRec, ReadyRec}
use wtfis_stalling.State.Rings.{Inner, prune, switch_cap, ready_cap, push_switch, push_ready, hear}
use wtfis_stalling.State.Losses.{
  LostBy-max_opt_left, tail-LostBy, Ascending-append_last, Ascending-tail, All-append_last,
  All-tail, All-imp,
}
use wtfis_stalling.State.Reach.{
  at, InStep, IsGone, HasSwitch, HasReady, moved, hear_cases, prune-HasSwitch, prune-HasReady,
  prune-InStep, moved-InStep, moved-HasSwitch, moved-HasReady, counted-InStep,
}

-- The clock stands at a time.
abbrev pub StandsAt : ℤ → Inner → Type 0
StandsAt ts s = (s.latest_ts ≤ℤ ts) × (ts ≤ℤ s.latest_ts)

module _ (freq : ℕ) (keep : ℤ) (small : freq < 1000000000000000) where
  pub hear-InStep :
      (s : Inner) (ts : ℤ)
      → IsTick ts
      → s.latest_ts ≤ℤ ts
      → InStep s
      → InStep (hear freq keep s ts) × StandsAt ts (hear freq keep s ts)
  hear-InStep s ts t h i =
      hear_cases (λ u. InStep u × StandsAt ts u) freq keep s ts
        (λ late. (counted-InStep s i, (h, late)))
        (λ soon.
          let m = moved-InStep s ts i t soon in
          ((m, omega arith), (prune-InStep freq (moved s ts) keep m, unfold prune in omega arith)))

  pub hear-HasSwitch :
      (s : Inner) (ts : ℤ) (x : SwitchRec)
      → IsTick ts
      → InStep s
      → HasSwitch x s
      → HasSwitch x (hear freq keep s ts)
  hear-HasSwitch s ts x t i a =
      hear_cases (HasSwitch x) freq keep s ts (λ late. a)
        (λ soon.
          let m = moved-HasSwitch s ts x soon a in
          (m, prune-HasSwitch freq (moved s ts) keep x small (moved-InStep s ts i t soon) m))

  pub hear-HasReady :
      (s : Inner) (ts : ℤ) (x : ReadyRec)
      → IsTick ts
      → InStep s
      → HasReady x s
      → HasReady x (hear freq keep s ts)
  hear-HasReady s ts x t i a =
      hear_cases (HasReady x) freq keep s ts (λ late. a)
        (λ soon.
          let m = moved-HasReady s ts x soon a in
          (m, prune-HasReady freq (moved s ts) keep x small (moved-InStep s ts i t soon) m))

pub push_switch-IsGone :
    (s : Inner) (r : SwitchRec) (t : ℤ)
    → s.latest_ts ≤ℤ r.ts
    → IsGone s t
    → IsGone (push_switch s r) t
unfolding push_switch
push_switch-IsGone s r t h gone =
    elim (Bool-cases (ltb (max s.switch_cap switch_cap) (length (s.switches ++ r ∷ [])))) [
      | inl full ↦
          rw (full, push_switch)
            (elim gone [
              | inl l ↦ inl (LostBy-max_opt_left s.ring_lost_until _ t l)
              | inr (later, past) ↦ inr (
                All-tail _ (s.switches ++ r ∷ []) (
                    All-append_last (λ (y : SwitchRec). t <ℤ y.ts) s.switches r later
                      (omega arith)),
                past,
              )
            ])
      | inr room ↦
          rw (room, push_switch)
            (elim gone [
              | inl l ↦ inl l
              | inr (later, past) ↦ inr (
                All-append_last (λ (y : SwitchRec). t <ℤ y.ts) s.switches r later (omega arith),
                past,
              )
            ])
    ]

-- A switch of the ring, or the new one, is still there after the push or was noted as lost.
pub push_switch-keeps :
    (s : Inner) (r x : SwitchRec) → Memᴰ x (s.switches ++ r ∷ []) → HasSwitch x (push_switch s r)
unfolding push_switch
push_switch-keeps s r x m =
    elim (Bool-cases (ltb (max s.switch_cap switch_cap) (length (s.switches ++ r ∷ [])))) [
      | inl full ↦
          rw (full, push_switch)
            (elim (tail-LostBy at s.ring_lost_until (s.switches ++ r ∷ []) x m) [
              | inl stays ↦ inl stays
              | inr l ↦ inr (inl l)
            ])
      | inr room ↦ rw (room, push_switch) (inl m)
    ]

pub push_switch-InStep :
    (s : Inner) (r : SwitchRec) → StandsAt r.ts s → InStep s → InStep (push_switch s r)
unfolding push_switch
push_switch-InStep s r h i =
    let later =
      All-imp _ (λ (y : SwitchRec). y.ts ≤ℤ r.ts) s.switches (λ y le. omega arith) i.newest in
    let sorted = Ascending-append_last at s.switches r i.sorted later in
    let newest =
      All-append_last (λ (y : SwitchRec). y.ts ≤ℤ s.latest_ts) s.switches r i.newest (h.1) in
    elim (Bool-cases (ltb (max s.switch_cap switch_cap) (length (s.switches ++ r ∷ [])))) [
      | inl full ↦
          rw (full, push_switch)
            (record {
              sorted = Ascending-tail at _ sorted;
              newest = All-tail _ (s.switches ++ r ∷ []) newest;
              clock = i.clock;
            })
      | inr room ↦
          rw (room, push_switch) (record { sorted = sorted; newest = newest; clock = i.clock })
    ]

pub push_switch-readies : (s : Inner) (r : SwitchRec) → (push_switch s r).readies ≡ s.readies
unfolding push_switch
push_switch-readies s r = ground arith

pub push_ready-IsGone : (s : Inner) (r : ReadyRec) (t : ℤ) → IsGone s t → IsGone (push_ready s r) t
unfolding push_ready
push_ready-IsGone s r t gone =
    elim (Bool-cases (ltb (max s.ready_cap ready_cap) (length (s.readies ++ r ∷ [])))) [
      | inl full ↦
          rw (full, push_ready)
            (elim gone [
              | inl l ↦ inl (LostBy-max_opt_left s.ring_lost_until _ t l)
              | inr later ↦ inr later
            ])
      | inr room ↦ rw (room, push_ready) gone
    ]

pub push_ready-keeps :
    (s : Inner) (r x : ReadyRec) → Memᴰ x (s.readies ++ r ∷ []) → HasReady x (push_ready s r)
unfolding push_ready
push_ready-keeps s r x m =
    elim (Bool-cases (ltb (max s.ready_cap ready_cap) (length (s.readies ++ r ∷ [])))) [
      | inl full ↦
          rw (full, push_ready)
            (elim (tail-LostBy (λ (y : ReadyRec). y.ts) s.ring_lost_until (s.readies ++ r ∷ []) x
              m) [ inl stays ↦ inl stays | inr l ↦ inr (inl l) ])
      | inr room ↦ rw (room, push_ready) (inl m)
    ]

pub push_ready-switches :
    (s : Inner) (r : ReadyRec)
    → ((push_ready s r).switches ≡ s.switches) × ((push_ready s r).latest_ts ≡ s.latest_ts)
unfolding push_ready
push_ready-switches s r = ground arith

pub push_ready-InStep : (s : Inner) (r : ReadyRec) → InStep s → InStep (push_ready s r)
push_ready-InStep s r i =
    let (same, clock) = push_ready-switches s r in
    record {
      sorted = rw same i.sorted;
      newest = rw (same, clock) i.newest;
      clock = rw clock i.clock;
    }
