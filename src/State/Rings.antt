-- ===== src/State/Rings.antt =====
-- src/state.rs: the rings of `Inner`, and the part of src/etw/events.rs that moves their clock.
use mathlib.Core.Option
use wtfis_stalling.Base.{
  ℕ, ◌+◌, ◌*◌, Bool, true, false, not, ◌&&◌, Option, none, some, List, [], ◌∷◌, ◌++◌, ltb,
  if◌then◌else◌, u64, length, filter, drop_while, any, head?, tail, min, max, ◌==◌,
}
use wtfis_stalling.Base.Int.{ℤ, ltb_ℤ, leb_ℤ, max_opt, div_i64, ◌+i64◌, ◌-i64◌}
use wtfis_stalling.Util.{ms_to_ticks}
use wtfis_stalling.Cut.{range, window}
use wtfis_stalling.State.Records.{ExecRec, FaultRec, IoRec, SampleRec, SwitchRec, ReadyRec}

abbrev pub switch_keep_ms : ℕ
switch_keep_ms = 6000

abbrev pub switch_cap : ℕ
switch_cap = 300000

abbrev pub ready_cap : ℕ
ready_cap = 300000

abbrev clamp : ℕ → ℕ → ℕ → ℕ
clamp lo hi n = min hi (max lo n)

-- (switch cap, ready cap); `usize` is 64 bits wide.
unfoldable pub switch_caps : ℕ → ℕ × ℕ
switch_caps ncpu =
    (clamp switch_cap 2500000 (u64 (ncpu * 40000)), clamp ready_cap 1500000 (u64 (ncpu * 24000)))

-- The clock, the rings and what is known of their losses.
pub record Inner : Type 0 where
  pub latest_ts : ℤ
  pub last_prune : ℤ
  pub events : ℕ
  pub execs : List ExecRec
  pub faults : List FaultRec
  pub ios : List IoRec
  pub samples : List SampleRec
  pub switches : List SwitchRec
  pub readies : List ReadyRec
  pub switch_events : ℕ
  pub ready_events : ℕ
  pub switches_overflowed : Bool
  pub ring_lost_until : Option ℤ
  pub switch_cap : ℕ
  pub ready_cap : ℕ

unfoldable pub push_switch : Inner → SwitchRec → Inner
push_switch s r =
    let q = s.switches ++ r ∷ [] in
    let counted = u64 (s.switch_events + 1) in
    if ltb (max s.switch_cap switch_cap) (length q)
    then record s {
      switch_events = counted;
      switches = tail q;
      ring_lost_until = max_opt s.ring_lost_until (Option.map (λ (x : SwitchRec). x.ts) (head? q));
      switches_overflowed = true;
    }
    else record s { switch_events = counted; switches = q }

unfoldable pub push_ready : Inner → ReadyRec → Inner
push_ready s r =
    let q = s.readies ++ r ∷ [] in
    let counted = u64 (s.ready_events + 1) in
    if ltb (max s.ready_cap ready_cap) (length q)
    then record s {
      ready_events = counted;
      readies = tail q;
      ring_lost_until = max_opt s.ring_lost_until (Option.map (λ (x : ReadyRec). x.ts) (head? q));
      switches_overflowed = true;
    }
    else record s { ready_events = counted; readies = q }

abbrev pub none_or_before : Option ℤ → ℤ → Bool
none_or_before none from = true
none_or_before (some l) from = ltb_ℤ l from

abbrev pub reaches : List SwitchRec → ℤ → Bool
reaches [] from = false
reaches (r ∷ rs) from = leb_ℤ r.ts from

abbrev pub is_empty : List ReadyRec → Bool
is_empty [] = true
is_empty (r ∷ rs) = false

unfoldable pub switches_cover : Inner → ℤ → Bool
switches_cover s from =
    none_or_before s.ring_lost_until from && reaches s.switches from && not (is_empty s.readies)

-- The two binary searches of the windows; `pps` and `ppr` are `partition_point` on the two rings.
unfoldable pub switch_window :
    ((SwitchRec → Bool) → List SwitchRec → ℕ)
    → ((ReadyRec → Bool) → List ReadyRec → ℕ)
    → ℕ
    → Inner
    → ℤ
    → ℤ
    → List SwitchRec × List ReadyRec
switch_window pps ppr freq s from to =
    let slop = ms_to_ticks freq 1 in
    (
      window (λ (r : SwitchRec). r.ts) pps slop from to s.switches,
      window (λ (r : ReadyRec). r.ts) ppr slop from to s.readies,
    )

-- The records of a ring in `[from, to]`, by binary search alone.
abbrev cut {ℓ} : {A : Type ℓ} → (A → ℤ) → ((A → Bool) → List A → ℕ) → ℤ → ℤ → List A → List A
cut ts pp from to xs = range (pp (λ x. ltb_ℤ (ts x) from) xs) (pp (λ x. leb_ℤ (ts x) to) xs) xs

unfoldable pub stuck_records :
    ((SwitchRec → Bool) → List SwitchRec → ℕ)
    → ((ReadyRec → Bool) → List ReadyRec → ℕ)
    → Inner
    → ℤ
    → ℤ
    → ℤ
    → ℤ
    → Option (List SwitchRec × List ReadyRec)
unfolding switches_cover
stuck_records pps ppr s start end before after =
    let readies = cut (λ (r : ReadyRec). r.ts) ppr (end -i64 before) (end +i64 after) s.readies in
    let switches = cut (λ (r : SwitchRec). r.ts) pps start (end +i64 after) s.switches in
    if not (switches_cover s start)
    then none
    else if ltb_ℤ s.latest_ts (end +i64 after)
    then none
    else some (
      filter (λ (x : SwitchRec). any (λ (r : ReadyRec). r.tid == x.old_tid) readies) switches,
      readies,
    )

unfoldable pub prune : ℕ → Inner → ℤ → Inner
prune freq s keep =
    let cutoff = s.latest_ts -i64 keep in
    let switch_cutoff = s.latest_ts -i64 ms_to_ticks freq switch_keep_ms in
    record s {
      switches = drop_while (λ (r : SwitchRec). ltb_ℤ r.ts switch_cutoff) s.switches;
      readies = drop_while (λ (r : ReadyRec). ltb_ℤ r.ts switch_cutoff) s.readies;
      execs = drop_while (λ (r : ExecRec). ltb_ℤ r.end cutoff) s.execs;
      faults = drop_while (λ (r : FaultRec). ltb_ℤ r.end cutoff) s.faults;
      ios = drop_while (λ (r : IoRec). ltb_ℤ r.end cutoff) s.ios;
      samples = drop_while (λ (r : SampleRec). ltb_ℤ r.ts cutoff) s.samples;
      last_prune = s.latest_ts;
    }

-- What every event of the kernel trace does first; `keep` is `Shared::keep`.
unfoldable pub hear : ℕ → ℤ → Inner → ℤ → Inner
unfolding prune
hear freq keep s ts =
    let s1 = record s { events = u64 (s.events + 1) } in
    let s2 = record s1 { latest_ts = ts } in
    if ltb_ℤ s.latest_ts ts
    then (if ltb_ℤ (div_i64 keep 8) (ts -i64 s.last_prune) then prune freq s2 keep else s2)
    else s1

-- An event of the kernel trace, as far as these two rings go.
pub data Seen : Type 0 where
  switched : SwitchRec → Seen
  readied : ReadyRec → Seen
  other : ℤ → Seen

abbrev pub time_of : Seen → ℤ
time_of (switched r) = r.ts
time_of (readied r) = r.ts
time_of (other ts) = ts

unfoldable pub on_seen : ℕ → ℤ → Inner → Seen → Inner
unfolding hear push_switch push_ready
on_seen freq keep s (switched r) = push_switch (hear freq keep s r.ts) r
on_seen freq keep s (readied r) = push_ready (hear freq keep s r.ts) r
on_seen freq keep s (other ts) = hear freq keep s ts

unfoldable pub watch : ℕ → ℤ → Inner → List Seen → Inner
watch freq keep s [] = s
watch freq keep s (e ∷ es) = watch freq keep (on_seen freq keep s e) es
