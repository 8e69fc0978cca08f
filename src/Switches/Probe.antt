-- ===== src/Switches/Probe.antt =====
-- src/switches.rs: why a measuring thread was late.
use wtfis_stalling.Base.{ℕ, Bool, ◌&&◌, Option, none, some, List, [], ◌∷◌, ◌==◌, if◌then◌else◌}
use wtfis_stalling.Base.Int.{ℤ, pos, ltb_ℤ, leb_ℤ, max_ℤ, div_i64, ◌+i64◌, ◌-i64◌}
use wtfis_stalling.Util.{ms_to_ticks}
use wtfis_stalling.State.Records.{SwitchRec, ReadyRec}
use wtfis_stalling.Switches.Held.{RanInstead, rfind, held_by}

abbrev pub state_waiting : ℤ
state_waiting = pos 5

pub record ProbeWindow : Type 0 where
  pub tid : ℕ
  pub cpu : Option ℕ
  pub start : ℤ
  pub end : ℤ

pub data Why : Type 0 where
  no_length no_wake_up no_records : Why

pub data ProbeOutcome : Type 0 where
  readied_late : ℤ → ProbeOutcome
  ready_not_run : ℤ → RanInstead → ProbeOutcome
  ran_then_blocked : ℤ → ProbeOutcome
  unknown : Why → ProbeOutcome

unfoldable pub on_time_slack : ℕ → ℤ → ℤ
unfolding max_ℤ
on_time_slack freq len = max_ℤ (ms_to_ticks freq 1) (div_i64 len 20)

-- `iter().find(p)`.
unfoldable pub find {ℓ} : {A : Type ℓ} → (A → Bool) → List A → Option A
find p [] = none
find p (x ∷ xs) = if p x then some x else find p xs

-- `==` on the small signed fields.
abbrev pub eq_ℤ : ℤ → ℤ → Bool
eq_ℤ a b = leb_ℤ a b && leb_ℤ b a

-- The switch that finally ran the thread.
unfoldable pub is_run : ProbeWindow → ℤ → SwitchRec → Bool
is_run w slack s =
    s.new_tid == w.tid && ltb_ℤ (w.start -i64 slack) s.ts && leb_ℤ s.ts (w.end +i64 slack)

-- A wake-up of the thread at or after it was due.
unfoldable pub is_wake_up : ProbeWindow → ℤ → ReadyRec → Bool
is_wake_up w slack r =
    r.tid == w.tid && leb_ℤ (w.start -i64 slack) r.ts && leb_ℤ r.ts (w.end +i64 slack)

-- The thread was switched off into a wait after the wake-up.
unfoldable pub is_block : ProbeWindow → ℤ → SwitchRec → Bool
is_block w after s =
    s.old_tid == w.tid && eq_ℤ s.old_state state_waiting && ltb_ℤ after s.ts && ltb_ℤ s.ts w.end

abbrev or_cpu : Option ℕ → Option SwitchRec → Option ℕ
or_cpu (some cpu) ran = some cpu
or_cpu none none = none
or_cpu none (some s) = some s.cpu

abbrev ran_at : ProbeWindow → Option SwitchRec → ℤ
ran_at w none = w.end
ran_at w (some s) = s.ts

abbrev held_on : List SwitchRec → Option ℕ → ℤ → ℤ → ℕ → RanInstead
held_on sw none from to tid = RanInstead.unknown
held_on sw (some cpu) from to tid = held_by sw cpu from to tid

unfoldable pub not_run : List SwitchRec → ProbeWindow → Option SwitchRec → ℤ → ProbeOutcome
not_run sw w ran ready =
    ready_not_run (max_ℤ (ran_at w ran -i64 ready) (pos 0))
      (held_on sw (or_cpu w.cpu ran) ready (ran_at w ran) w.tid)

abbrev on_time :
    List SwitchRec → ProbeWindow → Option SwitchRec → ℤ → Option SwitchRec → ProbeOutcome
on_time sw w ran ready (some off) = ran_then_blocked off.old_wait_reason
on_time sw w ran ready none = not_run sw w ran ready

abbrev no_ready : Option SwitchRec → ProbeOutcome
no_ready (some s) = unknown no_wake_up
no_ready none = unknown no_records

abbrev with_ready :
    List SwitchRec → ProbeWindow → ℤ → Option SwitchRec → Option ReadyRec → ProbeOutcome
with_ready sw w slack ran none = no_ready ran
with_ready sw w slack ran (some ready) =
    if ltb_ℤ (w.start +i64 slack) ready.ts
    then readied_late (ready.ts -i64 w.start)
    else on_time sw w ran ready.ts (rfind (is_block w ready.ts) sw)

unfoldable pub classify_probe : ℕ → List SwitchRec → List ReadyRec → ProbeWindow → ProbeOutcome
unfolding not_run
classify_probe freq sw rd w =
    let slack = on_time_slack freq (w.end -i64 w.start) in
    if leb_ℤ w.end w.start
    then unknown no_length
    else with_ready sw w slack (rfind (is_run w slack) sw) (find (is_wake_up w slack) rd)
