-- ===== src/DiskWait.antt =====
-- src/diskwait.rs: did a disk explain a delay, or the delay the disk?
pub mod Explain
use wtfis_stalling.Base.{
  ℕ, ◌+◌, ◌≡◌, refl, Bool, true, false, not, ◌&&◌, ◌||◌, Option, none, some, List, [], ◌∷◌, ◌==◌,
  any, filter, if◌then◌else◌, ◌⊎◌, inl, inr, arith, Bool-cases, Option-cases, Memᴰ, sym, ap, ◌∙◌,
  subst,
}
use wtfis_stalling.Base.Int.{ℤ, pos, ltb_ℤ, leb_ℤ, min_ℤ, max_ℤ, div_i64, ◌+i64◌, ◌-i64◌, ◌≤ℤ◌}
use wtfis_stalling.Util.{ms_to_ticks}
use wtfis_stalling.State.Records.{IoRec, FaultRec}

abbrev trigger_lead_ms : ℕ
trigger_lead_ms = 50

abbrev edge_slack_ms : ℕ
edge_slack_ms = 50

pub data Role : Type 0 where
  trigger victim overlapping : Role

pub record DiskWait : Type 0 where
  pub disk : Option ℕ
  pub waited : ℤ
  pub op : ℕ
  pub own_fault : Bool
  pub role : Role
  pub io_end : ℤ

unfoldable pub overlap : ℤ → ℤ → ℤ → ℤ → ℤ
unfolding min_ℤ max_ℤ
overlap a0 a1 b0 b1 = max_ℤ (min_ℤ a1 b1 -i64 max_ℤ a0 b0) (pos 0)

unfoldable pub role_of : ℕ → ℤ → ℤ → ℤ → ℤ → Role
role_of freq start end io_start io_end =
    let lead = ms_to_ticks freq trigger_lead_ms in
    let slack = ms_to_ticks freq edge_slack_ms in
    if leb_ℤ io_start (start -i64 lead) && leb_ℤ (end -i64 slack) io_end
    then trigger
    else if leb_ℤ (start -i64 lead) io_start && leb_ℤ io_end (end +i64 slack)
    then victim
    else overlapping

abbrev pub is_trigger : Role → Bool
is_trigger trigger = true
is_trigger _ = false

-- When a request began.
abbrev pub io_start : IoRec → ℤ
io_start i = i.end -i64 i.dur

abbrev pub io_role : ℕ → ℤ → ℤ → IoRec → Role
io_role freq start end i = role_of freq start end (io_start i) i.end

-- Half of the delay, which is at least one tick long: `COVER` is 0.5.
unfoldable pub needed : ℤ → ℤ → ℤ
unfolding max_ℤ
needed start end = div_i64 (max_ℤ (end -i64 start) (pos 1)) 2

unfoldable pub covers_io : ℤ → ℤ → IoRec → Bool
unfolding overlap needed
covers_io start end i = leb_ℤ (needed start end) (overlap start end (io_start i) i.end)

unfoldable pub covers_fault : ℤ → ℤ → ℕ → FaultRec → Bool
unfolding overlap needed
covers_fault start end own_pid f =
    f.pid == own_pid && leb_ℤ (needed start end) (overlap start end f.start f.end)

-- `max_by_key`: the last of the greatest, by a test of the order of the keys.
unfoldable pub max_by {ℓ} : {A : Type ℓ} → (A → A → Bool) → List A → Option A
max_by le [] = none
max_by le (x ∷ xs) = elim (max_by le xs) [
  | none ↦ some x
  | some y ↦ if le x y then some y else some x
]

-- The key of a request: is it a trigger, then how long it took.
unfoldable pub io_le : ℕ → ℤ → ℤ → IoRec → IoRec → Bool
io_le freq start end a b =
    let ta = is_trigger (io_role freq start end a) in
    let tb = is_trigger (io_role freq start end b) in
    if ta then tb && leb_ℤ a.dur b.dur else tb || leb_ℤ a.dur b.dur

abbrev pub fault_le : ℤ → ℤ → FaultRec → FaultRec → Bool
fault_le start end a b = leb_ℤ (overlap start end a.start a.end) (overlap start end b.start b.end)

unfoldable pub of_io : ℕ → ℤ → ℤ → Bool → IoRec → DiskWait
of_io freq start end own_fault i = record {
  disk = some i.disk;
  waited = i.dur;
  op = i.op;
  own_fault = own_fault;
  role = io_role freq start end i;
  io_end = i.end;
}

-- `b'R'` is 82.
unfoldable pub of_fault : ℕ → ℤ → ℤ → FaultRec → DiskWait
of_fault freq start end f = record {
  disk = none;
  waited = f.end -i64 f.start;
  op = 82;
  own_fault = true;
  role = role_of freq start end f.start f.end;
  io_end = f.end;
}

abbrev pub explained_fault : ℕ → ℤ → ℤ → Option FaultRec → Option DiskWait
explained_fault freq start end none = none
explained_fault freq start end (some f) = some (of_fault freq start end f)

abbrev pub explained : ℕ → ℤ → ℤ → Option IoRec → Bool → Option FaultRec → Option DiskWait
explained freq start end (some i) own_fault fault = some (of_io freq start end own_fault i)
explained freq start end none true fault = explained_fault freq start end fault
explained freq start end none false fault = none

unfoldable pub explain : ℕ → ℤ → ℤ → List IoRec → List FaultRec → ℕ → Option DiskWait
unfolding covers_io covers_fault io_le
explain freq start end ios faults own_pid =
    explained freq start end (max_by (io_le freq start end) (filter (covers_io start end) ios))
      (any (covers_fault start end own_pid) faults)
      (max_by (fault_le start end) (filter (λ (f : FaultRec). f.pid == own_pid) faults))
