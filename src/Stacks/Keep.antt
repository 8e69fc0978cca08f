-- ===== src/Stacks/Keep.antt =====
-- src/stacks.rs: `StackState`, what the trace's callback keeps about stacks.
use wtfis_stalling.Base.{ℕ, ◌+◌, ◌*◌, Bool, List, ltb, ◌==◌, u64, of_bool, length, min, max}
use wtfis_stalling.Base.Int.{ℤ}
use wtfis_stalling.Base.Assoc.{nat_eq}
use wtfis_stalling.Stacks.Set.{Kind, c_switch, ready, disk_init, fault}
use wtfis_stalling.Stacks.Walk.{RawStack}

pub record Stack : Type 0 where
  pub pid : ℕ
  pub frames : List ℕ
  pub user : Bool

unfoldable pub from_raw : RawStack → Stack
from_raw r = record { pid = r.pid; frames = r.kernel; user = ltb 0 r.user_frames }

pub record SwitchInStack : Type 0 where
  pub ts : ℤ
  pub tid : ℕ
  pub since : ℤ
  pub stack : Stack

pub record FaultStack : Type 0 where
  pub start : ℤ
  pub end : ℤ
  pub tid : ℕ
  pub stack : Stack

pub record ReadyStack : Type 0 where
  pub ts : ℤ
  pub tid : ℕ
  pub since : ℤ
  pub stack : Stack

pub data IoStack : Type 0 where
  found : Stack → IoStack
  no_stack no_init : IoStack

pub data Want : Type 0 where
  ignore : Want
  disk_init_of : ℕ → Want
  fault_of : ℤ → ℕ → Want
  switch_in readied : ℕ → ℤ → Want

pub record Pending : Type 0 where
  pub ts : ℤ
  pub header_tid : ℕ
  pub payload_tid : ℕ
  pub kind : Kind
  pub want : Want

abbrev pub pending_per_cpu : ℕ
pending_per_cpu = 4

pub record KindCount : Type 0 where
  pub stacks : ℕ
  pub bytes : ℕ
  pub frames : ℕ
  pub kernel_frames : ℕ
  pub max_frames : ℕ
  pub by_header_tid : ℕ
  pub by_payload_tid : ℕ
  pub kept : ℕ
  pub empty : ℕ

abbrev pub no_count : KindCount
no_count = record {
  stacks = 0;
  bytes = 0;
  frames = 0;
  kernel_frames = 0;
  max_frames = 0;
  by_header_tid = 0;
  by_payload_tid = 0;
  kept = 0;
  empty = 0;
}

unfoldable pub add : KindCount → RawStack → ℕ → KindCount
add c r bytes = record c {
  stacks = u64 (c.stacks + 1);
  bytes = u64 (c.bytes + bytes);
  frames = u64 (c.frames + r.frames);
  kernel_frames = u64 (c.kernel_frames + length r.kernel);
  max_frames = max c.max_frames r.frames;
  empty = u64 (c.empty + of_bool (length r.kernel == 0));
}

-- `[KindCount; 4]`, by the kinds' names.
pub record PerKind : Type 0 where
  pub of_c_switch : KindCount
  pub of_ready : KindCount
  pub of_disk_init : KindCount
  pub of_fault : KindCount

-- A change to the entry of one kind.
unfoldable pub modify : Kind → (KindCount → KindCount) → PerKind → PerKind
modify c_switch f k = record k { of_c_switch = f k.of_c_switch }
modify ready f k = record k { of_ready = f k.of_ready }
modify disk_init f k = record k { of_disk_init = f k.of_disk_init }
modify fault f k = record k { of_fault = f k.of_fault }

pub record Counts : Type 0 where
  pub kinds : PerKind
  pub unmatched : KindCount
  pub other_cpu : ℕ
  pub overwritten : ℕ
  pub ragged : ℕ
  pub io_with_init : ℕ
  pub io_without_init : ℕ
  pub slow_found : ℕ
  pub slow_no_stack : ℕ
  pub slow_no_init : ℕ
  pub init_dropped : ℕ

unfoldable pub sum_kinds : (KindCount → ℕ) → PerKind → ℕ
sum_kinds w k = u64 (w k.of_c_switch + w k.of_ready + w k.of_disk_init + w k.of_fault)

unfoldable pub total : Counts → ℕ
unfolding sum_kinds
total c = u64 (sum_kinds (λ k. k.stacks) c.kinds + c.unmatched.stacks)

unfoldable pub total_bytes : Counts → ℕ
unfolding sum_kinds
total_bytes c = u64 (sum_kinds (λ k. k.bytes) c.kinds + c.unmatched.bytes)

abbrev pub io_init_cap : ℕ
io_init_cap = 65536

abbrev pub slow_io_cap : ℕ
slow_io_cap = 4096

abbrev pub fault_cap : ℕ
fault_cap = 8192

-- (switch-in cap, ready cap); `usize` is 64 bits wide.
unfoldable pub stack_caps : ℕ → ℕ × ℕ
stack_caps ncpu = let n = min 100000 (max 20000 (u64 (ncpu * 1000))) in (n, n)

-- `STUCK_MIN_MS` of src/diskstuck.rs.
abbrev pub keep_wait_ms : ℕ
keep_wait_ms = 10
