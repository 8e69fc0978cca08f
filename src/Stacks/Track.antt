-- ===== src/Stacks/Track.antt =====
-- src/stacks.rs: `StackState`. A processor's number indexes `per_cpu`; the maps are association lists.
pub mod Few
pub mod Found
pub mod Lengths
use wtfis_stalling.Base.{
  ℕ, zero, suc, ◌+◌, ◌-◌, ◌*◌, Bool, true, false, not, ◌&&◌, ◌||◌, Option, none, some, List, [],
  ◌∷◌, ◌++◌, ltb, leb, ◌==◌, if◌then◌else◌, u64, of_bool, length, filter, drop_while, any, head?,
  tail, min, max, get_elem?, set, replicate,
}
use wtfis_stalling.Base.Int.{ℤ, pos, ltb_ℤ, leb_ℤ, max_opt, ◌-i64◌}
use wtfis_stalling.Base.Assoc.{nat_eq, lookup, remove, upsert}
use wtfis_stalling.Util.{ms_to_ticks}
use wtfis_stalling.State.Records.{SwitchRec}
use wtfis_stalling.Switches.Reasons.{disk_wait, lock_wait}
use wtfis_stalling.Switches.Probe.{state_waiting, eq_ℤ}
use wtfis_stalling.Stacks.Set.{Kind, StackSet, c_switch, ready, disk_init, fault, has, index}
use wtfis_stalling.Stacks.Walk.{RawStack}
use wtfis_stalling.Stacks.Keep.{
  Stack, from_raw, SwitchInStack, FaultStack, ReadyStack, IoStack, found, no_stack, no_init, Want,
  ignore, disk_init_of, fault_of, switch_in, readied, Pending, pending_per_cpu, KindCount, no_count,
  stack_caps, Counts, add, modify, io_init_cap, slow_io_cap, fault_cap, keep_wait_ms,
}

pub record StackState : Type 0 where
  pub set : StackSet
  pub enable_error : Option ℕ
  pub switch_cap : ℕ
  pub ready_cap : ℕ
  pub per_cpu : List (List Pending)
  pub io_init : List (ℕ × (ℤ × Option Stack))
  pub slow_io : List (ℤ × (ℕ × IoStack))
  pub faults : List FaultStack
  pub switch_ins : List SwitchInStack
  pub readies : List ReadyStack
  pub off_at : List (ℕ × (ℤ × ℤ))
  -- `lost_until`, one for each of the four rings.
  pub lost_slow_io : Option ℤ
  pub lost_faults : Option ℤ
  pub lost_switch_ins : Option ℤ
  pub lost_readies : Option ℤ
  pub counts : Counts
  pub samples : List (Kind × (List ℕ × ℕ))

abbrev no_counts : Counts
no_counts = record {
  kinds = record {
    of_c_switch = no_count;
    of_ready = no_count;
    of_disk_init = no_count;
    of_fault = no_count;
  };
  unmatched = no_count;
  other_cpu = 0;
  overwritten = 0;
  ragged = 0;
  io_with_init = 0;
  io_without_init = 0;
  slow_found = 0;
  slow_no_stack = 0;
  slow_no_init = 0;
  init_dropped = 0;
}

unfoldable pub new : StackSet → ℕ → StackState
unfolding stack_caps
new set ncpu = record {
  set = set;
  enable_error = none;
  switch_cap = (stack_caps ncpu).0;
  ready_cap = (stack_caps ncpu).1;
  per_cpu = [];
  io_init = [];
  slow_io = [];
  faults = [];
  switch_ins = [];
  readies = [];
  off_at = [];
  lost_slow_io = none;
  lost_faults = none;
  lost_switch_ins = none;
  lost_readies = none;
  counts = no_counts;
  samples = [];
}

-- The loop of `push_capped` on a queue and what it lost so far.
unfoldable pub shrink {ℓ} : {A : Type ℓ} → ℕ → (A → ℤ) → List A → Option ℤ → List A × Option ℤ
shrink cap ts [] lost = ([], lost)
shrink cap ts (x ∷ q) lost =
    let rest = shrink cap ts q (max_opt lost (some (ts x))) in
    if ltb (max cap 1) (length (x ∷ q)) then rest else (x ∷ q, lost)

unfoldable pub push_capped {ℓ} :
    {A : Type ℓ} → List A → A → ℕ → (A → ℤ) → Option ℤ → List A × Option ℤ
unfolding shrink
push_capped q item cap ts lost = shrink cap ts (q ++ item ∷ []) lost

unfoldable pub worth : ℤ → Bool
unfolding disk_wait lock_wait
worth reason = disk_wait reason || lock_wait reason

-- `resize_with(cpu + 1, VecDeque::new)` where the list is not that long yet.
abbrev pub grow : List (List Pending) → ℕ → List (List Pending)
grow per_cpu n = per_cpu ++ replicate (n - length per_cpu) []

abbrev pub slots_of : List (List Pending) → ℕ → List Pending
slots_of per_cpu cpu = elim (get_elem? per_cpu cpu) [ none ↦ [] | some slots ↦ slots ]

abbrev pub is_ignored : Want → Bool
is_ignored ignore = true
is_ignored _ = false

abbrev pub count_overwritten : Option Pending → Counts → Counts
count_overwritten none c = c
count_overwritten (some old) c =
    if is_ignored old.want then c else record c { overwritten = u64 (c.overwritten + 1) }

unfoldable pub pend : StackState → ℕ → Pending → StackState
pend s cpu p =
    let all = grow s.per_cpu (cpu + 1) in
    let slots = slots_of all cpu ++ p ∷ [] in
    if ltb pending_per_cpu (length slots)
    then record s {
      per_cpu = set all cpu (tail slots);
      counts = count_overwritten (head? slots) s.counts;
    }
    else record s { per_cpu = set all cpu slots }

unfoldable pub hit : ℤ → ℕ → Pending → Bool
hit ts tid p = eq_ℤ p.ts ts && (p.header_tid == tid || p.payload_tid == tid && not (tid == 0))

-- `position(hit)` and `remove(i)`.
unfoldable pub take_first : (Pending → Bool) → List Pending → Option (Pending × List Pending)
take_first h [] = none
take_first h (p ∷ slots) =
    let rest = take_first h slots in
    if h p then some (p, slots) else elim rest [ none ↦ none | some (q, left) ↦ some (q, p ∷ left) ]

-- The loop over all processors.
unfoldable pub take_any :
    (Pending → Bool) → List (List Pending) → Option (Pending × List (List Pending))
unfolding take_first
take_any h [] = none
take_any h (slots ∷ all) =
    let rest = take_any h all in
    elim (take_first h slots) [
      | some (p, left) ↦ some (p, left ∷ all)
      | none ↦ elim rest [ none ↦ none | some (p, others) ↦ some (p, slots ∷ others) ]
    ]

-- The pending event that a stack belongs to, the slots without it, and whether it was found on
-- another processor.
unfoldable pub take :
    List (List Pending) → ℕ → ℤ → ℕ → Option (Pending × (List (List Pending) × Bool))
unfolding take_first take_any hit
take per_cpu cpu ts tid = elim (take_first (hit ts tid) (slots_of per_cpu cpu)) [
  | some (p, left) ↦ some (p, (set per_cpu cpu left, false))
  | none ↦ elim (take_any (hit ts tid) per_cpu) [
    | none ↦ none
    | some (p, left) ↦ some (p, (left, true))
  ]
]
