-- ===== src/Stacks/Pick.antt =====
-- src/stacks.rs: which stack says where a thread waited, and the drivers on it.
use Prim.Native.String.{String}
use text.Mathlib.Text.{◌==◌ as str_eq, starts_with}
use mathlib.Core.Option
use wtfis_stalling.Base.{
  ℕ, Bool, not, ◌&&◌, ◌||◌, Option, none, some, List, [], ◌∷◌, ◌==◌, if◌then◌else◌, filter, any,
  head?,
}
use wtfis_stalling.Base.Int.{ℤ, pos, ltb_ℤ, leb_ℤ, ◌-i64◌, ◌+i64◌}
use wtfis_stalling.Util.{ms_to_ticks}
use wtfis_stalling.Switches.Probe.{eq_ℤ}
use wtfis_stalling.Stacks.Set.{c_switch, has, join, to_ascii_lowercase}
use wtfis_stalling.Stacks.Keep.{Stack, SwitchInStack, FaultStack, IoStack}
use wtfis_stalling.Stacks.Track.{StackState}
use wtfis_stalling.Storport.Ring.{none_or_before}

abbrev pub last {ℓ} : {A : Type ℓ} → List A → Option A
last [] = none
last (x ∷ xs) = elim (last xs) [ none ↦ some x | some y ↦ some y ]

-- `iter().rev().find(p)`: the last that passes.
unfoldable pub slow_io_stack : StackState → ℤ → ℕ → Option IoStack
slow_io_stack s end irp =
    Option.map (λ (r : ℤ × (ℕ × IoStack)). r.1.1)
      (last (filter (λ r. eq_ℤ r.0 end && r.1.0 == irp) s.slow_io))

abbrev within : ℤ → ℤ → ℤ → Bool
within from to ts = leb_ℤ from ts && leb_ℤ ts to

unfoldable pub wait_stacks : StackState → List ℕ → ℤ → ℤ → List SwitchInStack × List FaultStack
wait_stacks s tids from to = (
  filter (λ x. within from to x.ts && any (λ t. t == x.tid) tids) s.switch_ins,
  filter (λ x. within from to x.end && any (λ t. t == x.tid) tids) s.faults,
)

unfoldable pub switch_ins_cover : StackState → ℤ → Bool
switch_ins_cover s since = has s.set c_switch && none_or_before s.lost_switch_ins since

pub data WaitSource : Type 0 where
  from_switch_in from_fault : WaitSource

abbrev pub fault_late_ms : ℕ
fault_late_ms = 50

unfoldable pub is_that_wait : ℕ → ℤ → ℤ → SwitchInStack → Bool
is_that_wait tid off_ts woke_at s = s.tid == tid && eq_ℤ s.since off_ts && leb_ℤ woke_at s.ts

unfoldable pub spans_wait : ℕ → ℕ → ℤ → ℤ → FaultStack → Bool
spans_wait freq tid off_ts woke_at f =
    let slack = ms_to_ticks freq 1 in
    let late = ms_to_ticks freq fault_late_ms in
    f.tid == tid
    && leb_ℤ f.start (off_ts +i64 slack)
    && leb_ℤ (woke_at -i64 slack) f.end
    && leb_ℤ f.end (woke_at +i64 late)

abbrev abs_i64 : ℤ → ℤ
abs_i64 z = if ltb_ℤ z (pos 0) then pos 0 -i64 z else z

-- `(f.end - woke_at).abs()`.
unfoldable pub distance : ℤ → FaultStack → ℤ
distance woke_at f = abs_i64 (f.end -i64 woke_at)

-- `min_by_key`: the first of the least.
unfoldable pub min_by {ℓ} : {A : Type ℓ} → (A → ℤ) → List A → Option A
min_by key [] = none
min_by key (x ∷ xs) = elim (min_by key xs) [
  | none ↦ some x
  | some y ↦ if leb_ℤ (key x) (key y) then some x else some y
]

abbrev or_fault : Option SwitchInStack → Option FaultStack → Option (Stack × WaitSource)
or_fault (some s) f = some (s.stack, from_switch_in)
or_fault none (some f) = some (f.stack, from_fault)
or_fault none none = none

unfoldable pub wait_stack :
    ℕ → ℕ → ℤ → ℤ → List SwitchInStack → List FaultStack → Option (Stack × WaitSource)
unfolding is_that_wait spans_wait distance min_by
wait_stack freq tid off_ts woke_at switch_ins faults =
    or_fault (head? (filter (is_that_wait tid off_ts woke_at) switch_ins))
      (min_by (distance woke_at) (filter (spans_wait freq tid off_ts woke_at) faults))

unfoldable pub is_kernel_core : String → Bool
unfolding to_ascii_lowercase
is_kernel_core name =
    let l = to_ascii_lowercase name in
    starts_with l "ntoskrnl"
    || starts_with l "ntkrnl"
    || starts_with l "ntkrpamp"
    || str_eq l "hal.dll"

abbrev reverse_onto {ℓ} : {A : Type ℓ} → List A → List A → List A
reverse_onto [] acc = acc
reverse_onto (x ∷ xs) acc = reverse_onto xs (x ∷ acc)

abbrev filter_map {ℓ κ} : {A : Type ℓ} {B : Type κ} → (A → Option B) → List A → List B
filter_map f [] = []
filter_map f (x ∷ xs) = elim (f x) [ none ↦ filter_map f xs | some y ↦ y ∷ filter_map f xs ]

unfoldable pub same_name : String → String → Bool
unfolding to_ascii_lowercase
same_name a b = str_eq (to_ascii_lowercase a) (to_ascii_lowercase b)

-- `dedup_by`: a name that equals the one kept before it goes.
unfoldable pub dedup_from : String → List String → List String
unfolding same_name
dedup_from prev [] = []
dedup_from prev (n ∷ ns) =
    let skipped = dedup_from prev ns in
    let kept = dedup_from n ns in if same_name n prev then skipped else n ∷ kept

unfoldable pub dedup : List String → List String
unfolding dedup_from
dedup [] = []
dedup (n ∷ ns) = n ∷ dedup_from n ns

-- `resolve` finds the module of an address among the loaded ones.
unfoldable pub module_path : List ℕ → (ℕ → Option String) → List String
unfolding dedup is_kernel_core
module_path frames resolve =
    dedup (filter (λ n. not (is_kernel_core n)) (filter_map resolve (reverse_onto frames [])))

abbrev kernel_only : List String → List String
kernel_only [] = "the Windows kernel only" ∷ []
kernel_only (m ∷ ms) = m ∷ ms

abbrev program_first : Option String → List String → List String
program_first none parts = parts
program_first (some p) parts = p ∷ parts

unfoldable pub path_text : Option String → List String → String
unfolding join
path_text program modules = join " -> " (program_first program (kernel_only modules))

unfoldable pub waited_in : List String → String
waited_in modules = elim (last modules) [ none ↦ "the Windows kernel" | some m ↦ m ]
