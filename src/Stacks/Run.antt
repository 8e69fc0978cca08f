-- ===== src/Stacks/Run.antt =====
-- A session as the stacks see it: the events that change `StackState`, one after the other.
pub mod Counting
pub mod Bounded
pub mod Issued
use wtfis_stalling.Base.{ℕ, suc, Bool, List, [], ◌∷◌}
use wtfis_stalling.Base.Int.{ℤ}
use wtfis_stalling.State.Records.{SwitchRec}
use wtfis_stalling.Stacks.Walk.{RawStack}
use wtfis_stalling.Stacks.Track.{StackState}
use wtfis_stalling.Stacks.Events.{
  on_disk_init, on_disk_done, on_fault, on_switch, on_ready, on_stack, prune,
}

pub data Event : Type 0 where
  began : ℤ → ℕ → ℕ → ℕ → ℕ → Event
  done : ℤ → ℕ → Bool → Event
  faulted : ℤ → ℕ → ℕ → ℤ → ℕ → Event
  switched : ℤ → ℕ → ℕ → SwitchRec → Event
  woken : ℤ → ℕ → ℕ → ℕ → Event
  stacked : ℕ → RawStack → ℕ → Event
  pruned : ℤ → ℤ → ℤ → Event

unfoldable pub on_event : ℕ → StackState → Event → StackState
on_event freq s (began ts cpu header_tid irp issuer) = on_disk_init s ts cpu header_tid irp issuer
on_event freq s (done end irp slow) = on_disk_done s end irp slow
on_event freq s (faulted ts cpu header_tid start tid) = on_fault freq s ts cpu header_tid start tid
on_event freq s (switched ts cpu header_tid sw) = on_switch freq s ts cpu header_tid sw
on_event freq s (woken ts cpu header_tid tid) = on_ready freq s ts cpu header_tid tid
on_event freq s (stacked cpu raw bytes) = on_stack s cpu raw bytes
on_event freq s (pruned latest keep switch_keep) = prune s latest keep switch_keep

unfoldable pub run : ℕ → StackState → List Event → StackState
unfolding on_event
run freq s [] = s
run freq s (e ∷ es) = run freq (on_event freq s e) es
