-- ===== src/State/Records.antt =====
-- src/state.rs: the records of the kernel trace.
use Prim.Native.Nat.{bit_and}
use wtfis_stalling.Base.{ℕ, Bool, not, ◌&&◌, ◌||◌, Option, none, some, ◌==◌, if◌then◌else◌}
use wtfis_stalling.Base.Int.{ℤ}

abbrev pub kind_isr : ℕ
kind_isr = 3

abbrev pub kind_isr_msi : ℕ
kind_isr_msi = 4

unfoldable pub is_isr : ℕ → Bool
is_isr k = k == kind_isr || k == kind_isr_msi

pub record ExecRec : Type 0 where
  pub cpu : ℕ
  pub kind : ℕ
  pub start : ℤ
  pub end : ℤ
  pub routine : ℕ

pub record FaultRec : Type 0 where
  pub start : ℤ
  pub end : ℤ
  pub tid : ℕ
  pub pid : ℕ
  pub bytes : ℕ
  pub file : ℕ

pub record IoRec : Type 0 where
  pub end : ℤ
  pub dur : ℤ
  pub file : ℕ
  pub irp : ℕ
  pub offset : ℤ
  pub disk : ℕ
  pub tid : ℕ
  pub pid : ℕ
  pub size : ℕ
  pub irp_flags : ℕ
  pub op : ℕ

pub record SampleRec : Type 0 where
  pub ts : ℤ
  pub cpu : ℕ
  pub tid : ℕ
  pub ip : ℕ

-- The `i8` fields of a switch record are small numbers, kept as they are read.
pub record SwitchRec : Type 0 where
  pub ts : ℤ
  pub new_tid : ℕ
  pub old_tid : ℕ
  pub cpu : ℕ
  pub new_prio : ℤ
  pub old_prio : ℤ
  pub old_wait_reason : ℤ
  pub old_wait_mode : ℤ
  pub old_state : ℤ

pub record ReadyRec : Type 0 where
  pub ts : ℤ
  pub tid : ℕ
  pub by_tid : ℕ
  pub cpu : ℕ
  pub flag : ℕ

abbrev pub ready_from_dpc : ℕ
ready_from_dpc = 1

-- `flag` is the byte of the `i8`, whose bit 0 is the one that is read.
unfoldable pub waker : ReadyRec → Option ℕ
waker r =
    if bit_and r.flag ready_from_dpc == 0 && not (r.by_tid == 0) && not (r.by_tid == r.tid)
    then some r.by_tid
    else none
