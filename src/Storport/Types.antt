-- ===== src/Storport/Types.antt =====
-- src/storport/mod.rs: the records of the storage trace, and what one record says by itself.
use Prim.Native.Nat.{bit_and}
use wtfis_stalling.Base.{ℕ, ◌≡◌, ◌↔◌, Bool, true, not, ◌&&◌, ◌||◌, Option, none, some, arith, ◌==◌}
use wtfis_stalling.Base.Int.{ℤ, ◌-i64◌}
use wtfis_stalling.Base.Assoc.{Eq}

abbrev pub srb_status_success : ℕ
srb_status_success = 0x01

abbrev pub scsistat_good : ℕ
scsistat_good = 0x00

-- The mask `!SRB_STATUS_FLAGS` of a byte: all bits but 0x80 and 0x40.
abbrev pub not_srb_status_flags : ℕ
not_srb_status_flags = 0x3f

unfoldable pub failed : ℕ → ℕ → Bool
failed srb scsi =
    not (bit_and srb not_srb_status_flags == srb_status_success) || not (scsi == scsistat_good)

unfoldable pub is_data_command : ℕ → Bool
is_data_command cmd =
    cmd == 0x08
    || cmd == 0x0a
    || cmd == 0x28
    || cmd == 0x2a
    || cmd == 0x35
    || cmd == 0x88
    || cmd == 0x8a

pub record ScsiAddr : Type 0 where
  pub port : ℕ
  pub bus : ℕ
  pub target : ℕ
  pub lun : ℕ

unfoldable pub addr_beq : ScsiAddr → ScsiAddr → Bool
addr_beq a b = a.port == b.port && a.bus == b.bus && a.target == b.target && a.lun == b.lun

pub addr_beq_iff : (a b : ScsiAddr) → (addr_beq a b ≡ true) ↔ (a ≡ b)
unfolding addr_beq
addr_beq_iff a b = ground arith

instance abbrev pub addr_eq : Eq ScsiAddr
addr_eq = record { beq = addr_beq; beq_iff = addr_beq_iff }

pub record ReqRec : Type 0 where
  pub ts : ℤ
  pub dur : ℤ
  pub irp : ℕ
  pub orig : ℕ
  pub bytes : ℕ
  pub addr : ScsiAddr
  pub srb : ℕ
  pub scsi : ℕ
  pub cmd : ℕ
  pub retries : ℕ

unfoldable pub start : ReqRec → ℤ
start r = r.ts -i64 r.dur

unfoldable pub req_failed : ReqRec → Bool
unfolding is_data_command failed
req_failed r = is_data_command r.cmd && failed r.srb r.scsi

pub data ResetKind : Type 0 where
  logical_unit target detected : ResetKind

pub record ResetRec : Type 0 where
  pub ts : ℤ
  pub kind : ResetKind
  pub port : ℕ
  pub bus : Option ℕ
  pub target : Option ℕ
  pub lun : Option ℕ

-- `Option::is_none_or(|x| x == y)`.
abbrev none_or : Option ℕ → ℕ → Bool
none_or none y = true
none_or (some x) y = x == y

unfoldable pub hits : ResetRec → ScsiAddr → Bool
hits r a =
    r.port == a.port && none_or r.bus a.bus && none_or r.target a.target && none_or r.lun a.lun

pub record AddrTotals : Type 0 where
  pub requests : ℕ
  pub failed : ℕ
  pub retried : ℕ
  pub retries : ℕ

abbrev pub no_totals : AddrTotals
no_totals = record { requests = 0; failed = 0; retried = 0; retries = 0 }
