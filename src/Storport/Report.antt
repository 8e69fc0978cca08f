-- ===== src/Storport/Report.antt =====
-- src/storport/mod.rs: the window of the ring, and what the trace hands to the summary.
use Prim.Native.String.{String}
use wtfis_stalling.Base.{
  ℕ, ◌+◌, Bool, true, false, ◌&&◌, ◌||◌, Option, none, some, List, ltb, leb, ◌==◌, if◌then◌else◌,
  u64, filter,
}
use wtfis_stalling.Base.Int.{ℤ, leb_ℤ}
use wtfis_stalling.Base.Assoc.{lookup, or_default, sum_values}
use wtfis_stalling.Base.Sort.{sort}
use wtfis_stalling.Util.{ms_to_ticks}
use wtfis_stalling.Cut.{window}
use wtfis_stalling.Storport.Types.{ScsiAddr, ReqRec, ResetRec, AddrTotals, no_totals, hits, addr_eq}
use wtfis_stalling.Storport.Ring.{StorInner, RetryBy}

-- `pp` is the standard library's `partition_point` on the ring, of which nothing is known but what
-- is documented: in a partitioned list it finds the partition point.
unfoldable pub req_window :
    ((ReqRec → Bool) → List ReqRec → ℕ) → ℕ → StorInner → ℤ → ℤ → List ReqRec
req_window pp freq s from to = window (λ r. r.ts) pp (ms_to_ticks freq 1) from to s.reqs

pub record StorageReport : Type 0 where
  pub available : Bool
  pub events : ℕ
  pub lost : ℕ
  pub note : Option String
  pub resets : List ResetRec
  pub per_addr : List (ScsiAddr × AddrTotals)
  pub retry_by : RetryBy
  pub debug_counts : List ((ℕ × ℕ) × ℕ)
  pub debug_unknown : List ((ℕ × ℕ) × ℕ)
  pub debug_status : List ((ℕ × ℕ) × ℕ)
  pub debug_commands : List (ℕ × ℕ)

-- The derived order of an address: port, bus, target, unit.
unfoldable pub addr_le : ScsiAddr → ScsiAddr → Bool
addr_le a b =
    ltb a.port b.port
    || a.port == b.port
      && (ltb a.bus b.bus
          || a.bus == b.bus && (ltb a.target b.target || a.target == b.target && leb a.lun b.lun))

abbrev pair_le : ℕ × ℕ → ℕ × ℕ → Bool
pair_le a b = ltb a.0 b.0 || a.0 == b.0 && leb a.1 b.1

-- `sorted`: the entries of a map by their keys.
unfoldable pub sorted {ℓ κ} :
    {K : Type ℓ} {V : Type κ} → (K → K → Bool) → List (K × V) → List (K × V)
sorted le = sort (λ a b. le a.0 b.0)

-- Retries still waiting for their request count as never attached.
unfoldable pub report : StorInner → StorageReport
unfolding sorted addr_le
report s = record {
  available = true;
  events = s.events;
  lost = 0;
  note = none;
  resets = s.resets;
  per_addr = sorted addr_le s.per_addr;
  retry_by = record s.retry_by {
    never = u64 (s.retry_by.never + u64 (sum_values (λ e. e.1) s.pending));
  };
  debug_counts = sorted pair_le s.debug_counts;
  debug_unknown = sorted pair_le s.debug_unknown;
  debug_status = sorted pair_le s.debug_status;
  debug_commands = sorted leb s.debug_commands;
}

unfoldable pub totals : StorageReport → ScsiAddr → AddrTotals
totals r a = or_default no_totals (lookup a r.per_addr)

abbrev pub reset_le : ResetRec → ResetRec → Bool
reset_le x y = leb_ℤ x.ts y.ts

unfoldable pub resets_of : StorageReport → ScsiAddr → List ResetRec
resets_of r a = sort reset_le (filter (λ x. hits x a) r.resets)

abbrev by_address : StorageReport → Option ScsiAddr → ℕ → Option Bool
by_address r (some a) unmatched = some (ltb 0 (totals r a).requests)
by_address r none unmatched = if ltb 0 unmatched then some false else none

unfoldable pub on_storport : StorageReport → Option ScsiAddr → ℕ → ℕ → Option Bool
on_storport r a matched unmatched =
    if r.available then (if ltb 0 matched then some true else by_address r a unmatched) else none
