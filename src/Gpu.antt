-- ===== src/Gpu.antt =====
-- src/gputrace/mod.rs: `GpuInner`, the state of the graphics kernel's trace, and what is read from it.
pub mod Cadence
pub mod Window
pub mod Events
pub mod Refresh
use wtfis_stalling.Base.{
  ℕ, ◌+◌, ◌*◌, ◌/◌, Bool, true, false, not, ◌&&◌, Option, none, some, List, [], ◌∷◌, ◌++◌, ltb, leb,
  if◌then◌else◌, length, filter, drop_while, head?, tail, min, max, u64, of_bool,
}
use wtfis_stalling.Base.Int.{ℤ, pos, ltb_ℤ, leb_ℤ, max_opt, ◌+i64◌, ◌-i64◌, div_i64}
use wtfis_stalling.Util.{ms_to_ticks}
use mathlib.Core.Option

abbrev pub gpu_keep_ms : ℕ
gpu_keep_ms = 10000

pub record PresentRec : Type 0 where
  pub ts : ℤ
  pub pid : ℕ
  pub source : ℕ

pub record ResidentRec : Type 0 where
  pub ts : ℤ
  pub dur : ℤ
  pub trim : ℕ
  pub pid : ℕ
  pub failed : Bool

-- `residency_ms` is a sum of milliseconds in doubles; here it is the exact sum of ticks.
pub record GpuTraceTotals : Type 0 where
  pub available : Bool
  pub events : ℕ
  pub refresh_ticks : ℕ
  pub presents : ℕ
  pub residency_ops : ℕ
  pub residency_ms : ℤ
  pub trim_events : ℕ
  pub trim_max_bytes : ℕ
  pub residency_failed : ℕ

pub record GpuInner : Type 0 where
  pub events : ℕ
  pub latest_ts : ℤ
  pub last_prune : ℤ
  pub refresh : List ℤ
  pub presents : List PresentRec
  pub residency : List ResidentRec
  pub refresh_lost_until : Option ℤ
  pub present_lost_until : Option ℤ
  pub residency_lost_until : Option ℤ
  pub refresh_cap : ℕ
  pub present_cap : ℕ
  pub residency_cap : ℕ
  pub totals : GpuTraceTotals
  pub starts : List (ℕ × (ℤ × ℕ))
  pub debug_counts : List ((ℕ × ℕ) × ℕ)
  pub debug_unknown : List ((ℕ × ℕ) × ℕ)

-- (refresh cap, present cap, residency cap): ten seconds of history; `usize` is 64 bits wide.
unfoldable pub caps : ℕ → ℕ × ℕ × ℕ
caps refresh_hz = (
  min (u64 (max (u64 (refresh_hz * 3)) 500 * 10)) 500000,
  min (8000 * 10) 600000,
  min (4000 * 10) 300000,
)

abbrev pub last {ℓ} : {A : Type ℓ} → List A → Option A
last [] = none
last (x ∷ []) = some x
last (x ∷ y ∷ ys) = last (y ∷ ys)

-- `ms_to_ticks(0.5)`.
unfoldable pub half_ms : ℕ → ℤ
half_ms freq = pos (min (freq / 2000) 9223372036854775807)

unfoldable pub push_refresh : GpuInner → ℤ → GpuInner
push_refresh s ts =
    let q = s.refresh ++ ts ∷ [] in
    let totals = record s.totals { refresh_ticks = u64 (s.totals.refresh_ticks + 1) } in
    if ltb s.refresh_cap (length q)
    then record s {
      totals = totals;
      refresh = tail q;
      refresh_lost_until = max_opt s.refresh_lost_until (head? q);
    }
    else record s { totals = totals; refresh = q }

abbrev is_close : ℕ → ℤ → Option ℤ → Bool
is_close freq ts none = false
is_close freq ts (some before) = ltb_ℤ (ts -i64 before) (half_ms freq)

unfoldable pub on_refresh : ℕ → GpuInner → ℤ → GpuInner
unfolding push_refresh half_ms
on_refresh freq s ts = if is_close freq ts (last s.refresh) then s else push_refresh s ts

unfoldable pub push_present : GpuInner → PresentRec → GpuInner
push_present s r =
    let q = s.presents ++ r ∷ [] in
    let totals = record s.totals { presents = u64 (s.totals.presents + 1) } in
    if ltb s.present_cap (length q)
    then record s {
      totals = totals;
      presents = tail q;
      present_lost_until =
          max_opt s.present_lost_until (Option.map (λ (x : PresentRec). x.ts) (head? q));
    }
    else record s { totals = totals; presents = q }

unfoldable pub count_residency : ResidentRec → GpuTraceTotals → GpuTraceTotals
count_residency r t = record t {
  residency_ops = u64 (t.residency_ops + 1);
  residency_ms = t.residency_ms +i64 r.dur;
  trim_events = u64 (t.trim_events + of_bool (ltb 0 r.trim));
  trim_max_bytes = if ltb 0 r.trim then max t.trim_max_bytes r.trim else t.trim_max_bytes;
  residency_failed = u64 (t.residency_failed + of_bool r.failed);
}

unfoldable pub push_residency : GpuInner → ResidentRec → GpuInner
unfolding count_residency
push_residency s r =
    let q = s.residency ++ r ∷ [] in
    let totals = count_residency r s.totals in
    if ltb s.residency_cap (length q)
    then record s {
      totals = totals;
      residency = tail q;
      residency_lost_until =
          max_opt s.residency_lost_until (Option.map (λ (x : ResidentRec). x.ts) (head? q));
    }
    else record s { totals = totals; residency = q }

unfoldable pub prune : GpuInner → ℤ → GpuInner
prune s keep =
    let cutoff = s.latest_ts -i64 keep in
    record s {
      refresh = drop_while (λ ts. ltb_ℤ ts cutoff) s.refresh;
      presents = drop_while (λ r. ltb_ℤ r.ts cutoff) s.presents;
      residency = drop_while (λ r. ltb_ℤ r.ts cutoff) s.residency;
      starts = filter (λ e. leb_ℤ cutoff e.1.0) s.starts;
      last_prune = s.latest_ts;
    }
