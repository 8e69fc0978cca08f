-- ===== src/Gpu/Window.antt =====
-- src/gputrace/mod.rs: what the trace says of one window of time, and of a whole run.
use wtfis_stalling.Base.{
  ℕ, ◌+◌, Bool, true, false, ◌&&◌, ◌||◌, Option, none, some, List, [], ◌∷◌, ◌++◌, ltb, ◌==◌,
  if◌then◌else◌, filter, head?, max, of_bool,
}
use wtfis_stalling.Base.Int.{ℤ, pos, leb_ℤ, ◌+i64◌}
use wtfis_stalling.Base.Assoc.{nat_eq, upsert}
use wtfis_stalling.Base.Sort.{sort}
use wtfis_stalling.Storport.Ring.{none_or_before}
use wtfis_stalling.Gpu.{GpuInner, GpuTraceTotals, PresentRec, ResidentRec}
use wtfis_stalling.Gpu.Cadence.{Cadence, cadence}
use mathlib.Core.Option

abbrev is_some_up_to : ℤ → Option ℤ → Bool
is_some_up_to from none = false
is_some_up_to from (some ts) = leb_ℤ ts from

unfoldable pub covers : ℤ → Option ℤ → Option ℤ → Bool
covers from lost_until oldest = none_or_before lost_until from && is_some_up_to from oldest

abbrev within : ℤ → ℤ → ℤ → Bool
within from to ts = leb_ℤ from ts && leb_ℤ ts to

-- The times of the presents of each process.
unfoldable pub by_pid : List PresentRec → List (ℕ × List ℤ) → List (ℕ × List ℤ)
by_pid [] m = m
by_pid (r ∷ rs) m = by_pid rs (upsert r.pid [] (λ times. times ++ r.ts ∷ []) m)

-- More frames first, then the lower process.
abbrev is_better : ℕ → Cadence → Option (ℕ × Cadence) → Bool
is_better pid c none = true
is_better pid c (some (p, best)) = ltb best.count c.count || c.count == best.count && ltb pid p

unfoldable pub most_frames : List (ℕ × List ℤ) → Option (ℕ × Cadence) → Option (ℕ × Cadence)
unfolding cadence
most_frames [] program = program
most_frames ((pid, times) ∷ m) program = elim (cadence times) [
  | none ↦ most_frames m program
  | some c ↦ most_frames m (if is_better pid c program then some (pid, c) else program)
]

-- `residency_ms` is the exact sum of ticks.
pub record GpuWindow : Type 0 where
  pub refresh_covered : Bool
  pub present_covered : Bool
  pub display : Option Cadence
  pub program : Option (ℕ × Cadence)
  pub residency_ops : ℕ
  pub residency_ms : ℤ
  pub trim_bytes : ℕ
  pub residency_failed : ℕ

unfoldable pub add_residency : GpuWindow → List ResidentRec → GpuWindow
add_residency w [] = w
add_residency w (r ∷ rs) =
    add_residency
      (record w {
        residency_ops = w.residency_ops + 1;
        residency_ms = w.residency_ms +i64 r.dur;
        trim_bytes = max w.trim_bytes r.trim;
        residency_failed = w.residency_failed + of_bool r.failed;
      })
      rs

unfoldable pub window : GpuInner → ℤ → ℤ → GpuWindow
unfolding covers by_pid most_frames add_residency cadence
window s from to =
    let refresh = filter (within from to) s.refresh in
    let refresh_covered = covers from s.refresh_lost_until (head? s.refresh) in
    let present_covered =
      covers from s.present_lost_until (Option.map (λ (r : PresentRec). r.ts) (head? s.presents)) in
    let presents = by_pid (filter (λ r. within from to r.ts) s.presents) [] in
    add_residency
      (record {
        refresh_covered = refresh_covered;
        present_covered = present_covered;
        display = if refresh_covered then cadence refresh else none;
        program = if present_covered then most_frames presents none else none;
        residency_ops = 0;
        residency_ms = pos 0;
        trim_bytes = 0;
        residency_failed = 0;
      })
      (filter (λ r. within from to r.ts) s.residency)

abbrev is_none {ℓ} : {A : Type ℓ} → Option A → Bool
is_none none = true
is_none (some a) = false

unfoldable pub empty : GpuWindow → Bool
empty w = is_none w.display && is_none w.program && w.residency_ops == 0

pub record GpuTraceReport : Type 0 where
  pub totals : GpuTraceTotals
  pub debug_counts : List ((ℕ × ℕ) × ℕ)
  pub debug_unknown : List ((ℕ × ℕ) × ℕ)

abbrev entry_le : (ℕ × ℕ) × ℕ → (ℕ × ℕ) × ℕ → Bool
entry_le a b = ltb a.0.0 b.0.0 || a.0.0 == b.0.0 && (ltb a.0.1 b.0.1 || a.0.1 == b.0.1)

unfoldable pub report : GpuInner → GpuTraceReport
report s = record {
  totals = record s.totals { available = true; events = s.events };
  debug_counts = sort entry_le s.debug_counts;
  debug_unknown = sort entry_le s.debug_unknown;
}
