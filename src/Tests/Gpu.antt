-- ===== src/Tests/Gpu.antt =====
-- A few refreshes of a display, and the theorems on the graphics trace and on interrupts.
use wtfis_stalling.Base.{ℕ, ◌≡◌, refl, false, none, some, List, [], ◌∷◌, arith}
use wtfis_stalling.Base.Int.{ℤ, pos, ◌-i64◌}
use wtfis_stalling.Base.Sort.{sort, insert_sorted}
use wtfis_stalling.Gpu.{GpuInner}
use wtfis_stalling.Gpu.Cadence.{Cadence, IsWorst, gaps, worst_gap, median, cadence, cadence-IsWorst}
use wtfis_stalling.Gpu.Refresh.{IsSteady, Delivery, run, run-IsSteady}
use wtfis_stalling.Intr.{slices_covered}
use wtfis_stalling.Intr.Slices.{slices_hit, slices_covered-hit}

abbrev times : List ℤ
times = pos 0 ∷ pos 10 ∷ pos 40 ∷ pos 50 ∷ []

abbrev measured : Cadence
measured = record { count = 4; typical_ms = pos 10; worst_ms = pos 30; worst_at = pos 40 }

cadence-times : cadence times ≡ some measured
unfolding cadence gaps worst_gap median sort insert_sorted ◌-i64◌
cadence-times = refl

cadence-IsWorst_example : IsWorst (pos 40) (pos 30) (gaps times)
cadence-IsWorst_example =
    cadence-IsWorst times measured
      (
        (omega arith, omega arith),
        (
          (omega arith, omega arith),
          ((omega arith, omega arith), ((omega arith, omega arith), tt)),
        ),
      )
      cadence-times

abbrev fresh : GpuInner
fresh = record {
  events = 0;
  latest_ts = pos 0;
  last_prune = pos 0;
  refresh = [];
  presents = [];
  residency = [];
  refresh_lost_until = none;
  present_lost_until = none;
  residency_lost_until = none;
  refresh_cap = 2;
  present_cap = 2;
  residency_cap = 2;
  totals = record {
    available = false;
    events = 0;
    refresh_ticks = 0;
    presents = 0;
    residency_ops = 0;
    residency_ms = pos 0;
    trim_events = 0;
    trim_max_bytes = 0;
    residency_failed = 0;
  };
  starts = [];
  debug_counts = [];
  debug_unknown = [];
}

abbrev refresh_at : ℕ → ℤ → Delivery
refresh_at id ts = record {
  at = record { id = id; version = 0; ts = ts; pid = 0; tid = 0 };
  fields = none;
  bytes = [];
}

-- Each refresh is reported by two events.
abbrev refreshes : List Delivery
refreshes = refresh_at 17 (pos 1000) ∷ refresh_at 273 (pos 1010) ∷ refresh_at 17 (pos 168000) ∷ []

fresh-IsSteady : IsSteady 10000000 fresh
fresh-IsSteady = record { spaced = tt; ticks = tt; bounded = omega arith }

run-IsSteady_example : IsSteady 10000000 (run 10000000 false fresh refreshes)
run-IsSteady_example =
    run-IsSteady 10000000 false fresh refreshes (omega arith)
      ((omega arith, omega arith), ((omega arith, omega arith), ((omega arith, omega arith), tt)))
      fresh-IsSteady

slices_covered-hit_example :
    slices_covered (pos 0) (pos 100) (pos 5 ∷ pos 7 ∷ pos 55 ∷ [])
    ≡ slices_hit (pos 0) (pos 100) (pos 5 ∷ pos 7 ∷ pos 55 ∷ []) 10 0
slices_covered-hit_example =
    slices_covered-hit (pos 0) (pos 100) (omega arith) (omega arith) (pos 5 ∷ pos 7 ∷ pos 55 ∷ [])
