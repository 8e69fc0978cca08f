-- ===== src/Tests/Split.antt =====
-- A slow request in two pieces, and what the theorems say of it.
use wtfis_stalling.Base.{◌+◌, ◌-◌, ◌≤◌, ◌≡◌, refl, List, [], ◌∷◌, arith, length}
use wtfis_stalling.Base.Int.{ℤ, pos}
use wtfis_stalling.State.Records.{IoRec}
use wtfis_stalling.Storport.Types.{ReqRec}
use wtfis_stalling.Split.Union.{Span, union_len}
use wtfis_stalling.Split.Measure.{count_ticks, covered, union_len-measure}
use wtfis_stalling.Split.Correlate.{by_irp, Outcome, split, unmatched, not_covered, split_of}
use wtfis_stalling.Split.Totals.{no_splits, tried, matched}
use wtfis_stalling.Split.Time.{Lasted, busy_ticks, split_of-time}
use wtfis_stalling.Split.Adding.{add_all, tried-add_all}

abbrev overlapping : List Span
overlapping = (pos 10, pos 30) ∷ (pos 20, pos 40) ∷ (pos 50, pos 60) ∷ []

union_len-measure_example :
    union_len overlapping ≡ pos (count_ticks (covered overlapping) (pos 0) 100)
union_len-measure_example =
    union_len-measure (pos 0) 100 overlapping (omega arith) (omega arith) (omega arith)

abbrev slow_read : IoRec
slow_read = record {
  end = pos 100;
  dur = pos 80;
  file = 1;
  irp = 7;
  offset = pos 0;
  disk = 0;
  tid = 4;
  pid = 4;
  size = 4096;
  irp_flags = 0;
  op = 82;
}

abbrev piece : ℤ → ℤ → ReqRec
piece ts dur = record {
  ts = ts;
  dur = dur;
  irp = 7;
  orig = 0;
  bytes = 4096;
  addr = record { port = 0; bus = 0; target = 1; lun = 0 };
  srb = 1;
  scsi = 0;
  cmd = 0x28;
  retries = 0;
}

abbrev two_pieces : List ReqRec
two_pieces = piece (pos 60) (pos 30) ∷ piece (pos 70) (pos 20) ∷ []

slow_read-Lasted : Lasted slow_read 80
slow_read-Lasted = (omega arith, omega arith, refl, omega arith)

split_of-time_example :
    ((split_of 10000000 slow_read two_pieces by_irp).inside
      ≡ pos (busy_ticks slow_read 80 slow_read-Lasted two_pieces))
    × ((split_of 10000000 slow_read two_pieces by_irp).waiting
        ≡ pos (80 - busy_ticks slow_read 80 slow_read-Lasted two_pieces))
    × (busy_ticks slow_read 80 slow_read-Lasted two_pieces ≤ 80)
split_of-time_example = split_of-time slow_read 80 slow_read-Lasted 10000000 two_pieces by_irp

abbrev outcomes : List Outcome
outcomes = split (split_of 10000000 slow_read two_pieces by_irp) ∷ unmatched ∷ not_covered ∷ []

tried-add_all_example :
    (tried (add_all no_splits outcomes) + (add_all no_splits outcomes).not_covered
      ≡ length outcomes)
    × (matched (add_all no_splits outcomes) ≤ tried (add_all no_splits outcomes))
tried-add_all_example = tried-add_all outcomes (omega arith)
