-- ===== src/Tests/Storport.antt =====
-- A short session of the storage trace, and what the theorems say of it.
use wtfis_stalling.Base.{
  ◌+◌, ◌≡◌, refl, true, false, Option, none, some, List, [], ◌∷◌, ◌++◌, arith, All, Memᴰ, filter,
  take, map,
}
use wtfis_stalling.Base.Int.{pos, max_opt, ◌-i64◌, ◌+i64◌, div_i64}
use wtfis_stalling.Cut.{front_length, front_length-IsPartitionPoint, in_window, IsSearchable}
use wtfis_stalling.Layout.{Field, read_uint, from_le_bytes}
use wtfis_stalling.Storport.Types.{ReqRec, ResetRec, ScsiAddr}
use wtfis_stalling.Storport.Ring.{
  StorInner, new, covers, caught_up, attach, push_ring, attach_both, push_req, on_retry, on_reset,
  maybe_prune,
}
use wtfis_stalling.Util.{ms_to_ticks}
use wtfis_stalling.Storport.Events.{
  get, ticks_from_100ns, handle, dispatch, arrive, handle_request, handle_retry, handle_reset,
}
use wtfis_stalling.Base.Assoc.{lookup, remove, upsert}
use wtfis_stalling.Storport.Decode.{Delivery, decode, requested, run, meaning}
use wtfis_stalling.Storport.Report.{report, req_window, resets_of}
use wtfis_stalling.Storport.Cover.{Held, bare, covers_sound}
use wtfis_stalling.Storport.Retries.{report-retry_by, retry_events}
use wtfis_stalling.Storport.Totals.{totals_at, tally, tally_events, run-totals_at}
use wtfis_stalling.Storport.Bounds.{Bounded, run-Bounded, run-resets, resets_among}
use wtfis_stalling.Storport.Refinement.{in_time, requests_among, req_window-refines}
use wtfis_stalling.Storport.Progress.{run-caught_up}
use wtfis_stalling.Storport.Reads.{
  TakesDown, IsOldestFirst, req_window-eq-filter, resets_of-IsOldestFirst,
}
use mathlib.Core.List.{Perm}
use mathlib.Core.Option

abbrev drive : ScsiAddr
drive = record { port = 0; bus = 0; target = 1; lun = 0 }

-- A payload of single bytes: the duration, the pointer, the command and the drive's target.
abbrev places : List (Option Field)
places = some (0, 1) ∷ some (1, 1) ∷ some (2, 1) ∷ none ∷ none ∷ none ∷ none ∷ some (3, 1) ∷ []

abbrev slow_read : Delivery
slow_read = record {
  at = record { id = 201; version = 0; ts = pos 100 };
  fields = some places;
  bytes = 50 ∷ 7 ∷ 0x28 ∷ 1 ∷ [];
}

abbrev retry : Delivery
retry = record {
  at = record { id = 209; version = 0; ts = pos 90 };
  fields = some (some (0, 1) ∷ []);
  bytes = 7 ∷ [];
}

abbrev lu_reset : Delivery
lu_reset = record {
  at = record { id = 1; version = 0; ts = pos 95 };
  fields = some (some (0, 1) ∷ []);
  bytes = 0 ∷ [];
}

abbrev session : List Delivery
session = retry ∷ lu_reset ∷ slow_read ∷ []

-- The request that `slow_read` reports, at ten million ticks per second.
abbrev the_read : ReqRec
the_read = record {
  ts = pos 100;
  dur = pos 50;
  irp = 7;
  orig = 0;
  bytes = 0;
  addr = drive;
  srb = 0;
  scsi = 0;
  cmd = 0x28;
  retries = 0;
}

abbrev empty : StorInner
empty = new 16 (pos 10)

slow_read-meaning : meaning 10000000 slow_read ≡ requested the_read
unfolding decode get read_uint from_le_bytes ticks_from_100ns Option.bind
slow_read-meaning = refl

covers-session : covers (run 10000000 false empty session) (pos 20) ≡ true
unfolding covers run handle dispatch arrive handle_request handle_retry handle_reset get read_uint
    from_le_bytes ticks_from_100ns push_req attach_both attach push_ring on_retry on_reset
    maybe_prune ms_to_ticks new lookup remove upsert max_opt Option.bind div_i64 ◌-i64◌
covers-session = refl

covers_sound_example : Held (run 10000000 false empty session).reqs the_read
covers_sound_example =
    covers_sound 10000000 false empty session slow_read the_read (pos 20)
      (Memᴰ.tail (Memᴰ.tail (Memᴰ.head refl))) slow_read-meaning covers-session (omega arith)

report-retry_by_example :
    let by = (report (run 10000000 false (new 16 (pos 10)) session)).retry_by in
    by.by_irp + by.by_orig + by.never ≡ retry_events 10000000 session
report-retry_by_example = report-retry_by 10000000 16 (pos 10) false session (omega arith)

run-totals_at_example :
    tally (totals_at (run 10000000 false empty session) drive)
    ≡ tally_events 10000000 drive session (tally (totals_at empty drive))
run-totals_at_example = run-totals_at 10000000 false empty session drive

empty-Bounded : Bounded 16 empty
unfolding new
empty-Bounded = (refl, omega arith, omega arith)

run-Bounded_example : Bounded 16 (run 10000000 false empty session)
run-Bounded_example = run-Bounded 16 10000000 false empty session empty-Bounded

empty-resets : empty.resets ≡ take 1000 []
unfolding new
empty-resets = refl

run-resets_example :
    (run 10000000 false empty session).resets ≡ take 1000 ([] ++ resets_among 10000000 session)
run-resets_example = run-resets 10000000 false empty session [] empty-resets

-- Two requests, out of order by a tick.
abbrev filled : StorInner
filled = record empty { reqs = the_read ∷ record the_read { ts = pos 99 } ∷ [] }

filled-IsSearchable :
    IsSearchable (λ (r : ReqRec). r.ts) (ms_to_ticks 10000000 1) (pos 99) (pos 100) filled.reqs
unfolding ms_to_ticks ◌-i64◌ ◌+i64◌
filled-IsSearchable = ((0, (tt, (refl, (refl, tt)))), (2, ((refl, (refl, tt)), tt)))

req_window-eq-filter_example :
    req_window front_length 10000000 filled (pos 99) (pos 100)
    ≡ filter (in_window (λ (r : ReqRec). r.ts) (pos 99) (pos 100)) filled.reqs
req_window-eq-filter_example =
    req_window-eq-filter front_length 10000000 filled (pos 99) (pos 100)
      front_length-IsPartitionPoint (omega arith) (omega arith) (omega arith) filled-IsSearchable

resets_of-IsOldestFirst_example :
    (others : List ResetRec) × Perm
      (report (run 10000000 false empty session)).resets
      (resets_of (report (run 10000000 false empty session)) drive ++ others)
    × All (λ x. TakesDown x drive) (resets_of (report (run 10000000 false empty session)) drive)
    × All (λ x. ¬ TakesDown x drive) others
    × IsOldestFirst (resets_of (report (run 10000000 false empty session)) drive)
resets_of-IsOldestFirst_example =
    resets_of-IsOldestFirst (report (run 10000000 false empty session)) drive

session-IsSearchable :
    IsSearchable
      (λ (r : ReqRec). r.ts)
      (ms_to_ticks 10000000 1)
      (pos 20)
      (pos 100)
      (run 10000000 false empty session).reqs
unfolding run handle dispatch arrive handle_request handle_retry handle_reset get read_uint
    from_le_bytes ticks_from_100ns push_req attach_both attach push_ring on_retry on_reset
    maybe_prune ms_to_ticks new lookup remove upsert max_opt Option.bind div_i64 ◌-i64◌ ◌+i64◌
session-IsSearchable = ((0, (tt, (refl, tt))), (1, ((refl, tt), tt)))

req_window-refines_example :
    map bare
      (req_window front_length 10000000 (run 10000000 false empty session) (pos 20) (pos 100))
    ≡ map bare (in_time (pos 20) (pos 100) (empty.reqs ++ requests_among 10000000 session))
req_window-refines_example =
    req_window-refines front_length 10000000 false empty session (pos 20) (pos 100)
      front_length-IsPartitionPoint (omega arith) (omega arith, omega arith)
      (omega arith, omega arith) session-IsSearchable covers-session

run-caught_up_example :
    caught_up 10000000 (run 10000000 false empty session) (pos 95) (pos 200) ≡ true
run-caught_up_example =
    run-caught_up 10000000 false empty session slow_read (pos 95) (pos 200)
      (Memᴰ.tail (Memᴰ.tail (Memᴰ.head refl))) (omega arith)
