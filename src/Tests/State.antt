-- ===== src/Tests/State.antt =====
-- A short run of the kernel trace, and what the theorems say of it.
use wtfis_stalling.Base.{◌+◌, ◌≡◌, refl, true, false, none, List, [], ◌∷◌, arith, Memᴰ, filter}
use wtfis_stalling.Base.Int.{ℤ, pos, div_i64, ◌-i64◌, ◌+i64◌}
use wtfis_stalling.Util.{ms_to_ticks}
use wtfis_stalling.Cut.{front_length, front_length-IsPartitionPoint, in_window, IsSearchable}
use wtfis_stalling.State.Records.{SwitchRec, ReadyRec}
use wtfis_stalling.State.Rings.{
  Inner, Seen, switched, readied, switches_cover, switch_window, watch, on_seen, hear, push_switch,
  push_ready,
}
use wtfis_stalling.State.Reach.{InStep}
use wtfis_stalling.State.Covered.{IsKept, switches_cover_sound}
use wtfis_stalling.State.Windows.{switch_window-eq-filter, IsBounded, watch-IsBounded}
use wtfis_stalling.State.Tables.{no_wait}
use wtfis_stalling.State.Waits.{IsTallied, add_all, add_all-IsTallied}
use wtfis_stalling.State.Callback.{Shared, Kernel}
use wtfis_stalling.State.Notes.{
  Pushed, exec, push_records, count_slow, IsNoted, push_records-IsNoted,
}

abbrev fresh : Inner
fresh = record {
  latest_ts = pos 0;
  last_prune = pos 0;
  events = 0;
  execs = [];
  faults = [];
  ios = [];
  samples = [];
  switches = [];
  readies = [];
  switch_events = 0;
  ready_events = 0;
  switches_overflowed = false;
  ring_lost_until = none;
  switch_cap = 0;
  ready_cap = 0;
}

abbrev switch_at : ℤ → SwitchRec
switch_at ts = record {
  ts = ts;
  new_tid = 7;
  old_tid = 8;
  cpu = 0;
  new_prio = pos 8;
  old_prio = pos 8;
  old_wait_reason = pos 0;
  old_wait_mode = pos 0;
  old_state = pos 5;
}

abbrev ready_at : ℤ → ReadyRec
ready_at ts = record { ts = ts; tid = 8; by_tid = 7; cpu = 0; flag = 0 }

abbrev traced : List Seen
traced =
    switched (switch_at (pos 10)) ∷ readied (ready_at (pos 12)) ∷ switched (switch_at (pos 15)) ∷ []

fresh-InStep : InStep fresh
fresh-InStep = record { sorted = tt; newest = tt; clock = omega arith }

traced-covers : switches_cover (watch 10000000 (pos 200000000) fresh traced) (pos 11) ≡ true
unfolding switches_cover watch on_seen hear push_switch push_ready div_i64 ◌-i64◌
traced-covers = refl

switches_cover_sound_example :
    IsKept (readied (ready_at (pos 12))) (watch 10000000 (pos 200000000) fresh traced)
switches_cover_sound_example =
    switches_cover_sound 10000000 (pos 200000000) fresh traced (readied (ready_at (pos 12)))
      (pos 11) (omega arith) fresh-InStep (omega arith) (Memᴰ.tail (Memᴰ.head refl)) traced-covers
      (omega arith)

abbrev filled : Inner
filled = record fresh {
  switches = switch_at (pos 10) ∷ switch_at (pos 9) ∷ [];
  readies = ready_at (pos 12) ∷ [];
}

filled-switches :
    IsSearchable (λ (r : SwitchRec). r.ts) (ms_to_ticks 10000000 1) (pos 9) (pos 10) filled.switches
unfolding ms_to_ticks ◌-i64◌ ◌+i64◌
filled-switches = ((0, (tt, (refl, (refl, tt)))), (2, ((refl, (refl, tt)), tt)))

filled-readies :
    IsSearchable (λ (r : ReadyRec). r.ts) (ms_to_ticks 10000000 1) (pos 9) (pos 10) filled.readies
unfolding ms_to_ticks ◌-i64◌ ◌+i64◌
filled-readies = ((0, (tt, (refl, tt))), (1, ((refl, tt), tt)))

switch_window-eq-filter_example :
    switch_window front_length front_length 10000000 filled (pos 9) (pos 10) ≡ (
      filter (in_window (λ (r : SwitchRec). r.ts) (pos 9) (pos 10)) filled.switches,
      filter (in_window (λ (r : ReadyRec). r.ts) (pos 9) (pos 10)) filled.readies,
    )
switch_window-eq-filter_example =
    switch_window-eq-filter front_length front_length 10000000 filled (pos 9) (pos 10)
      front_length-IsPartitionPoint front_length-IsPartitionPoint (omega arith) (omega arith)
      (omega arith) filled-switches filled-readies

watch-IsBounded_example : IsBounded 0 0 (watch 10000000 (pos 200000000) fresh traced)
watch-IsBounded_example =
    watch-IsBounded 0 0 10000000 (pos 200000000) fresh traced (refl, refl, omega arith, omega arith)

add_all-IsTallied_example :
    IsTallied
      (add_all
        (record { wait = no_wait 0; by_pid = [] })
        ((4, pos 10) ∷ (8, pos 3) ∷ (4, pos 5) ∷ []))
      3
add_all-IsTallied_example =
    add_all-IsTallied 0 ((4, pos 10) ∷ (8, pos 3) ∷ (4, pos 5) ∷ []) (omega arith)

abbrev settings : Shared
settings = record {
  exec_warn = pos 1000;
  fault_warn = pos 50000;
  io_warn = pos 200000;
  keep = pos 200000000;
  debug = false;
}

abbrev quiet : Kernel
quiet = record {
  rings = fresh;
  tid_pid = [];
  routines = [];
  beats = [];
  beat_t0 = pos 0;
  faults_by_pid = [];
  disks = [];
  notable = [];
  notable_dropped = 0;
  file_names = record { map = []; order = [] };
  file_wait = [];
  fault_file = [];
  debug_rejected = [];
  debug_irp_flags = [];
}

abbrev long_dpc : Pushed
long_dpc =
    exec (record { cpu = 0; kind = 0; start = pos 10; end = pos 5000; routine = 9 }) (pos 4990)

push_records-IsNoted_example :
    IsNoted
      (push_records 10000000 settings quiet (long_dpc ∷ []))
      (0 + count_slow settings (long_dpc ∷ []))
push_records-IsNoted_example =
    push_records-IsNoted 10000000 settings quiet (long_dpc ∷ []) 0 (omega arith) (refl, omega arith)
