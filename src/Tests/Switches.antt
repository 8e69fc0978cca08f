-- ===== src/Tests/Switches.antt =====
-- A late wake-up, and what the theorems say of it.
use wtfis_stalling.Base.{◌≡◌, ◌⊎◌, refl, some, List, [], ◌∷◌, arith, Memᴰ}
use wtfis_stalling.Base.Int.{ℤ, pos, ◌≤ℤ◌, ◌<ℤ◌, max_ℤ, div_i64, ◌-i64◌, ◌+i64◌}
use wtfis_stalling.Util.{ms_to_ticks}
use wtfis_stalling.State.Records.{ReadyRec}
use wtfis_stalling.Switches.Held.{rfind}
use wtfis_stalling.Switches.Probe.{
  ProbeWindow, readied_late, on_time_slack, find, is_wake_up, classify_probe,
}
use wtfis_stalling.Switches.Verdict.{not_woken, queued, blocked, overall, judge_probes}
use wtfis_stalling.Switches.Late.{readied_late_sound}
use wtfis_stalling.Switches.Agreement.{judge_probes-overall, Means, count, outcomes}
use wtfis_stalling.Base.{◌&&◌, filter}
use wtfis_stalling.Base.Int.{leb_ℤ}
use wtfis_stalling.State.Records.{SwitchRec}
use wtfis_stalling.Switches.Waits.{merged}
use wtfis_stalling.Switches.Merging.{switches_of, readies_of, merged-keeps}

abbrev stalled : ProbeWindow
stalled = record { tid = 7; cpu = some 0; start = pos 0; end = pos 100000 }

abbrev woken : ℤ → ReadyRec
woken ts = record { ts = ts; tid = 7; by_tid = 0; cpu = 0; flag = 1 }

abbrev wake_ups : List ReadyRec
wake_ups = woken (pos 50000) ∷ woken (pos 60000) ∷ []

stalled-late : classify_probe 10000000 [] wake_ups stalled ≡ readied_late (pos 50000)
unfolding classify_probe on_time_slack find is_wake_up ms_to_ticks max_ℤ div_i64 ◌-i64◌ ◌+i64◌ rfind
stalled-late = refl

in_window : pos 60000 ≤ℤ stalled.end +i64 on_time_slack 10000000 (stalled.end -i64 stalled.start)
unfolding on_time_slack ms_to_ticks max_ℤ div_i64 ◌-i64◌ ◌+i64◌
in_window = omega arith

readied_late_sound_example :
    let slack = on_time_slack 10000000 (stalled.end -i64 stalled.start) in
    (pos 60000 <ℤ stalled.start -i64 slack) ⊎ (stalled.start +i64 slack <ℤ pos 60000)
readied_late_sound_example =
    readied_late_sound 10000000 [] wake_ups stalled (pos 50000) (woken (pos 60000)) (omega arith)
      stalled-late (Memᴰ.tail (Memᴰ.head refl)) refl in_window

judge_probes-overall_example :
    let os = outcomes 10000000 [] wake_ups (stalled ∷ []) in
    Means
      (overall (judge_probes 10000000 [] wake_ups (stalled ∷ [])))
      (count not_woken os)
      (count queued os)
      (count blocked os)
judge_probes-overall_example = judge_probes-overall 10000000 [] wake_ups (stalled ∷ [])

merged-keeps_example :
    (switches_of (merged [] wake_ups (pos 0) (pos 55000))
      ≡ filter (λ (s : SwitchRec). leb_ℤ (pos 0) s.ts && leb_ℤ s.ts (pos 55000)) [])
    × (readies_of (merged [] wake_ups (pos 0) (pos 55000))
        ≡ filter (λ (r : ReadyRec). leb_ℤ (pos 0) r.ts && leb_ℤ r.ts (pos 55000)) wake_ups)
merged-keeps_example = merged-keeps [] wake_ups (pos 0) (pos 55000)
