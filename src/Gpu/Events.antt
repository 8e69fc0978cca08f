-- ===== src/Gpu/Events.antt =====
-- src/gputrace/events.rs: one event of the graphics kernel into the state. `fields` is what
-- `manifest::resolve` found for the event: a place for each wanted field, or nothing.
use wtfis_stalling.Base.{
  ℕ, ◌+◌, Bool, ◌&&◌, ◌||◌, Option, none, some, List, leb, ◌==◌, if◌then◌else◌, u32, u64,
}
use wtfis_stalling.Base.Int.{ℤ, pos, ltb_ℤ, leb_ℤ, ◌-i64◌, div_i64}
use wtfis_stalling.Base.Assoc.{nat_eq, lookup, remove, upsert}
use wtfis_stalling.Util.{ms_to_ticks}
use wtfis_stalling.Layout.{Field}
use wtfis_stalling.Storport.Events.{pair_eq, get}
use wtfis_stalling.Gpu.{GpuInner, gpu_keep_ms, on_refresh, push_present, push_residency, prune}

abbrev pub ev_vsync : ℕ
ev_vsync = 17

abbrev pub ev_vsync_multiplane : ℕ
ev_vsync_multiplane = 273

abbrev pub ev_hsync_multiplane : ℕ
ev_hsync_multiplane = 382

abbrev pub ev_present : ℕ
ev_present = 184

abbrev pub ev_resident_start : ℕ
ev_resident_start = 338

abbrev pub ev_resident_stop : ℕ
ev_resident_stop = 339

unfoldable pub is_error : ℕ → Bool
is_error status = leb 3221225472 (u32 status)

abbrev pub max_resident_ms : ℕ
max_resident_ms = 2000

pub record At : Type 0 where
  pub id : ℕ
  pub version : ℕ
  pub ts : ℤ
  pub pid : ℕ
  pub tid : ℕ

unfoldable pub unknown : Bool → GpuInner → At → GpuInner
unknown debug s at =
    if debug
    then record s {
      debug_unknown = upsert (at.id, at.version) 0 (λ n. u64 (n + 1)) s.debug_unknown;
    }
    else s

abbrev or_else : ℕ → Option ℕ → ℕ
or_else d none = d
or_else d (some n) = n

unfoldable pub handle_present : GpuInner → At → Option ℕ → GpuInner
unfolding push_present
handle_present s at source =
    push_present s
      (record { ts = at.ts; pid = at.pid; source = u32 (or_else 18446744073709551615 source) })

unfoldable pub handle_start : GpuInner → At → Option ℕ → GpuInner
handle_start s at allocations =
    let v = u32 (or_else 0 allocations) in
    record s { starts = upsert at.tid (at.ts, v) (λ e. (at.ts, v)) s.starts }

-- The duration from the start on the same thread, where that is plausible.
abbrev resident_dur : ℕ → ℤ → Option (ℤ × ℕ) → ℤ
resident_dur freq ts none = pos 0
resident_dur freq ts (some (start, n)) =
    let dur = ts -i64 start in
    if leb_ℤ (pos 0) dur && ltb_ℤ dur (ms_to_ticks freq max_resident_ms) then dur else pos 0

unfoldable pub handle_stop : ℕ → GpuInner → At → Option ℕ → Option ℕ → GpuInner
unfolding push_residency is_error
handle_stop freq s at none trim = s
handle_stop freq s at (some status) trim =
    push_residency (record s { starts = remove at.tid s.starts })
      (record {
        ts = at.ts;
        dur = resident_dur freq at.ts (lookup at.tid s.starts);
        trim = or_else 0 trim;
        pid = at.pid;
        failed = is_error status;
      })

unfoldable pub maybe_prune : ℕ → GpuInner → ℤ → GpuInner
unfolding prune
maybe_prune freq s ts =
    let keep = ms_to_ticks freq gpu_keep_ms in
    let s' : GpuInner = record s { latest_ts = ts } in
    if ltb_ℤ s.latest_ts ts
    then (if ltb_ℤ (div_i64 keep 8) (ts -i64 s'.last_prune) then prune s' keep else s')
    else s

abbrev pub count_debug : Bool → GpuInner → At → GpuInner
count_debug debug s at =
    if debug
    then record s { debug_counts = upsert (at.id, at.version) 0 (λ n. u64 (n + 1)) s.debug_counts }
    else s

abbrev pub is_refresh : ℕ → Bool
is_refresh id = id == ev_vsync || id == ev_vsync_multiplane || id == ev_hsync_multiplane

-- What an event is, once it is counted.
unfoldable pub dispatch :
    ℕ → Bool → GpuInner → At → Option (List (Option Field)) → List ℕ → GpuInner
unfolding unknown handle_present handle_start handle_stop get on_refresh
dispatch freq debug s at none bytes =
    if is_refresh at.id then on_refresh freq s at.ts else unknown debug s at
dispatch freq debug s at (some fields) bytes =
    let field = get fields bytes in
    if is_refresh at.id
    then on_refresh freq s at.ts
    else if at.id == ev_present
    then handle_present s at (field 0)
    else if at.id == ev_resident_start
    then handle_start s at (field 0)
    else if at.id == ev_resident_stop
    then handle_stop freq s at (field 0) (field 1)
    else unknown debug s at

unfoldable pub handle : ℕ → Bool → GpuInner → At → Option (List (Option Field)) → List ℕ → GpuInner
unfolding maybe_prune dispatch
handle freq debug s at fields bytes =
    let counted : GpuInner = record s { events = u64 (s.events + 1) } in
    dispatch freq debug (count_debug debug (maybe_prune freq counted at.ts) at) at fields bytes
