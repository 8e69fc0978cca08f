-- ===== src/State/Callback.antt =====
-- src/etw/events.rs: one event of the kernel trace into the rings and the tables. The calls into
-- the collection of stacks are left out: it keeps a state of its own.
use Prim.Native.String.{String}
use text.Mathlib.Text.{◌==◌ as str_eq}
use wtfis_stalling.Base.{
  ℕ, ◌+◌, ◌/◌, Bool, true, false, not, ◌&&◌, ◌||◌, Option, none, some, List, [], ◌∷◌, ◌++◌, ltb,
  leb, ◌==◌, if◌then◌else◌, u64, length, take, drop, max,
}
use wtfis_stalling.Base.Int.{
  ℤ, pos, pos_part, ltb_ℤ, leb_ℤ, max_ℤ, signed64, div_i64, ◌+i64◌, ◌-i64◌,
}
use wtfis_stalling.Base.Assoc.{nat_eq, lookup, remove, upsert}
use wtfis_stalling.Util.{ms_to_ticks}
use wtfis_stalling.Layout.{from_le_bytes}
use wtfis_stalling.Storport.Events.{pair_eq}
use wtfis_stalling.State.Records.{ExecRec, FaultRec, IoRec, kind_isr, kind_isr_msi}
use wtfis_stalling.State.Rings.{Inner}
use wtfis_stalling.State.Tables.{
  RoutineStat, FileWait, no_wait, DiskFileWait, add, add_dur, FileNames, insert, get, cap_by_wait,
  file_wait_cap, file_name_cap, LatStat, Notable, long_exec, slow_fault, slow_io, Beats, no_beats,
  set_beat, beat_buckets, beat_routines,
}

abbrev pid_unknown : ℕ
pid_unknown = 4294967295

-- The settings, and the event's place.
pub record Shared : Type 0 where
  pub exec_warn : ℤ
  pub fault_warn : ℤ
  pub io_warn : ℤ
  pub keep : ℤ
  pub debug : Bool

pub record At : Type 0 where
  pub opcode : ℕ
  pub ts : ℤ
  pub cpu : ℕ
  pub tid : ℕ

-- The rings of `Inner`, and the rest of it.
pub record Kernel : Type 0 where
  pub rings : Inner
  pub tid_pid : List (ℕ × ℕ)
  pub routines : List ((ℕ × ℕ) × RoutineStat)
  pub beats : List (ℕ × Beats)
  pub beat_t0 : ℤ
  pub faults_by_pid : List (ℕ × LatStat)
  pub disks : List (ℕ × LatStat)
  pub notable : List Notable
  pub notable_dropped : ℕ
  pub file_names : FileNames
  pub file_wait : List (ℕ × DiskFileWait)
  pub fault_file : List ((ℕ × ℕ) × FileWait)
  pub debug_rejected : List (ℤ × ℤ)
  pub debug_irp_flags : List ((ℕ × ℕ) × ℕ)

unfoldable pub rd_u32 : List ℕ → ℕ → Option ℕ
rd_u32 d off = if leb (off + 4) (length d) then some (from_le_bytes (take 4 (drop off d))) else none

unfoldable pub rd_u64 : List ℕ → ℕ → Option ℕ
rd_u64 d off = if leb (off + 8) (length d) then some (from_le_bytes (take 8 (drop off d))) else none

abbrev or_zero : Option ℕ → ℕ
or_zero none = 0
or_zero (some n) = n

unfoldable pub push_notable : Kernel → Notable → Kernel
push_notable k n =
    if ltb (length k.notable) 2000
    then record k { notable = k.notable ++ n ∷ [] }
    else record k { notable_dropped = u64 (k.notable_dropped + 1) }

abbrev no_latency : LatStat
no_latency = record { count = 0; total = pos 0; max = pos 0; slow = 0 }

-- One more latency, and whether it was over its limit.
unfoldable pub count_latency : ℤ → ℤ → LatStat → LatStat
count_latency warn dur st = record {
  count = u64 (st.count + 1);
  total = st.total +i64 dur;
  max = max_ℤ st.max dur;
  slow = if leb_ℤ warn dur then u64 (st.slow + 1) else st.slow;
}

abbrev no_routine : RoutineStat
no_routine = record { count = 0; total = pos 0; max = pos 0; over_warn = 0 }

unfoldable pub count_routine : ℤ → ℤ → RoutineStat → RoutineStat
count_routine warn dur st = record {
  count = u64 (st.count + 1);
  total = st.total +i64 dur;
  max = max_ℤ st.max dur;
  over_warn = if leb_ℤ warn dur then u64 (st.over_warn + 1) else st.over_warn;
}

abbrev is_some {ℓ} : {A : Type ℓ} → Option A → Bool
is_some none = false
is_some (some a) = true

unfoldable pub beat_ticks : ℕ → ℕ
beat_ticks freq = max (pos_part (ms_to_ticks freq 250)) 1

-- One bit for the routine, in the bucket of the time.
unfoldable pub beat : ℕ → Kernel → ℕ → ℤ → Kernel
unfolding beat_ticks
beat freq k routine ts =
    let t0 = if leb_ℤ k.beat_t0 (pos 0) && leb_ℤ (pos 0) k.beat_t0 then ts else k.beat_t0 in
    let bucket = div_i64 (ts -i64 t0) (beat_ticks freq) in
    let started = record k { beat_t0 = t0 } in
    let counted = record started {
      beats = upsert routine no_beats (λ b. set_beat b (pos_part bucket)) k.beats;
    } in
    if leb_ℤ (pos 0) bucket && ltb_ℤ bucket (pos beat_buckets)
    then (if is_some (lookup routine k.beats) || ltb (length k.beats) beat_routines
        then counted
        else started)
    else started

abbrev kind_dpc : ℕ
kind_dpc = 0

abbrev kind_timer_dpc : ℕ
kind_timer_dpc = 1

abbrev kind_threaded_dpc : ℕ
kind_threaded_dpc = 2

unfoldable pub kind_of : ℕ → ℕ
kind_of opcode =
    if opcode == 66
    then kind_threaded_dpc
    else if opcode == 50
    then kind_isr_msi
    else if opcode == 67
    then kind_isr
    else if opcode == 68
    then kind_dpc
    else kind_timer_dpc

unfoldable pub push_exec : ℕ → Shared → Kernel → ExecRec → ℤ → Kernel
unfolding beat count_routine push_notable
push_exec freq sh k r dur =
    let rung = record k { rings = record k.rings { execs = k.rings.execs ++ r ∷ [] } } in
    let beaten = beat freq rung r.routine r.end in
    let counted = record beaten {
      routines =
          upsert (r.routine, r.kind) no_routine (count_routine sh.exec_warn dur) beaten.routines;
    } in
    if leb_ℤ sh.exec_warn dur then push_notable counted (long_exec r) else counted

unfoldable pub reject : Shared → Kernel → ℤ → ℤ → Kernel
reject sh k ts start =
    if sh.debug && ltb (length k.debug_rejected) 5
    then record k { debug_rejected = k.debug_rejected ++ (ts, start) ∷ [] }
    else k

abbrev exec_rec : At → ℤ → ℕ → ExecRec
exec_rec at start routine = record {
  cpu = at.cpu;
  kind = kind_of at.opcode;
  start = start;
  end = at.ts;
  routine = routine;
}

abbrev exec_of : ℕ → Shared → Kernel → At → Option ℕ → Option ℕ → Kernel
exec_of freq sh k at (some raw) (some routine) =
    let start = signed64 raw in
    let dur = at.ts -i64 start in
    if leb_ℤ start (pos 0) || not (leb_ℤ (pos 0) dur && ltb_ℤ dur sh.keep)
    then reject sh k at.ts start
    else push_exec freq sh k (exec_rec at start routine) dur
exec_of freq sh k at _ _ = k

unfoldable pub on_exec : ℕ → Shared → Kernel → At → List ℕ → Kernel
unfolding push_exec reject kind_of
on_exec freq sh k at d = exec_of freq sh k at (rd_u64 d 0) (rd_u64 d 8)

-- `(0..MAX_SANE).contains(&dur)`, for `i64::MAX / 4`.
abbrev is_sane : ℤ → Bool
is_sane dur = leb_ℤ (pos 0) dur && ltb_ℤ dur (pos 2305843009213693951)

abbrev pid_of : Kernel → ℕ → ℕ
pid_of k tid = elim (lookup tid k.tid_pid) [ none ↦ pid_unknown | some pid ↦ pid ]

-- `add_wait`, and the cap on the tally.
unfoldable pub fault_wait : List ((ℕ × ℕ) × FileWait) → ℕ → ℕ → ℤ → List ((ℕ × ℕ) × FileWait)
fault_wait m pid file dur =
    cap_by_wait (λ (w : FileWait). w.total) file_wait_cap
      (upsert (pid, file) (no_wait 0) (λ w. add_dur w dur) m)

unfoldable pub push_fault : Shared → Kernel → FaultRec → ℤ → Kernel
unfolding fault_wait count_latency push_notable
push_fault sh k r dur =
    let counted = record k {
      rings = record k.rings { faults = k.rings.faults ++ r ∷ [] };
      faults_by_pid = upsert r.pid no_latency (count_latency sh.fault_warn dur) k.faults_by_pid;
      fault_file = if r.file == 0 then k.fault_file else fault_wait k.fault_file r.pid r.file dur;
    } in
    if leb_ℤ sh.fault_warn dur then push_notable counted (slow_fault r) else counted

abbrev fault_rec : Kernel → At → ℤ → ℕ → ℕ → ℕ → FaultRec
fault_rec k at start tid bytes file = record {
  start = start;
  end = at.ts;
  tid = tid;
  pid = pid_of k tid;
  bytes = bytes;
  file = file;
}

abbrev fault_of : Shared → Kernel → At → List ℕ → Option ℕ → Option ℕ → Kernel
fault_of sh k at d (some raw) (some tid) =
    let start = signed64 raw in
    let dur = at.ts -i64 start in
    let r = fault_rec k at start tid (or_zero (rd_u32 d 36)) (or_zero (rd_u64 d 24)) in
    if is_sane dur then push_fault sh k r dur else k
fault_of sh k at d _ _ = k

unfoldable pub on_fault : Shared → Kernel → At → List ℕ → Kernel
unfolding push_fault
on_fault sh k at d = fault_of sh k at d (rd_u64 d 0) (rd_u32 d 32)

-- What the payload of a finished request says of it.
pub record Done : Type 0 where
  pub size : ℕ
  pub dur : ℤ
  pub tid : ℕ
  pub op : ℕ
  pub file : ℕ
  pub offset : ℤ
  pub irp : ℕ

-- `b'F'`, `b'R'` and `b'W'` are 70, 82 and 87.
abbrev flush_of : List ℕ → Option ℕ → Option ℕ → Option Done
flush_of d (some dur) (some tid) = some (record {
  size = 0;
  dur = signed64 dur;
  tid = tid;
  op = 70;
  file = 0;
  offset = pos 0;
  irp = or_zero (rd_u64 d 16);
})
flush_of d _ _ = none

abbrev transfer_of : ℕ → List ℕ → Option ℕ → Option ℕ → Option ℕ → Option Done
transfer_of opcode d (some size) (some dur) (some tid) = some (record {
  size = size;
  dur = signed64 dur;
  tid = tid;
  op = if opcode == 10 then 82 else 87;
  file = or_zero (rd_u64 d 24);
  offset = signed64 (or_zero (rd_u64 d 16));
  irp = or_zero (rd_u64 d 32);
})
transfer_of opcode d _ _ _ = none

unfoldable pub read_done : ℕ → List ℕ → Option Done
unfolding rd_u32 rd_u64
read_done opcode d =
    if opcode == 14
    then flush_of d (rd_u64 d 8) (rd_u32 d 24)
    else transfer_of opcode d (rd_u32 d 8) (rd_u64 d 40) (rd_u32 d 48)

unfoldable pub disk_wait : List (ℕ × DiskFileWait) → ℕ → ℕ → ℕ → ℤ → List (ℕ × DiskFileWait)
disk_wait m file disk pid dur =
    cap_by_wait (λ (w : DiskFileWait). w.wait.total) file_wait_cap
      (upsert file (record { wait = no_wait disk; by_pid = [] }) (λ w. add w pid dur) m)

unfoldable pub push_io : Shared → Kernel → IoRec → Kernel
unfolding disk_wait count_latency push_notable
push_io sh k r =
    let counted = record k {
      rings = record k.rings { ios = k.rings.ios ++ r ∷ [] };
      disks = upsert r.disk no_latency (count_latency sh.io_warn r.dur) k.disks;
      file_wait =
          if r.file == 0 then k.file_wait else disk_wait k.file_wait r.file r.disk r.pid r.dur;
      debug_irp_flags =
          if sh.debug
          then upsert (r.op, r.irp_flags) 0 (λ n. u64 (n + 1)) k.debug_irp_flags
          else k.debug_irp_flags;
    } in
    if leb_ℤ sh.io_warn r.dur then push_notable counted (slow_io r) else counted

abbrev io_rec : Kernel → At → ℕ → ℕ → Done → IoRec
io_rec k at disk irp_flags x = record {
  end = at.ts;
  dur = x.dur;
  file = x.file;
  irp = x.irp;
  offset = x.offset;
  disk = disk;
  tid = x.tid;
  pid = pid_of k x.tid;
  size = x.size;
  irp_flags = irp_flags;
  op = x.op;
}

abbrev io_of : Shared → Kernel → At → List ℕ → Option ℕ → Option Done → Kernel
io_of sh k at d (some disk) (some x) =
    if is_sane x.dur then push_io sh k (io_rec k at disk (or_zero (rd_u32 d 4)) x) else k
io_of sh k at d _ _ = k

unfoldable pub on_io : Shared → Kernel → At → List ℕ → Kernel
unfolding push_io read_done
on_io sh k at d = io_of sh k at d (rd_u32 d 0) (read_done at.opcode d)

abbrev is_renamed : Option String → String → Bool
is_renamed none name = false
is_renamed (some had) name = not (str_eq had name)

unfoldable pub push_name : Kernel → ℕ → String → Kernel
unfolding get
push_name k key name = record k {
  file_wait =
      if is_renamed (get k.file_names key) name then remove key k.file_wait else k.file_wait;
  file_names = insert k.file_names key name;
}

abbrev name_of : Kernel → At → Option ℕ → Option String → Kernel
name_of k at none name = k
name_of k at (some key) none = k
name_of k at (some key) (some name) =
    if at.opcode == 36
      && leb (file_name_cap / 2) (length k.file_names.map)
      && not (is_some (lookup key k.file_wait))
    then k
    else push_name k key name

-- `read_name` is the standard library's decoding of UTF-16 on the payload from byte 8.
unfoldable pub on_name : (List ℕ → ℕ → Option String) → Kernel → At → List ℕ → Kernel
unfolding push_name
on_name read_name k at d = name_of k at (rd_u64 d 0) (read_name d 8)

abbrev thread_of : Kernel → Option ℕ → Option ℕ → Kernel
thread_of k (some pid) (some tid) = record k { tid_pid = upsert tid pid (λ old. pid) k.tid_pid }
thread_of k _ _ = k

unfoldable pub on_thread : Kernel → List ℕ → Kernel
on_thread k d = thread_of k (rd_u32 d 0) (rd_u32 d 4)

abbrev sample_of : Kernel → At → Option ℕ → Option ℕ → Kernel
sample_of k at (some ip) (some tid) = record k {
  rings = record k.rings {
    samples = k.rings.samples ++ record { ts = at.ts; cpu = at.cpu; tid = tid; ip = ip } ∷ [];
  };
}
sample_of k at _ _ = k

unfoldable pub on_sample : Kernel → At → List ℕ → Kernel
on_sample k at d = sample_of k at (rd_u64 d 0) (rd_u32 d 8)
