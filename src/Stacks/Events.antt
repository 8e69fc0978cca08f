-- ===== src/Stacks/Events.antt =====
-- src/stacks.rs: what each event does to `StackState`, and what is read from it.
use wtfis_stalling.Base.{
  ℕ, ◌+◌, Bool, true, false, not, ◌&&◌, ◌||◌, Option, none, some, List, [], ◌∷◌, ◌++◌, ltb, leb,
  ◌==◌, if◌then◌else◌, u64, of_bool, length, filter, drop_while,
}
use wtfis_stalling.Base.Int.{ℤ, ltb_ℤ, leb_ℤ, ◌-i64◌}
use wtfis_stalling.Base.Assoc.{nat_eq, lookup, remove, upsert}
use wtfis_stalling.Util.{ms_to_ticks}
use wtfis_stalling.State.Records.{SwitchRec}
use wtfis_stalling.Layout.{is_some}
use wtfis_stalling.Switches.Probe.{state_waiting, eq_ℤ}
use wtfis_stalling.Stacks.Set.{Kind, c_switch, ready, disk_init, fault, has, index}
use wtfis_stalling.Stacks.Walk.{RawStack}
use wtfis_stalling.Stacks.Keep.{
  Stack, from_raw, SwitchInStack, FaultStack, ReadyStack, IoStack, found, no_stack, no_init, Want,
  ignore, disk_init_of, fault_of, switch_in, readied, Pending, KindCount, Counts, add, modify,
  io_init_cap, slow_io_cap, fault_cap, keep_wait_ms,
}
use wtfis_stalling.Stacks.Track.{StackState, push_capped, worth, pend, take}

abbrev pub IoStart : Type 0
IoStart = ℤ × Option Stack

-- What the start of a request is tracked as, and the state that tracks it.
unfoldable pub track_init : StackState → ℤ → ℕ → StackState × Want
track_init s ts irp =
    if irp == 0
    then (s, ignore)
    else if leb io_init_cap (length s.io_init) && not (is_some (lookup irp s.io_init))
    then (
      record s { counts = record s.counts { init_dropped = u64 (s.counts.init_dropped + 1) } },
      ignore,
    )
    else (
      record s { io_init = upsert irp (ts, none) (λ e. (ts, none)) s.io_init },
      disk_init_of irp,
    )

unfoldable pub on_disk_init : StackState → ℤ → ℕ → ℕ → ℕ → ℕ → StackState
unfolding track_init pend
on_disk_init s ts cpu header_tid irp issuer =
    let (s', want) = track_init s ts irp in
    let p : Pending = record {
      ts = ts;
      header_tid = header_tid;
      payload_tid = issuer;
      kind = disk_init;
      want = want;
    } in
    if has s.set disk_init then pend s' cpu p else s

abbrev pub count_done : Option IoStart → Counts → Counts
count_done none c = record c { io_without_init = u64 (c.io_without_init + 1) }
count_done (some e) c = record c { io_with_init = u64 (c.io_with_init + 1) }

abbrev pub io_stack_of : Option IoStart → IoStack
io_stack_of none = no_init
io_stack_of (some (ts, none)) = no_stack
io_stack_of (some (ts, some stack)) = found stack

abbrev pub count_slow : IoStack → Counts → Counts
count_slow (found stack) c = record c { slow_found = u64 (c.slow_found + 1) }
count_slow no_stack c = record c { slow_no_stack = u64 (c.slow_no_stack + 1) }
count_slow no_init c = record c { slow_no_init = u64 (c.slow_no_init + 1) }

unfoldable pub keep_slow : StackState → ℤ → ℕ → IoStack → StackState
unfolding push_capped
keep_slow s end irp what =
    let (q, lost) =
      push_capped s.slow_io (end, (irp, what)) slow_io_cap (λ r. r.0) s.lost_slow_io in
    record s { slow_io = q; lost_slow_io = lost; counts = count_slow what s.counts }

unfoldable pub on_disk_done : StackState → ℤ → ℕ → Bool → StackState
unfolding keep_slow
on_disk_done s end irp slow =
    let start = lookup irp s.io_init in
    let s' = record s { io_init = remove irp s.io_init; counts = count_done start s.counts } in
    if not (has s.set disk_init) || irp == 0
    then s
    else if slow
    then keep_slow s' end irp (io_stack_of start)
    else s'

-- A wait long enough to be worth a stack.
unfoldable pub is_long : ℕ → ℤ → ℤ → Bool
is_long freq ts since = leb_ℤ (ms_to_ticks freq keep_wait_ms) (ts -i64 since)

unfoldable pub on_fault : ℕ → StackState → ℤ → ℕ → ℕ → ℤ → ℕ → StackState
unfolding is_long pend
on_fault freq s ts cpu header_tid start tid =
    let want = if is_long freq ts start then fault_of start tid else ignore in
    let p : Pending = record {
      ts = ts;
      header_tid = header_tid;
      payload_tid = tid;
      kind = fault;
      want = want;
    } in
    if has s.set fault then pend s cpu p else s

abbrev want_back : ℕ → ℤ → ℕ → Option (ℤ × ℤ) → Want
unfolding is_long
want_back freq ts tid none = ignore
want_back freq ts tid (some (since, reason)) =
    if not (tid == 0) && is_long freq ts since && worth reason then switch_in tid since else ignore

-- Who is off a processor, and since when.
abbrev pub note_off : SwitchRec → ℤ → StackState → StackState
note_off sw ts s =
    if eq_ℤ sw.old_state state_waiting && not (sw.old_tid == 0)
    then record s {
      off_at = upsert sw.old_tid (ts, sw.old_wait_reason) (λ e. (ts, sw.old_wait_reason)) s.off_at;
    }
    else s

unfoldable pub on_switch : ℕ → StackState → ℤ → ℕ → ℕ → SwitchRec → StackState
unfolding pend want_back
on_switch freq s ts cpu header_tid sw =
    let back = lookup sw.new_tid s.off_at in
    let s' = record s { off_at = remove sw.new_tid s.off_at } in
    let p : Pending = record {
      ts = ts;
      header_tid = header_tid;
      payload_tid = sw.new_tid;
      kind = c_switch;
      want = want_back freq ts sw.new_tid back;
    } in
    if not (has s.set c_switch) && not (has s.set ready)
    then s
    else note_off sw ts (if has s.set c_switch then pend s' cpu p else s')

abbrev want_readied : ℕ → ℤ → ℕ → Option (ℤ × ℤ) → Want
unfolding is_long
want_readied freq ts tid none = ignore
want_readied freq ts tid (some (since, reason)) =
    if is_long freq ts since && worth reason then readied tid since else ignore

unfoldable pub on_ready : ℕ → StackState → ℤ → ℕ → ℕ → ℕ → StackState
unfolding pend want_readied
on_ready freq s ts cpu header_tid tid =
    let p : Pending = record {
      ts = ts;
      header_tid = header_tid;
      payload_tid = tid;
      kind = ready;
      want = want_readied freq ts tid (lookup tid s.off_at);
    } in
    if has s.set ready then pend s cpu p else s

-- At most two samples of each kind, and none without a kernel frame.
abbrev index_eq : Kind → Kind → Bool
index_eq k j = index k == index j

abbrev of_kind : Kind → List (Kind × (List ℕ × ℕ)) → List (Kind × (List ℕ × ℕ))
of_kind k = filter (λ s. index_eq s.0 k)

unfoldable pub sample : StackState → Kind → RawStack → StackState
sample s k raw =
    if ltb (length (of_kind k s.samples)) 2 && not (length raw.kernel == 0)
    then record s { samples = s.samples ++ (k, (raw.kernel, raw.user_frames)) ∷ [] }
    else s

-- What `get_mut` found for a request.
unfoldable pub attach_stack : StackState → ℕ → ℤ → RawStack → Option IoStart → StackState × Bool
unfolding from_raw
attach_stack s irp ts raw none = (s, false)
attach_stack s irp ts raw (some (began, old)) =
    if eq_ℤ began ts
    then (
      record s {
        io_init =
            upsert irp (began, some (from_raw raw)) (λ e. (e.0, some (from_raw raw))) s.io_init;
      },
      true,
    )
    else (s, false)

-- The stack where it is wanted, and whether it was kept.
unfoldable pub keep : StackState → Pending → Want → RawStack → StackState × Bool
unfolding push_capped attach_stack from_raw
keep s p ignore raw = (s, false)
keep s p (disk_init_of irp) raw = attach_stack s irp p.ts raw (lookup irp s.io_init)
keep s p (fault_of start tid) raw =
    let r : FaultStack = record { start = start; end = p.ts; tid = tid; stack = from_raw raw } in
    let (q, lost) = push_capped s.faults r fault_cap (λ x. x.end) s.lost_faults in
    (record s { faults = q; lost_faults = lost }, true)
keep s p (switch_in tid since) raw =
    let r : SwitchInStack = record { ts = p.ts; tid = tid; since = since; stack = from_raw raw } in
    let (q, lost) = push_capped s.switch_ins r s.switch_cap (λ x. x.ts) s.lost_switch_ins in
    (record s { switch_ins = q; lost_switch_ins = lost }, true)
keep s p (readied tid since) raw =
    let r : ReadyStack = record { ts = p.ts; tid = tid; since = since; stack = from_raw raw } in
    let (q, lost) = push_capped s.readies r s.ready_cap (λ x. x.ts) s.lost_readies in
    (record s { readies = q; lost_readies = lost }, true)

-- Whose thread the stack names.
abbrev pub count_owner : Bool → KindCount → KindCount
count_owner true c = record c { by_header_tid = u64 (c.by_header_tid + 1) }
count_owner false c = record c { by_payload_tid = u64 (c.by_payload_tid + 1) }

unfoldable pub count_stack : Pending → Bool → RawStack → ℕ → Counts → Counts
unfolding modify add
count_stack p elsewhere raw bytes c = record c {
  other_cpu = u64 (c.other_cpu + of_bool elsewhere);
  kinds = modify p.kind (λ k. count_owner (raw.tid == p.header_tid) (add k raw bytes)) c.kinds;
}

unfoldable pub count_kept : Kind → Bool → Counts → Counts
unfolding modify
count_kept k kept c = record c {
  kinds = modify k (λ n. record n { kept = u64 (n.kept + of_bool kept) }) c.kinds;
}

unfoldable pub deliver :
    StackState → RawStack → ℕ → Option (Pending × (List (List Pending) × Bool)) → StackState
unfolding count_stack count_kept sample keep
deliver s raw bytes none = record s {
  counts = record s.counts { unmatched = add s.counts.unmatched raw bytes };
}
deliver s raw bytes (some (p, (left, elsewhere))) =
    let s1 = record s { per_cpu = left; counts = count_stack p elsewhere raw bytes s.counts } in
    let (s2, kept) = keep (sample s1 p.kind raw) p p.want raw in
    record s2 { counts = count_kept p.kind kept s2.counts }

unfoldable pub on_stack : StackState → ℕ → RawStack → ℕ → StackState
unfolding take deliver add
on_stack s cpu raw bytes =
    let s0 = record s {
      counts = record s.counts { ragged = u64 (s.counts.ragged + of_bool raw.ragged) };
    } in
    deliver s0 raw bytes (take s0.per_cpu cpu raw.ts raw.tid)

unfoldable pub prune : StackState → ℤ → ℤ → ℤ → StackState
prune s latest keep switch_keep =
    let cut = latest -i64 keep in
    let switch_cut = latest -i64 switch_keep in
    record s {
      slow_io = drop_while (λ r. ltb_ℤ r.0 cut) s.slow_io;
      faults = drop_while (λ r. ltb_ℤ r.end cut) s.faults;
      switch_ins = drop_while (λ r. ltb_ℤ r.ts switch_cut) s.switch_ins;
      readies = drop_while (λ r. ltb_ℤ r.ts switch_cut) s.readies;
      io_init = filter (λ e. leb_ℤ cut e.1.0) s.io_init;
      off_at = filter (λ e. leb_ℤ switch_cut e.1.0) s.off_at;
    }
