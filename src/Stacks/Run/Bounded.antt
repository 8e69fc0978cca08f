-- ===== src/Stacks/Run/Bounded.antt =====
-- What is kept stays within its bounds.
use wtfis_stalling.Base.{
  ℕ, ◌+◌, ◌≡◌, ◌≤◌, refl, arith, Bool, true, false, not, ◌&&◌, ◌||◌, Option, none, some, List, [],
  ◌∷◌, if◌then◌else◌, leb, u64, length, length-drop_while-le, Bool-cases, inl, inr, Option-cases,
  of_bool, ◌==◌, max,
}
use wtfis_stalling.Base.Int.{ℤ, ltb_ℤ, leb_ℤ, ◌-i64◌}
use wtfis_stalling.Base.Assoc.{nat_eq, lookup, remove, upsert}
use wtfis_stalling.State.Records.{SwitchRec}
use wtfis_stalling.Layout.{is_some}
use wtfis_stalling.Switches.Probe.{eq_ℤ, state_waiting}
use wtfis_stalling.Stacks.Set.{Kind, c_switch, ready, disk_init, fault, has}
use wtfis_stalling.Stacks.Walk.{RawStack}
use wtfis_stalling.Stacks.Keep.{
  from_raw, Want, ignore, disk_init_of, fault_of, switch_in, readied, IoStack, Pending, io_init_cap,
  slow_io_cap, fault_cap,
}
use wtfis_stalling.Stacks.Track.{StackState, pend, take}
use wtfis_stalling.Stacks.Events.{
  track_init, on_disk_init, keep_slow, on_disk_done, on_fault, note_off, on_switch, on_ready,
  sample, keep, on_stack, deliver, prune, IoStart, attach_stack, count_done, io_stack_of,
  count_stack,
}
use wtfis_stalling.Stacks.Run.{
  Event, began, done, faulted, switched, woken, stacked, pruned, on_event, run,
}
use wtfis_stalling.Stacks.Track.Few.{Slots, AreFew, pend-few, take-few}
use wtfis_stalling.Stacks.Track.Lengths.{
  push_capped-length, length-upsert-some, length-upsert-le, length-remove-le, length-filter-le,
}

pub record IsBounded (s : StackState) : Type 0 where
  pub pending : AreFew s.per_cpu
  pub io_init : length s.io_init ≤ io_init_cap
  pub slow_io : length s.slow_io ≤ slow_io_cap
  pub faults : length s.faults ≤ fault_cap
  pub switch_ins : length s.switch_ins ≤ max s.switch_cap 1
  pub readies : length s.readies ≤ max s.ready_cap 1

-- The rings and their caps are the same in two states.
record SameRings (s t : StackState) : Type 0 where
  io_init : t.io_init ≡ s.io_init
  slow_io : t.slow_io ≡ s.slow_io
  faults : t.faults ≡ s.faults
  switch_ins : t.switch_ins ≡ s.switch_ins
  readies : t.readies ≡ s.readies
  switch_cap : t.switch_cap ≡ s.switch_cap
  ready_cap : t.ready_cap ≡ s.ready_cap

SameRings-IsBounded :
    (s t : StackState) → SameRings s t → AreFew t.per_cpu → IsBounded s → IsBounded t
SameRings-IsBounded s t e few h = record {
  pending = few;
  io_init = rw e.io_init h.io_init;
  slow_io = rw e.slow_io h.slow_io;
  faults = rw e.faults h.faults;
  switch_ins = rw (e.switch_ins, e.switch_cap) h.switch_ins;
  readies = rw (e.readies, e.ready_cap) h.readies;
}

pend-SameRings : (s : StackState) (cpu : ℕ) (p : Pending) → SameRings s (pend s cpu p)
unfolding pend
pend-SameRings s cpu p = ground arith

pend-IsBounded : (s : StackState) (cpu : ℕ) (p : Pending) → IsBounded s → IsBounded (pend s cpu p)
pend-IsBounded s cpu p h =
    SameRings-IsBounded s (pend s cpu p) (pend-SameRings s cpu p) (pend-few s cpu p h.pending) h

if-IsBounded :
    (s t : StackState) (b : Bool) → IsBounded s → IsBounded t → IsBounded (if b then s else t)
if-IsBounded s t true h k = h
if-IsBounded s t false h k = k

track_init-IsBounded :
    (s : StackState) (ts : ℤ) (irp : ℕ) → IsBounded s → IsBounded (track_init s ts irp).0
unfolding track_init
track_init-IsBounded s ts irp h = elim (Bool-cases (irp == 0)) [
  | inl t ↦ rw (t, if◌then◌else◌) h
  | inr f ↦
      elim (Bool-cases
        (leb io_init_cap (length s.io_init) && not (is_some (lookup irp s.io_init)))) [
          | inl full ↦
              rw (f, full, if◌then◌else◌)
                (record {
                  pending = h.pending;
                  io_init = h.io_init;
                  slow_io = h.slow_io;
                  faults = h.faults;
                  switch_ins = h.switch_ins;
                  readies = h.readies;
                })
          | inr room ↦
              rw (f, room, if◌then◌else◌)
                (record {
                  pending = h.pending;
                  io_init = elim (Option-cases (lookup irp s.io_init)) [
                    | inl new ↦ ground (
                      arith,
                      new,
                      room,
                      length-upsert-le irp (ts, none) (λ e. (ts, none)) s.io_init,
                    )
                    | inr (e, old) ↦ omega (
                      arith,
                      h.io_init,
                      length-upsert-some irp (ts, none) e (λ e. (ts, none)) s.io_init old,
                    )
                  ];
                  slow_io = h.slow_io;
                  faults = h.faults;
                  switch_ins = h.switch_ins;
                  readies = h.readies;
                })
        ]
]

keep_slow-IsBounded :
    (s : StackState) (end : ℤ) (irp : ℕ) (what : IoStack)
    → IsBounded s
    → IsBounded (keep_slow s end irp what)
unfolding keep_slow
keep_slow-IsBounded s end irp what h = record {
  pending = h.pending;
  io_init = h.io_init;
  slow_io = push_capped-length s.slow_io (end, (irp, what)) slow_io_cap (λ r. r.0) s.lost_slow_io;
  faults = h.faults;
  switch_ins = h.switch_ins;
  readies = h.readies;
}

attach_stack-IsBounded :
    (s : StackState) (irp : ℕ) (ts : ℤ) (raw : RawStack) (e : Option IoStart)
    → lookup irp s.io_init ≡ e
    → IsBounded s
    → IsBounded (attach_stack s irp ts raw e).0
unfolding attach_stack
attach_stack-IsBounded s irp ts raw none l h = h
attach_stack-IsBounded s irp ts raw (some (when, old)) l h = elim (Bool-cases (eq_ℤ when ts)) [
  | inl t ↦
      rw (t, if◌then◌else◌)
        (record {
          pending = h.pending;
          io_init =
              rw
                (length-upsert-some irp (when, some (from_raw raw)) (when, old)
                  (λ e. (e.0, some (from_raw raw))) s.io_init l)
                h.io_init;
          slow_io = h.slow_io;
          faults = h.faults;
          switch_ins = h.switch_ins;
          readies = h.readies;
        })
  | inr f ↦ rw (f, if◌then◌else◌) h
]

keep-IsBounded :
    (s : StackState) (p : Pending) (want : Want) (raw : RawStack)
    → IsBounded s
    → IsBounded (keep s p want raw).0
unfolding keep
keep-IsBounded s p ignore raw h = h
keep-IsBounded s p (disk_init_of irp) raw h = attach_stack-IsBounded s irp p.ts raw _ refl h
keep-IsBounded s p (fault_of start tid) raw h = record {
  pending = h.pending;
  io_init = h.io_init;
  slow_io = h.slow_io;
  faults =
      push_capped-length s.faults
        (record { start = start; end = p.ts; tid = tid; stack = from_raw raw }) fault_cap
        (λ x. x.end) s.lost_faults;
  switch_ins = h.switch_ins;
  readies = h.readies;
}
keep-IsBounded s p (switch_in tid since) raw h = record {
  pending = h.pending;
  io_init = h.io_init;
  slow_io = h.slow_io;
  faults = h.faults;
  switch_ins =
      push_capped-length s.switch_ins
        (record { ts = p.ts; tid = tid; since = since; stack = from_raw raw }) s.switch_cap
        (λ x. x.ts) s.lost_switch_ins;
  readies = h.readies;
}
keep-IsBounded s p (readied tid since) raw h = record {
  pending = h.pending;
  io_init = h.io_init;
  slow_io = h.slow_io;
  faults = h.faults;
  switch_ins = h.switch_ins;
  readies =
      push_capped-length s.readies
        (record { ts = p.ts; tid = tid; since = since; stack = from_raw raw }) s.ready_cap
        (λ x. x.ts) s.lost_readies;
}

sample-SameRings : (s : StackState) (k : Kind) (raw : RawStack) → SameRings s (sample s k raw)
unfolding sample
sample-SameRings s k raw = ground arith

sample-pending : (s : StackState) (k : Kind) (raw : RawStack) → (sample s k raw).per_cpu ≡ s.per_cpu
unfolding sample
sample-pending s k raw = ground arith

deliver-IsBounded :
    (s : StackState) (raw : RawStack) (bytes cpu : ℕ) (taken : Option (Pending × (Slots × Bool)))
    → take s.per_cpu cpu raw.ts raw.tid ≡ taken
    → IsBounded s
    → IsBounded (deliver s raw bytes taken)
unfolding deliver
deliver-IsBounded s raw bytes cpu none e h = SameRings-IsBounded s _ (ground arith) h.pending h
deliver-IsBounded s raw bytes cpu (some (p, (left, elsewhere))) e h =
    let s1 : StackState = record s {
      per_cpu = left;
      counts = count_stack p elsewhere raw bytes s.counts;
    } in
    let few = take-few s.per_cpu left cpu raw.ts raw.tid p elsewhere e h.pending in
    let h1 : IsBounded s1 = SameRings-IsBounded s s1 (ground arith) few h in
    let s2 = sample s1 p.kind raw in
    let h2 : IsBounded s2 =
      SameRings-IsBounded s1 s2 (sample-SameRings s1 p.kind raw)
        (rw (sample-pending s1 p.kind raw) few) h1 in
    let h3 = keep-IsBounded s2 p p.want raw h2 in
    SameRings-IsBounded (keep s2 p p.want raw).0 _ (ground arith) h3.pending h3

note_off-IsBounded :
    (sw : SwitchRec) (ts : ℤ) (s : StackState) → IsBounded s → IsBounded (note_off sw ts s)
note_off-IsBounded sw ts s h =
    if-IsBounded
      (record s {
        off_at =
            upsert sw.old_tid (ts, sw.old_wait_reason) (λ e. (ts, sw.old_wait_reason)) s.off_at;
      })
      s (eq_ℤ sw.old_state state_waiting && not (sw.old_tid == 0))
      (SameRings-IsBounded s _ (ground arith) h.pending h) h

on_event-IsBounded :
    (freq : ℕ) (s : StackState) (e : Event) → IsBounded s → IsBounded (on_event freq s e)
unfolding on_event on_disk_init on_disk_done on_fault on_switch on_ready on_stack prune
on_event-IsBounded freq s (began ts cpu header_tid irp issuer) h =
    if-IsBounded _ s (has s.set disk_init)
      (pend-IsBounded _ cpu _ (track_init-IsBounded s ts irp h)) h
on_event-IsBounded freq s (done end irp slow) h =
    let start = lookup irp s.io_init in
    let s' : StackState = record s {
      io_init = remove irp s.io_init;
      counts = count_done start s.counts;
    } in
    let h' : IsBounded s' = record {
      pending = h.pending;
      io_init = omega (arith, h.io_init, length-remove-le irp s.io_init);
      slow_io = h.slow_io;
      faults = h.faults;
      switch_ins = h.switch_ins;
      readies = h.readies;
    } in
    if-IsBounded s _ (not (has s.set disk_init) || irp == 0) h
      (if-IsBounded _ s' slow (keep_slow-IsBounded s' end irp (io_stack_of start) h') h')
on_event-IsBounded freq s (faulted ts cpu header_tid start tid) h =
    if-IsBounded _ s (has s.set fault) (pend-IsBounded s cpu _ h) h
on_event-IsBounded freq s (switched ts cpu header_tid sw) h =
    let s' : StackState = record s { off_at = remove sw.new_tid s.off_at } in
    let h' : IsBounded s' = SameRings-IsBounded s s' (ground arith) h.pending h in
    let h'' = if-IsBounded _ s' (has s.set c_switch) (pend-IsBounded s' cpu _ h') h' in
    if-IsBounded s _ (not (has s.set c_switch) && not (has s.set ready)) h
      (note_off-IsBounded sw ts _ h'')
on_event-IsBounded freq s (woken ts cpu header_tid tid) h =
    if-IsBounded _ s (has s.set ready) (pend-IsBounded s cpu _ h) h
on_event-IsBounded freq s (stacked cpu raw bytes) h =
    let s0 : StackState = record s {
      counts = record s.counts { ragged = u64 (s.counts.ragged + of_bool raw.ragged) };
    } in
    deliver-IsBounded s0 raw bytes cpu (take s0.per_cpu cpu raw.ts raw.tid) refl
      (SameRings-IsBounded s s0 (ground arith) h.pending h)
on_event-IsBounded freq s (pruned latest keep switch_keep) h =
    let cut = latest -i64 keep in
    let switch_cut = latest -i64 switch_keep in
    record {
      pending = h.pending;
      io_init = omega (arith, h.io_init, length-filter-le (λ e. leb_ℤ cut e.1.0) s.io_init);
      slow_io = omega (arith, h.slow_io, length-drop_while-le (λ r. ltb_ℤ r.0 cut) s.slow_io);
      faults = omega (arith, h.faults, length-drop_while-le (λ r. ltb_ℤ r.end cut) s.faults);
      switch_ins =
          omega
            (arith, h.switch_ins, length-drop_while-le (λ r. ltb_ℤ r.ts switch_cut) s.switch_ins);
      readies =
          omega (arith, h.readies, length-drop_while-le (λ r. ltb_ℤ r.ts switch_cut) s.readies);
    }

-- From a state within its bounds, whatever the events: each processor has at most four events that
-- wait for their stack, and the requests that are tracked and the rings stay within their caps.
pub run-IsBounded :
    (freq : ℕ) (s : StackState) (es : List Event) → IsBounded s → IsBounded (run freq s es)
unfolding run
run-IsBounded freq s [] h = h
run-IsBounded freq s (e ∷ es) h =
    run-IsBounded freq (on_event freq s e) es (on_event-IsBounded freq s e h)
