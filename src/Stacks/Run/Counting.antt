-- ===== src/Stacks/Run/Counting.antt =====
-- Every stack event that arrives is counted once.
use wtfis_stalling.Base.{
  ℕ, ◌+◌, ◌≡◌, refl, ap, ◌∙◌, arith, Bool, true, false, not, ◌&&◌, Option, none, some, List, [],
  ◌∷◌, ◌++◌, if◌then◌else◌, ltb, u64, length, Bool-cases, inl, inr, Option-cases, head?, of_bool,
  ◌==◌,
}
use wtfis_stalling.Base.Int.{ℤ}
use wtfis_stalling.Base.Assoc.{nat_eq, lookup, remove}
use wtfis_stalling.State.Records.{SwitchRec}
use wtfis_stalling.Stacks.Set.{Kind, c_switch, ready, disk_init, fault, has}
use wtfis_stalling.Stacks.Walk.{RawStack}
use wtfis_stalling.Stacks.Keep.{
  Want, ignore, disk_init_of, fault_of, switch_in, readied, found, no_stack, no_init, IoStack,
  Pending, pending_per_cpu, PerKind, KindCount, Counts, add, modify, sum_kinds, total,
}
use wtfis_stalling.Stacks.Track.{StackState, pend, take, grow, slots_of, count_overwritten}
use wtfis_stalling.Stacks.Events.{
  track_init, on_disk_init, keep_slow, on_disk_done, on_fault, note_off, on_switch, on_ready,
  sample, keep, count_stack, count_kept, count_owner, on_stack, deliver, prune, count_done,
  io_stack_of, IoStart,
}
use wtfis_stalling.Stacks.Run.{
  Event, began, done, faulted, switched, woken, stacked, pruned, on_event, run,
}

-- The counts of stacks are the same in two states.
record SameStacks (s t : StackState) : Type 0 where
  kinds : t.counts.kinds ≡ s.counts.kinds
  unmatched : t.counts.unmatched ≡ s.counts.unmatched

SameStacks-refl : (s : StackState) → SameStacks s s
SameStacks-refl s = record { kinds = refl; unmatched = refl }

trans : (s t u : StackState) → SameStacks s t → SameStacks t u → SameStacks s u
trans s t u e f = record { kinds = f.kinds ∙ e.kinds; unmatched = f.unmatched ∙ e.unmatched }

if-SameStacks :
    (s t u : StackState) (b : Bool)
    → SameStacks s t
    → SameStacks s u
    → SameStacks s (if b then t else u)
if-SameStacks s t u true e f = e
if-SameStacks s t u false e f = f

overwritten-kinds : (o : Option Pending) (c : Counts) → (count_overwritten o c).kinds ≡ c.kinds
overwritten-kinds none c = refl
overwritten-kinds (some p) c = ground arith

overwritten-unmatched :
    (o : Option Pending) (c : Counts) → (count_overwritten o c).unmatched ≡ c.unmatched
overwritten-unmatched none c = refl
overwritten-unmatched (some p) c = ground arith

pend-SameStacks : (s : StackState) (cpu : ℕ) (p : Pending) → SameStacks s (pend s cpu p)
unfolding pend
pend-SameStacks s cpu p =
    let slots = slots_of (grow s.per_cpu (cpu + 1)) cpu ++ p ∷ [] in
    let k = overwritten-kinds (head? slots) s.counts in
    let u = overwritten-unmatched (head? slots) s.counts in
    elim (Bool-cases (ltb pending_per_cpu (length slots))) [
      | inl t ↦ rw (t, if◌then◌else◌) (record { kinds = k; unmatched = u })
      | inr t ↦ rw (t, if◌then◌else◌) (record { kinds = refl; unmatched = refl })
    ]

track_init-SameStacks : (s : StackState) (ts : ℤ) (irp : ℕ) → SameStacks s (track_init s ts irp).0
unfolding track_init
track_init-SameStacks s ts irp = record { kinds = ground arith; unmatched = ground arith }

keep_slow-SameStacks :
    (s : StackState) (end : ℤ) (irp : ℕ) (what : IoStack) → SameStacks s (keep_slow s end irp what)
unfolding keep_slow
keep_slow-SameStacks s end irp (found stack) = record { kinds = refl; unmatched = refl }
keep_slow-SameStacks s end irp no_stack = record { kinds = refl; unmatched = refl }
keep_slow-SameStacks s end irp no_init = record { kinds = refl; unmatched = refl }

done-SameStacks :
    (s : StackState) (end : ℤ) (irp : ℕ) (slow : Bool) (start : Option IoStart) (b : Bool)
    (io_init : List (ℕ × IoStart))
    → SameStacks s (
        let s' : StackState = record s { io_init = io_init; counts = count_done start s.counts } in
        if b then s else if slow then keep_slow s' end irp (io_stack_of start) else s')
done-SameStacks s end irp slow start true io_init = SameStacks-refl s
done-SameStacks s end irp false none false io_init = record { kinds = refl; unmatched = refl }
done-SameStacks s end irp false (some e) false io_init = record { kinds = refl; unmatched = refl }
done-SameStacks s end irp true none false io_init =
    let k =
      keep_slow-SameStacks (record s { io_init = io_init; counts = count_done none s.counts }) end
        irp no_init in
    record { kinds = k.kinds; unmatched = k.unmatched }
done-SameStacks s end irp true (some e) false io_init =
    let k =
      keep_slow-SameStacks (record s { io_init = io_init; counts = count_done (some e) s.counts })
        end irp (io_stack_of (some e)) in
    record { kinds = k.kinds; unmatched = k.unmatched }

note_off-SameStacks : (sw : SwitchRec) (ts : ℤ) (s : StackState) → SameStacks s (note_off sw ts s)
note_off-SameStacks sw ts s = record { kinds = ground arith; unmatched = ground arith }

keep-SameStacks :
    (s : StackState) (p : Pending) (want : Want) (raw : RawStack)
    → SameStacks s (keep s p want raw).0
unfolding keep
keep-SameStacks s p ignore raw = SameStacks-refl s
keep-SameStacks s p (disk_init_of irp) raw = elim (Option-cases (lookup irp s.io_init)) [
  | inl e ↦ rw e (SameStacks-refl s)
  | inr (e, here) ↦ rw here (record { kinds = ground arith; unmatched = ground arith })
]
keep-SameStacks s p (fault_of start tid) raw = record { kinds = refl; unmatched = refl }
keep-SameStacks s p (switch_in tid since) raw = record { kinds = refl; unmatched = refl }
keep-SameStacks s p (readied tid since) raw = record { kinds = refl; unmatched = refl }

sample-SameStacks : (s : StackState) (k : Kind) (raw : RawStack) → SameStacks s (sample s k raw)
unfolding sample
sample-SameStacks s k raw = record { kinds = ground arith; unmatched = ground arith }

-- One more stack of whatever kind is one more in all.
total-modify :
    (k : Kind) (f : KindCount → KindCount) (n : ℕ) (c : PerKind)
    → ((x : KindCount) → (f x).stacks ≡ u64 (x.stacks + n))
    → sum_kinds (λ x. x.stacks) (modify k f c) ≡ u64 (sum_kinds (λ x. x.stacks) c + n)
unfolding sum_kinds modify
total-modify c_switch f n c h = omega (arith, h c.of_c_switch)
total-modify ready f n c h = omega (arith, h c.of_ready)
total-modify disk_init f n c h = omega (arith, h c.of_disk_init)
total-modify fault f n c h = omega (arith, h c.of_fault)

-- The count of all stacks, carried over a step that changes the counts of the kinds.
total-kinds :
    (c d : Counts) (n : ℕ)
    → sum_kinds (λ x. x.stacks) d.kinds ≡ u64 (sum_kinds (λ x. x.stacks) c.kinds + n)
    → d.unmatched ≡ c.unmatched
    → total d ≡ u64 (total c + n)
unfolding total
total-kinds c d n e f = omega (arith, e, ap (λ (k : KindCount). k.stacks) f)

count_stack-total :
    (p : Pending) (elsewhere : Bool) (raw : RawStack) (bytes : ℕ) (c : Counts)
    → total (count_stack p elsewhere raw bytes c) ≡ u64 (total c + 1)
unfolding count_stack add
count_stack-total p elsewhere raw bytes c =
    total-kinds c (count_stack p elsewhere raw bytes c) 1 (total-modify p.kind _ 1 c.kinds one_more)
      refl
  where
    one_more :
        (k : KindCount)
        → (count_owner (raw.tid == p.header_tid) (add k raw bytes)).stacks ≡ u64 (k.stacks + 1)
    one_more k = ground arith

sum-modify :
    (k : Kind) (f : KindCount → KindCount) (c : PerKind)
    → ((x : KindCount) → (f x).stacks ≡ x.stacks)
    → sum_kinds (λ x. x.stacks) (modify k f c) ≡ sum_kinds (λ x. x.stacks) c
unfolding sum_kinds modify
sum-modify c_switch f c h = omega (arith, h c.of_c_switch)
sum-modify ready f c h = omega (arith, h c.of_ready)
sum-modify disk_init f c h = omega (arith, h c.of_disk_init)
sum-modify fault f c h = omega (arith, h c.of_fault)

count_kept-total : (k : Kind) (b : Bool) (c : Counts) → total (count_kept k b c) ≡ total c
unfolding count_kept total
count_kept-total k b c =
    omega
      (arith, sum-modify k (λ n. record n { kept = u64 (n.kept + of_bool b) }) c.kinds (λ n. refl))

SameStacks-total : (s t : StackState) → SameStacks s t → total t.counts ≡ total s.counts
unfolding total
SameStacks-total s t e = rw (e.kinds, e.unmatched) refl

-- The count with one stack more.
deliver-total :
    (s : StackState) (raw : RawStack) (bytes : ℕ)
    (taken : Option (Pending × (List (List Pending) × Bool)))
    → total (deliver s raw bytes taken).counts ≡ u64 (total s.counts + 1)
unfolding deliver total add
deliver-total s raw bytes none = omega arith
deliver-total s raw bytes (some (p, (left, elsewhere))) =
    let s1 : StackState = record s {
      per_cpu = left;
      counts = count_stack p elsewhere raw bytes s.counts;
    } in
    let s2 = keep (sample s1 p.kind raw) p p.want raw in
    count_kept-total p.kind s2.1 s2.0.counts
    ∙ SameStacks-total (sample s1 p.kind raw) s2.0
        (keep-SameStacks (sample s1 p.kind raw) p p.want raw)
    ∙ SameStacks-total s1 (sample s1 p.kind raw) (sample-SameStacks s1 p.kind raw)
    ∙ count_stack-total p elsewhere raw bytes s.counts

abbrev stacks_of : Event → ℕ
stacks_of (stacked cpu raw bytes) = 1
stacks_of _ = 0

abbrev pub count_stacks : List Event → ℕ
count_stacks [] = 0
count_stacks (e ∷ es) = stacks_of e + count_stacks es

on_stack-total :
    (s : StackState) (cpu : ℕ) (raw : RawStack) (bytes : ℕ)
    → total (on_stack s cpu raw bytes).counts ≡ u64 (total s.counts + 1)
unfolding on_stack
on_stack-total s cpu raw bytes =
    let s0 : StackState = record s {
      counts = record s.counts { ragged = u64 (s.counts.ragged + of_bool raw.ragged) };
    } in
    deliver-total s0 raw bytes (take s0.per_cpu cpu raw.ts raw.tid)
    ∙ ap (λ n. u64 (n + 1)) (SameStacks-total s s0 (record { kinds = refl; unmatched = refl }))

-- An event that brings no stack.
quiet-SameStacks :
    (freq : ℕ) (s : StackState) (e : Event) → stacks_of e ≡ 0 → SameStacks s (on_event freq s e)
unfolding on_event on_disk_init on_disk_done on_fault on_switch on_ready prune
quiet-SameStacks freq s (began ts cpu header_tid irp issuer) h =
    let t = track_init s ts irp in
    if-SameStacks s _ s (has s.set disk_init)
      (trans s t.0 _ (track_init-SameStacks s ts irp) (pend-SameStacks t.0 cpu _))
      (SameStacks-refl s)
quiet-SameStacks freq s (done end irp slow) h =
    done-SameStacks s end irp slow (lookup irp s.io_init) _ _
quiet-SameStacks freq s (faulted ts cpu header_tid start tid) h =
    if-SameStacks s _ s (has s.set fault) (pend-SameStacks s cpu _) (SameStacks-refl s)
quiet-SameStacks freq s (switched ts cpu header_tid sw) h =
    let s' : StackState = record s { off_at = remove sw.new_tid s.off_at } in
    let e : SameStacks s s' = record { kinds = refl; unmatched = refl } in
    let pended =
      if-SameStacks s _ s' (has s.set c_switch) (trans s s' _ e (pend-SameStacks s' cpu _)) e in
    if-SameStacks s s _ (not (has s.set c_switch) && not (has s.set ready)) (SameStacks-refl s)
      (trans s _ _ pended (note_off-SameStacks sw ts _))
quiet-SameStacks freq s (woken ts cpu header_tid tid) h =
    if-SameStacks s _ s (has s.set ready) (pend-SameStacks s cpu _) (SameStacks-refl s)
quiet-SameStacks freq s (stacked cpu raw bytes) h = absurd (omega arith)
quiet-SameStacks freq s (pruned latest keep switch_keep) h = record {
  kinds = refl;
  unmatched = refl;
}

total-u64 : (c : Counts) → total c ≡ u64 (total c + 0)
unfolding total
total-u64 c = omega arith

on_event-total :
    (freq : ℕ) (s : StackState) (e : Event)
    → total (on_event freq s e).counts ≡ u64 (total s.counts + stacks_of e)
unfolding on_event
on_event-total freq s (stacked cpu raw bytes) = on_stack-total s cpu raw bytes
on_event-total freq s e =
    SameStacks-total s (on_event freq s e) (quiet-SameStacks freq s e refl) ∙ total-u64 s.counts

-- Whatever the events, the stacks that are counted, those of the kinds and the unmatched ones, are
-- those there were and one for each stack event, counted in 64 bits.
pub run-total :
    (freq : ℕ) (s : StackState) (es : List Event)
    → total (run freq s es).counts ≡ u64 (total s.counts + count_stacks es)
unfolding run
run-total freq s [] = total-u64 s.counts
run-total freq s (e ∷ es) =
    omega (arith, on_event-total freq s e, run-total freq (on_event freq s e) es)
