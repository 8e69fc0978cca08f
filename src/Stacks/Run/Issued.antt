-- ===== src/Stacks/Run/Issued.antt =====
-- A request from its start through its stack to its completion: `on_disk_init`, `on_stack`,
-- `on_disk_done` and `slow_io_stack` of src/stacks.rs, one after the other.
use mathlib.Core.Option
use wtfis_stalling.Base.{
  u64, of_bool, ℕ, ◌+◌, ◌≡◌, ◌<◌, refl, sym, ap, ◌∙◌, subst, arith, Bool, true, false, not, ◌&&◌,
  ◌||◌, none, some, List, [], ◌∷◌, ◌++◌, if◌then◌else◌, leb, length, any, ◌==◌, filter,
  filter-append,
}
use wtfis_stalling.Base.Int.{ℤ}
use wtfis_stalling.Base.Assoc.{nat_eq, lookup, remove, upsert, lookup-upsert}
use wtfis_stalling.Stacks.Set.{has, disk_init}
use wtfis_stalling.Stacks.Walk.{RawStack}
use wtfis_stalling.Switches.Probe.{eq_ℤ}
use wtfis_stalling.Layout.{is_some}
use wtfis_stalling.Stacks.Events.{
  track_init, on_disk_init, on_disk_done, keep_slow, on_stack, deliver, keep, sample, attach_stack,
  IoStart, count_stack, io_stack_of, count_done,
}
use wtfis_stalling.Stacks.Track.{hit, push_capped, slots_of, pend, StackState}
use wtfis_stalling.Stacks.Keep.{
  Stack, found, from_raw, Pending, IoStack, disk_init_of, io_init_cap, slow_io_cap,
}
use wtfis_stalling.Stacks.Run.{began, done, stacked, on_event, run}
use wtfis_stalling.Stacks.Pick.{last, slow_io_stack}
use wtfis_stalling.Stacks.Track.Found.{last-shrink, take-pend}

last-append {ℓ} : {A : Type ℓ} (xs : List A) (x : A) → last (xs ++ x ∷ []) ≡ some x
last-append [] x = refl
last-append (y ∷ xs) x = rw (last-append xs x) refl

pend-io_init : (s : StackState) (cpu : ℕ) (p : Pending) → (pend s cpu p).io_init ≡ s.io_init
unfolding pend
pend-io_init s cpu p = ground arith

pend-set : (s : StackState) (cpu : ℕ) (p : Pending) → (pend s cpu p).set ≡ s.set
unfolding pend
pend-set s cpu p = ground arith

sample-io_init :
    (s : StackState) (p : Pending) (raw : RawStack) → (sample s p.kind raw).io_init ≡ s.io_init
unfolding sample
sample-io_init s p raw = ground arith

sample-set : (s : StackState) (p : Pending) (raw : RawStack) → (sample s p.kind raw).set ≡ s.set
unfolding sample
sample-set s p raw = ground arith

-- A request that is tracked: what is known of it, and that stacks of requests are asked for.
record IsTracked (irp : ℕ) (start : IoStart) (s : StackState) : Type 0 where
  asked : has s.set disk_init ≡ true
  start_is : lookup irp s.io_init ≡ some start

attach_stack-IsTracked :
    (s : StackState) (irp : ℕ) (ts : ℤ) (raw : RawStack)
    → IsTracked irp (ts, none) s
    → IsTracked irp (ts, some (from_raw raw)) (attach_stack s irp ts raw (lookup irp s.io_init)).0
unfolding attach_stack
attach_stack-IsTracked s irp ts raw k =
    let now : eq_ℤ ts ts ≡ true = ground arith in
    rw (k.start_is, now, if◌then◌else◌)
      (record {
        asked = k.asked;
        start_is =
            lookup-upsert irp irp (ts, some (from_raw raw)) (λ e. (e.0, some (from_raw raw)))
              s.io_init
            ∙ ground (arith, k.start_is);
      })

-- What came last into the ring of slow requests is what is found for it.
slow_io_stack-last :
    (s : StackState) (rest : List (ℤ × (ℕ × IoStack))) (end : ℤ) (irp : ℕ) (what : IoStack)
    → s.slow_io ≡ rest ++ (end, (irp, what)) ∷ []
    → slow_io_stack s end irp ≡ some what
unfolding slow_io_stack
slow_io_stack-last s rest end irp what e =
    let fits = λ (r : ℤ × (ℕ × IoStack)). eq_ℤ r.0 end && r.1.0 == irp in
    let own : fits (end, (irp, what)) ≡ true = ground arith in
    let kept : filter fits ((end, (irp, what)) ∷ []) ≡ (end, (irp, what)) ∷ [] =
      rw (own, if◌then◌else◌) refl in
    let found_last : last (filter fits s.slow_io) ≡ some (end, (irp, what)) =
      ap (λ q. last (filter fits q)) e
      ∙ ap last (filter-append fits rest ((end, (irp, what)) ∷ []))
      ∙ ap (λ q. last (filter fits rest ++ q)) kept
      ∙ last-append (filter fits rest) (end, (irp, what)) in
    ap (Option.map (λ (r : ℤ × (ℕ × IoStack)). r.1.1)) found_last

keep_slow-slow_io :
    (s : StackState) (end : ℤ) (irp : ℕ) (what : IoStack)
    → (rest : List (ℤ × (ℕ × IoStack))) × ((keep_slow s end irp what).slow_io
        ≡ rest ++ (end, (irp, what)) ∷ [])
unfolding keep_slow push_capped
keep_slow-slow_io s end irp what =
    last-shrink slow_io_cap (λ r. r.0) s.slow_io (end, (irp, what)) s.lost_slow_io

-- The completion of a slow request whose stack came.
done-slow_io_stack :
    (s : StackState) (end ts : ℤ) (irp : ℕ) (stack : Stack)
    → IsTracked irp (ts, some stack) s
    → (irp == 0) ≡ false
    → slow_io_stack (on_disk_done s end irp true) end irp ≡ some (found stack)
unfolding on_disk_done
done-slow_io_stack s end ts irp stack k nz =
    let s' : StackState = record s {
      io_init = remove irp s.io_init;
      counts = count_done (lookup irp s.io_init) s.counts;
    } in
    let (rest, e) = keep_slow-slow_io s' end irp (io_stack_of (lookup irp s.io_init)) in
    let skip : (not (has s.set disk_init) || irp == 0) ≡ false = ground (arith, k.asked, nz) in
    rw (skip, if◌then◌else◌)
      (slow_io_stack-last (keep_slow s' end irp (io_stack_of (lookup irp s.io_init))) rest end irp
          (io_stack_of (lookup irp s.io_init)) e
        ∙ ap (λ o. some (io_stack_of o)) k.start_is)

-- The state with a request's start, and the event that waits for its stack.
abbrev tracking : StackState → ℤ → ℕ → StackState
tracking s ts irp = record s { io_init = upsert irp (ts, none) (λ e. (ts, none)) s.io_init }

abbrev start_of : ℤ → ℕ → ℕ → ℕ → Pending
start_of ts tid irp issuer = record {
  ts = ts;
  header_tid = tid;
  payload_tid = issuer;
  kind = disk_init;
  want = disk_init_of irp;
}

track_init-room :
    (s : StackState) (ts : ℤ) (irp : ℕ)
    → (irp == 0) ≡ false
    → length s.io_init < io_init_cap
    → track_init s ts irp ≡ (tracking s ts irp, disk_init_of irp)
unfolding track_init
track_init-room s ts irp nz room =
    let free : (leb io_init_cap (length s.io_init) && not (is_some (lookup irp s.io_init)))
        ≡ false =
      ground arith in
    rw (nz, free, if◌then◌else◌) refl

on_disk_init-pends :
    (s : StackState) (ts : ℤ) (cpu tid irp issuer : ℕ)
    → has s.set disk_init ≡ true
    → (irp == 0) ≡ false
    → length s.io_init < io_init_cap
    → on_disk_init s ts cpu tid irp issuer
      ≡ pend (tracking s ts irp) cpu (start_of ts tid irp issuer)
unfolding on_disk_init
on_disk_init-pends s ts cpu tid irp issuer asked nz room =
    rw (asked, track_init-room s ts irp nz room, if◌then◌else◌) refl

tracking-IsTracked :
    (s : StackState) (ts : ℤ) (irp : ℕ)
    → has s.set disk_init ≡ true
    → IsTracked irp (ts, none) (tracking s ts irp)
tracking-IsTracked s ts irp asked = record {
  asked = asked;
  start_is = lookup-upsert irp irp (ts, none) (λ e. (ts, none)) s.io_init ∙ ground arith;
}

pend-IsTracked :
    (s : StackState) (irp : ℕ) (start : IoStart) (cpu : ℕ) (p : Pending)
    → IsTracked irp start s
    → IsTracked irp start (pend s cpu p)
pend-IsTracked s irp start cpu p k = record {
  asked = ap (λ n. has n disk_init) (pend-set s cpu p) ∙ k.asked;
  start_is = ap (lookup irp) (pend-io_init s cpu p) ∙ k.start_is;
}

deliver-IsTracked :
    (s : StackState) (raw : RawStack) (bytes : ℕ) (tid irp issuer : ℕ) (left : List (List Pending))
    (elsewhere : Bool)
    → IsTracked irp (raw.ts, none) s
    → IsTracked irp
        (raw.ts, some (from_raw raw))
        (deliver s raw bytes (some (start_of raw.ts tid irp issuer, (left, elsewhere))))
unfolding deliver keep
deliver-IsTracked s raw bytes tid irp issuer left elsewhere k =
    let p = start_of raw.ts tid irp issuer in
    let s1 : StackState = record s {
      per_cpu = left;
      counts = count_stack p elsewhere raw bytes s.counts;
    } in
    let k1 : IsTracked irp (raw.ts, none) (sample s1 p.kind raw) = record {
      asked = ap (λ n. has n disk_init) (sample-set s1 p raw) ∙ k.asked;
      start_is = ap (lookup irp) (sample-io_init s1 p raw) ∙ k.start_is;
    } in
    let k2 = attach_stack-IsTracked (sample s1 p.kind raw) irp raw.ts raw k1 in
    record { asked = k2.asked; start_is = k2.start_is }

-- The stack that comes right after the start it belongs to.
on_stack-IsTracked :
    (s : StackState) (cpu tid irp issuer : ℕ) (raw : RawStack) (bytes : ℕ)
    → any (hit raw.ts raw.tid) (slots_of s.per_cpu cpu) ≡ false
    → hit raw.ts raw.tid (start_of raw.ts tid irp issuer) ≡ true
    → IsTracked irp (raw.ts, none) s
    → IsTracked irp
        (raw.ts, some (from_raw raw))
        (on_stack (pend s cpu (start_of raw.ts tid irp issuer)) cpu raw bytes)
unfolding on_stack
on_stack-IsTracked s cpu tid irp issuer raw bytes f t k =
    let p = start_of raw.ts tid irp issuer in
    let s1 = pend s cpu p in
    let k1 = pend-IsTracked s irp (raw.ts, none) cpu p k in
    let (left, e) = take-pend s cpu p raw.ts raw.tid f t in
    let s2 : StackState = record s1 {
      counts = record s1.counts { ragged = u64 (s1.counts.ragged + of_bool raw.ragged) };
    } in
    let k2 : IsTracked irp (raw.ts, none) s2 = record {
      asked = k1.asked;
      start_is = k1.start_is;
    } in
    subst (λ o. IsTracked irp (raw.ts, some (from_raw raw)) (deliver s2 raw bytes o)) (sym e)
      (deliver-IsTracked s2 raw bytes tid irp issuer left false k2)

-- For a request whose number is not zero, where disk starts are asked for, the table has room, nothing
-- on the processor waits for the same stack and the stack is of the header's or the issuing thread: if
-- it starts, its stack then comes at the time of the start on the same processor, and it then
-- completes slowly, it is explained by that very stack.
pub run-slow_io_stack :
    (freq : ℕ) (s : StackState) (cpu tid irp issuer : ℕ) (raw : RawStack) (bytes : ℕ) (end : ℤ)
    → has s.set disk_init ≡ true
    → (irp == 0) ≡ false
    → length s.io_init < io_init_cap
    → any (hit raw.ts raw.tid) (slots_of s.per_cpu cpu) ≡ false
    → (tid == raw.tid || issuer == raw.tid && not (raw.tid == 0)) ≡ true
    → slow_io_stack
        (run freq s
          (began raw.ts cpu tid irp issuer ∷ stacked cpu raw bytes ∷ done end irp true ∷ []))
        end
        irp
      ≡ some (found (from_raw raw))
unfolding run on_event hit
run-slow_io_stack freq s cpu tid irp issuer raw bytes end asked nz room f own =
    let p = start_of raw.ts tid irp issuer in
    let now : eq_ℤ raw.ts raw.ts ≡ true = ground arith in
    let t : hit raw.ts raw.tid p ≡ true =
      ap (λ b. b && (tid == raw.tid || issuer == raw.tid && not (raw.tid == 0))) now ∙ own in
    let s1 = tracking s raw.ts irp in
    let k =
      on_stack-IsTracked s1 cpu tid irp issuer raw bytes f t
        (tracking-IsTracked s raw.ts irp asked) in
    ap (λ x. slow_io_stack (on_disk_done (on_stack x cpu raw bytes) end irp true) end irp)
      (on_disk_init-pends s raw.ts cpu tid irp issuer asked nz room)
    ∙ done-slow_io_stack (on_stack (pend s1 cpu p) cpu raw bytes) end raw.ts irp (from_raw raw) k nz
