-- ===== src/Lib.antt =====
-- WTFIsStalling watches a Windows PC for stalls and says what caused them. Its measuring threads
-- note late wake-ups, event traces of the kernel and of the storage port driver fill bounded rings,
-- and the analyzer reads windows of those rings when a moment was flagged. This library models the
-- parts that decide what a report may claim: what the rings hold and admit to have lost, how the
-- time of a slow disk request is split, why a measuring thread was late, and which events are
-- folded into a roll-up.
--
-- Parts, and the files that model them:
--
--   src/storport/mod.rs, src/storport/events.rs: the storage trace. `handle` takes one event into
--     `StorInner`: it counts it, prunes by the newest time seen, and pushes a request, a retry or a
--     reset. Storport/Types has the records, Storport/Ring the state and its operations,
--     Storport/Events the handler, Storport/Report the window and the report. Storport/Decode is an
--     independent reading of an event, over which Storport/Cover, Storport/Retries,
--     Storport/Totals, Storport/Bounds and Storport/Reads are proved; Storport/Refinement holds the
--     ring against the log of all requests, and Storport/Progress is about `caught_up`.
--   src/storport/split.rs: Split/Union (`union_len`), Split/Correlate (`split_of`, `correlate`),
--     Split/Totals (`SplitTotals`); proofs in Split/Measure, Split/Time and Split/Adding.
--   src/state.rs: State/Records has the records of the kernel trace and State/Rings the rings of
--     `Inner` with `push_switch`, `push_ready`, `switches_cover`, `switch_window`, `stuck_records`
--     and `prune`, and the part of `handle_event` in src/etw/events.rs that moves the clock (`hear`)
--     and pushes switches and wake-ups (`on_seen`). Proofs in State/Losses, State/Reach,
--     State/Steps, State/Covered and State/Windows.
--     State/Tables has the tables of a whole run, and State/Callback the branches of `handle_event`
--     that fill them and the other rings; proofs in State/Waits and State/Notes.
--   src/diskwait.rs: DiskWait (`role_of`, `explain`); proofs in DiskWait/Explain.
--   src/switches.rs: Switches/Held (`held_by`), Switches/Probe (`classify_probe`),
--     Switches/Verdict (`ProbeVerdict`, `judge_probes`), Switches/Waits (`merged`, `waits`); proofs
--     in Switches/Late, Switches/Agreement and Switches/Merging.
--   src/quiet.rs: Quiet/Model (`Quieter`); proofs in Quiet/Accounting and Quiet/Flush.
--   src/diskstuck.rs: DiskStuck (`stuck_behind`, `lock_chains`), DiskStuck/Programs (`classify`,
--     `thrash`, `by_program`, `bump`); proofs in DiskStuck/Behind, DiskStuck/Sound,
--     DiskStuck/Chains, DiskStuck/Named and DiskStuck/Tallies. Switches/Reasons has the wait
--     reasons, Files the functions of src/files.rs that are used.
--   src/stacks.rs: Stacks/Set (`StackSet`), Stacks/Walk (`parse`), Stacks/Keep and Stacks/Track
--     (`StackState` and its queues), Stacks/Events (what each event does to it), Stacks/Pick
--     (`wait_stack`, `module_path`). Stacks/Run is a session of events; proofs in
--     Stacks/Set/RoundTrip, Stacks/Walk/Frames, Stacks/Walk/Packed, Stacks/Run/Counting,
--     Stacks/Run/Bounded and Stacks/Run/Issued.
--   src/gputrace/mod.rs, src/gputrace/events.rs: Gpu (`GpuInner`), Gpu/Events (`handle`),
--     Gpu/Cadence and Gpu/Window; proofs in Gpu/Cadence and Gpu/Refresh.
--   src/intr.rs: Intr (`slices_covered`); proofs in Intr/Tenths and Intr/Slices.
--   src/etw/layout.rs: Layout (`field_offsets`, `read_uint`); lemmas in Layout/Reading.
--   src/util.rs: Util (`ms_to_ticks`). Cut has the binary search and the window of a ring.
--   Base has lists, integers and maps; Tests runs the theorems at concrete inputs.
--
-- How the code is modelled:
--
--   State is passed explicitly: an operation on `&mut self` takes the state and returns the new
--   one. A `u32` or `u64` counter wraps (`u32`, `u64`), as it does in a release build; an `i64` is
--   an integer with `+i64` and `-i64` wrapping at 64 bits (Base/Int). `IsTick` says that a time is
--   below 2^60 either way, within which those sums are exact. `freq` is `qpc_freq()`, which Windows
--   reports. `ms_to_ticks` is used at whole milliseconds, where its floating-point product is exact
--   for any frequency in use; `idle / span >= 0.9` is compared as 10 idle >= 9 span. A `HashMap` is
--   an association list with one entry per key (Base/Assoc); the order of its entries shows only
--   where the code sorts them afterwards, or takes one of several equal maxima. `partition_point`
--   of the standard library is a parameter, of which the windows need what is documented: in a
--   partitioned list it finds the partition point. The pointer type of the Windows headers is a
--   parameter of Layout, and what `manifest::resolve` found for an event is an argument of `handle`.
--   Every loop is a recursion on the list it runs over, so nothing needs fuel. Milliseconds that the
--   graphics trace adds up or compares in doubles stand as ticks. A text is a list of characters;
--   where the code splits, trims or lowers it, that is written out.
--
-- Not modelled: the Windows API and what is built directly on it (sessions, callbacks, probes,
-- device and disk queries), the text of the report, the analyzer, the comparison with a baseline,
-- the other tables of `Inner`, and the two programs.
pub mod Base
pub mod Util
pub mod Cut
pub mod Layout
pub mod State
pub mod DiskWait
pub mod Gpu
pub mod Intr
pub mod Files
pub mod DiskStuck
pub mod Quiet
pub mod Switches
pub mod Stacks
pub mod Storport
pub mod Split
mod Tests
