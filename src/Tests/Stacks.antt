-- ===== src/Tests/Stacks.antt =====
-- A request whose issuing stack is found, and the theorems on stacks at concrete inputs.
use wtfis_stalling.Base.{
  ℕ, ◌+◌, ◌<◌, ◌≡◌, ◌↔◌, refl, true, false, none, some, List, [], ◌∷◌, arith, head?, u64,
}
use wtfis_stalling.Base.Int.{pos}
use wtfis_stalling.Stacks.Set.{has, ok, unknown_word, parse, names, words}
use wtfis_stalling.Stacks.Set.RoundTrip.{unknown_words, parse-names, parse-unknown}
use wtfis_stalling.Stacks.Walk
use wtfis_stalling.Stacks.Walk.{RawStack}
use wtfis_stalling.Stacks.Walk.Frames.{parse-none}
use wtfis_stalling.Stacks.Walk.Packed.{payload, IsReading, parse-payload}
use wtfis_stalling.Stacks.Track.{new}
use wtfis_stalling.Stacks.Run.{Event, began, done, stacked, run}
use wtfis_stalling.Stacks.Run.Counting.{count_stacks, run-total}
use wtfis_stalling.Stacks.Keep.{total, found, from_raw}
use wtfis_stalling.Stacks.Pick.{slow_io_stack}
use wtfis_stalling.Stacks.Run.Issued.{run-slow_io_stack}
use wtfis_stalling.Stacks.Run.Bounded.{IsBounded, run-IsBounded}

parse-names_example : parse (names 12) ≡ ok 12
parse-names_example = parse-names 12 (omega arith)

parse-unknown_example :
    (parse "fault, disk" ≡ unknown_word "disk")
    ↔ (head? (unknown_words (words "fault, disk")) ≡ some "disk")
parse-unknown_example = parse-unknown "fault, disk" "disk"

parse-none_example : (Walk.parse (1 ∷ 2 ∷ 3 ∷ []) true ≡ none) ↔ (3 < 16)
parse-none_example = parse-none (1 ∷ 2 ∷ 3 ∷ []) true

-- A kernel address and two of a program.
abbrev addrs : List ℕ
addrs = 18446735277616529408 ∷ 4198400 ∷ 140698833649664 ∷ []

parse-payload_example :
    (r : RawStack) × (Walk.parse (payload true 900 4 8 addrs) true ≡ some r)
    × IsReading true 900 4 8 addrs r
parse-payload_example =
    parse-payload true 900 4 8 addrs (omega arith) (omega arith) (omega arith)
      (omega arith, (omega arith, (omega arith, tt))) (omega arith)

abbrev walked : RawStack
walked = record {
  ts = pos 100;
  pid = 4;
  tid = 8;
  kernel = 18446735277616529408 ∷ [];
  frames = 3;
  user_frames = 2;
  ragged = false;
}

-- A request begins, its stack arrives, and it is slow; then a stack that belongs to nothing.
abbrev session : List Event
session =
    began (pos 100) 2 8 7777 0
    ∷ stacked 2 walked 40
    ∷ done (pos 9000) 7777 true
    ∷ stacked 0 walked 40
    ∷ []

run-total_example :
    total (run 10000000 (new 15 8) session).counts
    ≡ u64 (total (new 15 8).counts + count_stacks session)
run-total_example = run-total 10000000 (new 15 8) session

new-IsBounded : IsBounded (new 15 8)
unfolding new
new-IsBounded = record {
  pending = tt;
  io_init = omega arith;
  slow_io = omega arith;
  faults = omega arith;
  switch_ins = omega arith;
  readies = omega arith;
}

run-IsBounded_example : IsBounded (run 10000000 (new 15 8) session)
run-IsBounded_example = run-IsBounded 10000000 (new 15 8) session new-IsBounded

-- The stack is of the thread that issued the request, for another one that the header names.
run-slow_io_stack_example :
    slow_io_stack
      (run 10000000
        (new 15 8)
        (began (pos 100) 2 9 7777 8 ∷ stacked 2 walked 40 ∷ done (pos 9000) 7777 true ∷ []))
      (pos 9000)
      7777
    ≡ some (found (from_raw walked))
unfolding has new
run-slow_io_stack_example =
    run-slow_io_stack 10000000 (new 15 8) 2 9 7777 8 walked 40 (pos 9000) refl refl (omega arith)
      refl refl
