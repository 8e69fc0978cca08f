-- ===== src/Tests/DiskStuck.antt =====
-- A slow request, a thread that waited for it, and one that waited for that thread.
use wtfis_stalling.Base.{
  ℕ, ◌≡◌, ◌≤◌, refl, ◌&&◌, ◌==◌, none, some, List, [], ◌∷◌, any, All, length, u32,
}
use wtfis_stalling.Base.Int.{ℤ, pos}
use wtfis_stalling.Base.Assoc.{nat_eq, lookup, upsert}
use wtfis_stalling.State.Records.{IoRec, SwitchRec, ReadyRec}
use wtfis_stalling.DiskStuck.{Stuck, stuck_behind, lock_chains, near_end, has_tid}
use wtfis_stalling.DiskStuck.Behind.{
  woke_stuck, AreDistinct, AreRanked, stuck_behind-has_tid, stuck_behind-ordered,
}
use wtfis_stalling.DiskStuck.Sound.{IsBehind, stuck_behind_sound}
use wtfis_stalling.DiskStuck.Chains.{IsChained, lock_chains_sound}
use wtfis_stalling.DiskStuck.Programs.{StuckThread, by_program, bump, stack_keys_cap}
use wtfis_stalling.DiskStuck.Named.{AreNamedOnce}
use wtfis_stalling.DiskStuck.Tallies.{
  threads_of, stuck_of, by_program-threads, bump_all, occurrences, bump_all-exact,
}

-- Ten million ticks a second: the request lasts from 1 s to 1.8 s.
abbrev slow : IoRec
slow = record {
  end = pos 18000000;
  dur = pos 8000000;
  file = 1;
  irp = 1;
  offset = pos 0;
  disk = 1;
  tid = 7;
  pid = 100;
  size = 4096;
  irp_flags = 0;
  op = 82;
}

abbrev off : ℤ → ℕ → ℤ → SwitchRec
off ts tid reason = record {
  ts = ts;
  new_tid = 0;
  old_tid = tid;
  cpu = 0;
  new_prio = pos 0;
  old_prio = pos 8;
  old_wait_reason = reason;
  old_wait_mode = pos 0;
  old_state = pos 5;
}

abbrev woken : ℤ → ℕ → ℕ → ℕ → ReadyRec
woken ts tid by flag = record { ts = ts; tid = tid; by_tid = by; cpu = 0; flag = flag }

abbrev sw : List SwitchRec
sw = off (pos 11000000) 51 (pos 9) ∷ off (pos 12000000) 80 (pos 27) ∷ []

abbrev rd : List ReadyRec
rd = woken (pos 18001000) 51 0 1 ∷ woken (pos 18020000) 80 51 0 ∷ []

abbrev the_stuck : List Stuck
the_stuck = record { tid = 51; waited = pos 7001000; reason = pos 9; woke_at = pos 18001000 } ∷ []

stuck_behind-has_tid_example :
    has_tid (stuck_behind 10000000 slow [] sw rd) 51
    ≡ any (λ r. near_end 10000000 slow r && (r.tid == 51 && woke_stuck 10000000 slow [] sw r)) rd
stuck_behind-has_tid_example = stuck_behind-has_tid 10000000 slow [] sw rd 51

stuck_behind-ordered_example :
    AreDistinct (stuck_behind 10000000 slow [] sw rd)
    × AreRanked (stuck_behind 10000000 slow [] sw rd)
stuck_behind-ordered_example = stuck_behind-ordered 10000000 slow [] sw rd

stuck_behind_sound_example :
    All (IsBehind 10000000 slow sw rd) (stuck_behind 10000000 slow [] sw rd)
stuck_behind_sound_example = stuck_behind_sound 10000000 slow [] sw rd

lock_chains_sound_example :
    All (IsChained 10000000 slow the_stuck sw rd) (lock_chains 10000000 slow the_stuck sw rd)
lock_chains_sound_example = lock_chains_sound 10000000 slow the_stuck sw rd

abbrev stuck_threads : List StuckThread
stuck_threads =
    ("b.exe", (pos 40, none)) ∷ ("a.exe", (pos 90, none)) ∷ ("b.exe", (pos 70, none)) ∷ []

by_program-threads_example :
    AreNamedOnce (by_program stuck_threads)
    × (threads_of "b.exe" (by_program stuck_threads) ≡ stuck_of "b.exe" stuck_threads)
by_program-threads_example = by_program-threads "b.exe" stuck_threads

abbrev keys : List ℕ
keys = 3 ∷ 5 ∷ 3 ∷ []

three-twice : lookup 3 (bump_all [] keys) ≡ some 2
unfolding lookup bump_all bump upsert
three-twice = refl

bump_all-exact_example :
    (length (bump_all [] keys) ≤ stack_keys_cap) × (2 ≡ u32 (occurrences 3 keys))
bump_all-exact_example = bump_all-exact keys 3 2 three-twice
