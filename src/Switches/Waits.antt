-- ===== src/Switches/Waits.antt =====
-- src/switches.rs: who was kept waiting.
use wtfis_stalling.Base.{
  ℕ, Bool, true, false, not, ◌&&◌, ◌||◌, Option, none, some, List, [], ◌∷◌, ◌++◌, ltb, leb, ◌==◌,
  if◌then◌else◌, filter, length, take, map,
}
use wtfis_stalling.Base.Int.{ℤ, pos, ltb_ℤ, leb_ℤ, max_ℤ, ◌-i64◌}
use wtfis_stalling.Base.Assoc.{nat_eq, lookup, remove, upsert, or_default}
use wtfis_stalling.Base.Sort.{sort}
use wtfis_stalling.State.Records.{SwitchRec, ReadyRec, waker}
use wtfis_stalling.Switches.Held.{idle_tid}

pub record ThreadWait : Type 0 where
  pub tid : ℕ
  pub ready : ℤ
  pub ready_cpu : ℕ
  pub ready_from : ℤ
  pub ready_to : ℤ
  pub blocked : ℤ
  pub blocked_reason : ℤ
  pub woken_by : Option ℕ

abbrev new_wait : ℕ → ThreadWait
new_wait tid = record {
  tid = tid;
  ready = pos 0;
  ready_cpu = 0;
  ready_from = pos 0;
  ready_to = pos 0;
  blocked = pos 0;
  blocked_reason = pos 0;
  woken_by = none;
}

unfoldable pub worst : ThreadWait → ℤ
unfolding max_ℤ
worst w = max_ℤ w.ready w.blocked

pub record Live : Type 0 where
  pub ready_since : Option ℤ
  pub blocked_since : Option (ℤ × ℤ)
  pub cpu : ℕ

abbrev no_state : Live
no_state = record { ready_since = none; blocked_since = none; cpu = 0 }

pub data Step : Type 0 where
  switch : SwitchRec → Step
  ready : ReadyRec → Step

-- One switch into the merged stream, after the wake-ups that are not later; a tie goes to those.
unfoldable pub readies_before : ℤ → List ReadyRec → List Step
readies_before ts [] = []
readies_before ts (r ∷ rd) =
    let rest = readies_before ts rd in if leb_ℤ r.ts ts then ready r ∷ rest else []

unfoldable pub readies_after : ℤ → List ReadyRec → List ReadyRec
readies_after ts [] = []
readies_after ts (r ∷ rd) = let rest = readies_after ts rd in if leb_ℤ r.ts ts then rest else r ∷ rd

unfoldable pub merge_steps : List SwitchRec → List ReadyRec → List Step
unfolding readies_before readies_after
merge_steps [] rd = map ready rd
merge_steps (s ∷ sw) rd =
    readies_before s.ts rd ++ switch s ∷ merge_steps sw (readies_after s.ts rd)

unfoldable pub merged : List SwitchRec → List ReadyRec → ℤ → ℤ → List Step
unfolding merge_steps
merged sw rd from to =
    merge_steps (filter (λ (s : SwitchRec). leb_ℤ from s.ts && leb_ℤ s.ts to) sw)
      (filter (λ (r : ReadyRec). leb_ℤ from r.ts && leb_ℤ r.ts to) rd)

abbrev max_threads : ℕ
max_threads = 20000

-- What is known of the threads, and the worst waits so far.
pub record Walk : Type 0 where
  pub live : List (ℕ × Live)
  pub rows : List (ℕ × ThreadWait)

abbrev is_some {ℓ} : {A : Type ℓ} → Option A → Bool
is_some none = false
is_some (some a) = true

-- `track`: is there room for the thread?
unfoldable pub has_room : List (ℕ × Live) → ℕ → Bool
has_room live tid = ltb (length live) max_threads || is_some (lookup tid live)

abbrev state_of : List (ℕ × Live) → ℕ → Live
state_of live tid = or_default no_state (lookup tid live)

abbrev or_now : Option ℤ → ℤ → Option ℤ
or_now none ts = some ts
or_now (some since) ts = some since

abbrev end_block : Option (ℤ × ℤ) → ReadyRec → List (ℕ × ThreadWait) → List (ℕ × ThreadWait)
end_block none r rows = rows
end_block (some (since, reason)) r rows =
    let span = r.ts -i64 since in
    upsert r.tid (new_wait r.tid)
      (λ w.
        if ltb_ℤ (pos 0) span && ltb_ℤ w.blocked span
        then record w { blocked = span; blocked_reason = reason; woken_by = waker r }
        else w)
      rows

unfoldable pub on_ready : Walk → ReadyRec → Walk
unfolding has_room
on_ready k r =
    let state = state_of k.live r.tid in
    if r.tid == idle_tid || not (has_room k.live r.tid) then k else record {
      live =
          upsert r.tid no_state
            (λ s. record s { blocked_since = none; ready_since = or_now s.ready_since r.ts })
            k.live;
      rows = end_block state.blocked_since r k.rows;
    }

abbrev end_ready : Option ℤ → SwitchRec → List (ℕ × ThreadWait) → List (ℕ × ThreadWait)
end_ready none s rows = rows
end_ready (some since) s rows =
    let span = s.ts -i64 since in
    upsert s.new_tid (new_wait s.new_tid)
      (λ w.
        if ltb_ℤ (pos 0) span && ltb_ℤ w.ready span
        then record w { ready = span; ready_cpu = s.cpu; ready_from = since; ready_to = s.ts }
        else w)
      rows

-- The thread that is switched in.
unfoldable pub switch_in : Walk → SwitchRec → Walk
unfolding has_room
switch_in k s =
    let state = state_of k.live s.new_tid in
    if s.new_tid == idle_tid || not (has_room k.live s.new_tid) then k else record {
      live =
          upsert s.new_tid no_state
            (λ x. record x { ready_since = none; blocked_since = none; cpu = s.cpu }) k.live;
      rows = end_ready state.ready_since s k.rows;
    }

abbrev eq_ℤ : ℤ → ℤ → Bool
eq_ℤ a b = leb_ℤ a b && leb_ℤ b a

-- Waiting is 5; ready, standby and deferred ready are 1, 3 and 7.
unfoldable pub switched_off : SwitchRec → Live → Live
switched_off s x =
    if eq_ℤ s.old_state (pos 5)
    then record x {
      cpu = s.cpu;
      blocked_since = some (s.ts, s.old_wait_reason);
      ready_since = none;
    }
    else if eq_ℤ s.old_state (pos 1) || eq_ℤ s.old_state (pos 3) || eq_ℤ s.old_state (pos 7)
    then record x { cpu = s.cpu; blocked_since = none; ready_since = some s.ts }
    else record x { cpu = s.cpu; blocked_since = none; ready_since = none }

-- The thread that is switched out; 4 is a thread that ended.
unfoldable pub switch_out : Walk → SwitchRec → Walk
unfolding has_room switched_off
switch_out k s =
    if s.old_tid == idle_tid
    then k
    else if eq_ℤ s.old_state (pos 4)
    then record k { live = remove s.old_tid k.live }
    else if has_room k.live s.old_tid
    then record k { live = upsert s.old_tid no_state (switched_off s) k.live }
    else k

unfoldable pub walk : Walk → List Step → Walk
unfolding on_ready switch_in switch_out
walk k [] = k
walk k (ready r ∷ steps) = walk (on_ready k r) steps
walk k (switch s ∷ steps) = walk (switch_out (switch_in k s) s) steps

-- Worst first, then by the thread's id.
unfoldable pub wait_le : ThreadWait → ThreadWait → Bool
unfolding worst
wait_le a b = ltb_ℤ (worst b) (worst a) || leb_ℤ (worst b) (worst a) && leb a.tid b.tid

abbrev pub max_rows : ℕ
max_rows = 512

abbrev pub waited : ThreadWait → Bool
waited w = ltb_ℤ (pos 0) (worst w)

unfoldable pub waits : List SwitchRec → List ReadyRec → ℤ → ℤ → List ThreadWait
unfolding merged walk wait_le
waits sw rd from to =
    let k = walk (record { live = []; rows = [] }) (merged sw rd from to) in
    take max_rows (sort wait_le (filter waited (map (λ e. e.1) k.rows)))
