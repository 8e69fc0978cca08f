-- ===== src/DiskStuck.antt =====
-- src/diskstuck.rs: who was stuck behind a slow request.
pub mod Behind
pub mod Sound
pub mod Chains
pub mod Programs
pub mod Named
pub mod Tallies
use wtfis_stalling.Base.{
  ℕ, ◌+◌, ◌*◌, ◌/◌, ◌-◌, Bool, true, false, not, ◌&&◌, ◌||◌, Option, none, some, List, [], ◌∷◌,
  ◌++◌, ltb, leb, ◌==◌, if◌then◌else◌, any, filter, head?, min, length, map,
}
use wtfis_stalling.Base.Int.{ℤ, pos, negsuc, ltb_ℤ, leb_ℤ, ◌-i64◌, ◌+i64◌}
use wtfis_stalling.Base.Sort.{sort}
use wtfis_stalling.Util.{ms_to_ticks}
use wtfis_stalling.State.Records.{IoRec, SwitchRec, ReadyRec, waker}
use wtfis_stalling.Switches.Reasons.{disk_wait, voluntary_wait, lock_wait}
use wtfis_stalling.Switches.Probe.{state_waiting, eq_ℤ}
use wtfis_stalling.Switches.Held.{idle_tid}

abbrev pub ready_after_ms : ℕ
ready_after_ms = 1

abbrev pub stuck_min_ms : ℕ
stuck_min_ms = 10

abbrev pub lock_after_ms : ℕ
lock_after_ms = 20

-- `ms_to_ticks(READY_BEFORE_MS)`: a tenth of a millisecond.
unfoldable pub ready_before : ℕ → ℤ
ready_before freq = pos (min (freq / 10000) 9223372036854775807)

pub record Stuck : Type 0 where
  pub tid : ℕ
  pub waited : ℤ
  pub reason : ℤ
  pub woke_at : ℤ

pub record LockChain : Type 0 where
  pub waiter : ℕ
  pub holder : ℕ
  pub waited : ℤ
  pub woke_at : ℤ

-- `rfind`: the last that passes.
unfoldable pub rfind {ℓ} : {A : Type ℓ} → (A → Bool) → List A → Option A
rfind p [] = none
rfind p (x ∷ xs) = elim (rfind p xs) [ some y ↦ some y | none ↦ if p x then some x else none ]

unfoldable pub takes_off : ℕ → ℤ → SwitchRec → Bool
takes_off tid at s = s.old_tid == tid && leb_ℤ s.ts at

abbrev if_waiting : Option SwitchRec → Option SwitchRec
if_waiting none = none
if_waiting (some s) = if eq_ℤ s.old_state state_waiting then some s else none

unfoldable pub wait_before : List SwitchRec → ℕ → ℤ → Option SwitchRec
unfolding rfind takes_off
wait_before sw tid at = if_waiting (rfind (takes_off tid at) sw)

abbrev pub start_of : IoRec → ℤ
start_of i = i.end -i64 i.dur

abbrev abs_i64 : ℤ → ℤ
abs_i64 z = if ltb_ℤ z (pos 0) then pos 0 -i64 z else z

unfoldable pub same_request : IoRec → IoRec → Bool
same_request slow o =
    eq_ℤ o.end slow.end && eq_ℤ o.dur slow.dur && o.tid == slow.tid && o.disk == slow.disk

-- Another request that the thread may as well have been waiting for.
unfoldable pub is_rival : ℕ → IoRec → SwitchRec → ReadyRec → IoRec → Bool
unfolding same_request
is_rival freq slow off r o =
    not (same_request slow o)
    && leb_ℤ (start_of o) off.ts
    && leb_ℤ o.end (slow.end +i64 ms_to_ticks freq ready_after_ms)
    && leb_ℤ (abs_i64 (o.end -i64 r.ts)) (abs_i64 (slow.end -i64 r.ts))
    && ltb_ℤ off.ts o.end

-- The wake-ups that are looked at.
unfoldable pub near_end : ℕ → IoRec → ReadyRec → Bool
unfolding ready_before
near_end freq slow r =
    leb_ℤ (slow.end -i64 ready_before freq) r.ts
    && leb_ℤ r.ts (slow.end +i64 ms_to_ticks freq ready_after_ms)
    && not (r.tid == idle_tid)

-- The tests on the wait that a wake-up ended, in the order of the loop.
unfoldable pub began_during : IoRec → SwitchRec → Bool
began_during slow off = leb_ℤ (start_of slow) off.ts && ltb_ℤ off.ts slow.end

unfoldable pub may_be_disk : IoRec → SwitchRec → ReadyRec → Bool
unfolding disk_wait voluntary_wait
may_be_disk slow off r =
    disk_wait off.old_wait_reason || r.tid == slow.tid && not (voluntary_wait off.old_wait_reason)

unfoldable pub not_rivalled : ℕ → IoRec → List IoRec → SwitchRec → ReadyRec → Bool
unfolding is_rival
not_rivalled freq slow others off r =
    not (any (is_rival freq slow off r) others && not (r.tid == slow.tid))

unfoldable pub long_enough : ℕ → SwitchRec → ReadyRec → Bool
long_enough freq off r = leb_ℤ (ms_to_ticks freq stuck_min_ms) (r.ts -i64 off.ts)

unfoldable pub was_stuck : ℕ → IoRec → List IoRec → SwitchRec → ReadyRec → Bool
unfolding began_during may_be_disk not_rivalled long_enough
was_stuck freq slow others off r =
    began_during slow off
    && may_be_disk slow off r
    && not_rivalled freq slow others off r
    && long_enough freq off r

-- What one wake-up adds to the threads found so far.
abbrev pub add_stuck :
    ℕ → IoRec → List IoRec → ReadyRec → Option SwitchRec → List Stuck → List Stuck
unfolding was_stuck
add_stuck freq slow others r none out = out
add_stuck freq slow others r (some off) out =
    if was_stuck freq slow others off r
    then out
      ++ (record {
        tid = r.tid;
        waited = r.ts -i64 off.ts;
        reason = off.old_wait_reason;
        woke_at = r.ts;
      })
        ∷ []
    else out

abbrev pub has_tid : List Stuck → ℕ → Bool
has_tid out tid = any (λ s. s.tid == tid) out

-- The loop over the wake-ups near the end of the request.
unfoldable pub find_stuck :
    ℕ → IoRec → List IoRec → List SwitchRec → List ReadyRec → List Stuck → List Stuck
unfolding add_stuck wait_before
find_stuck freq slow others sw [] out = out
find_stuck freq slow others sw (r ∷ rd) out =
    let out' =
      if has_tid out r.tid
      then out
      else add_stuck freq slow others r (wait_before sw r.tid r.ts) out in
    find_stuck freq slow others sw rd out'

-- The longest wait first, then by thread.
unfoldable pub stuck_le : Stuck → Stuck → Bool
stuck_le a b = ltb_ℤ b.waited a.waited || eq_ℤ a.waited b.waited && leb a.tid b.tid

unfoldable pub stuck_behind : ℕ → IoRec → List IoRec → List SwitchRec → List ReadyRec → List Stuck
unfolding find_stuck near_end stuck_le
stuck_behind freq slow others sw rd =
    sort stuck_le (find_stuck freq slow others sw (filter (near_end freq slow) rd) [])

-- The stuck thread that woke another one.
abbrev pub holder_of : List Stuck → Option ℕ → Option Stuck
holder_of stuck none = none
holder_of stuck (some by) = head? (filter (λ s. s.tid == by) stuck)

unfoldable pub in_turn : ℕ → List Stuck → Stuck → ReadyRec → Bool
in_turn freq stuck holder r =
    leb_ℤ holder.woke_at r.ts
    && leb_ℤ r.ts (holder.woke_at +i64 ms_to_ticks freq lock_after_ms)
    && not (has_tid stuck r.tid)

unfoldable pub was_chained : ℕ → IoRec → Stuck → SwitchRec → ReadyRec → Bool
unfolding lock_wait long_enough
was_chained freq slow holder off r =
    leb_ℤ (start_of slow) off.ts
    && ltb_ℤ off.ts holder.woke_at
    && lock_wait off.old_wait_reason
    && long_enough freq off r

abbrev pub add_chain :
    ℕ → IoRec → Stuck → ReadyRec → Option SwitchRec → List LockChain → List LockChain
unfolding was_chained
add_chain freq slow holder r none out = out
add_chain freq slow holder r (some off) out =
    if was_chained freq slow holder off r
    then out
      ++ (record { waiter = r.tid; holder = holder.tid; waited = r.ts -i64 off.ts; woke_at = r.ts })
        ∷ []
    else out

abbrev pub has_waiter : List LockChain → ℕ → Bool
has_waiter out tid = any (λ c. c.waiter == tid) out

abbrev pub chain_step :
    ℕ
    → IoRec
    → List Stuck
    → List SwitchRec
    → ReadyRec
    → Option Stuck
    → List LockChain
    → List LockChain
unfolding in_turn wait_before add_chain
chain_step freq slow stuck sw r none out = out
chain_step freq slow stuck sw r (some holder) out =
    if not (in_turn freq stuck holder r) || has_waiter out r.tid
    then out
    else add_chain freq slow holder r (wait_before sw r.tid r.ts) out

unfoldable pub find_chains :
    ℕ → IoRec → List Stuck → List SwitchRec → List ReadyRec → List LockChain → List LockChain
unfolding chain_step waker
find_chains freq slow stuck sw [] out = out
find_chains freq slow stuck sw (r ∷ rd) out =
    find_chains freq slow stuck sw rd
      (chain_step freq slow stuck sw r (holder_of stuck (waker r)) out)

unfoldable pub chain_le : LockChain → LockChain → Bool
chain_le a b = ltb_ℤ b.waited a.waited || eq_ℤ a.waited b.waited && leb a.waiter b.waiter

unfoldable pub lock_chains :
    ℕ → IoRec → List Stuck → List SwitchRec → List ReadyRec → List LockChain
unfolding find_chains chain_le
lock_chains freq slow stuck sw rd = sort chain_le (find_chains freq slow stuck sw rd [])
