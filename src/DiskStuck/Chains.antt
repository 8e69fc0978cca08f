-- ===== src/DiskStuck/Chains.antt =====
-- What a lock chain says of a thread that waited for a stuck one.
use wtfis_stalling.Base.{
  ℕ, ◌≡◌, refl, sym, ap, ◌∙◌, subst, arith, true, false, not, ◌||◌, Option, none, some, List, [],
  ◌∷◌, if◌then◌else◌, ◌==◌, Bool-cases, inl, inr, filter, head?, All, Memᴰ,
}
use wtfis_stalling.Base.Int.{◌≤ℤ◌, ◌<ℤ◌, ◌-i64◌, ◌+i64◌}
use wtfis_stalling.Base.Sort.{All-sort}
use wtfis_stalling.Util.{ms_to_ticks}
use wtfis_stalling.State.Records.{IoRec, SwitchRec, ReadyRec, waker}
use wtfis_stalling.Switches.Reasons.{lock_wait}
use wtfis_stalling.DiskStuck.{
  Stuck, LockChain, wait_before, has_tid, start_of, stuck_min_ms, lock_after_ms, holder_of, in_turn,
  was_chained, long_enough, add_chain, has_waiter, chain_step, find_chains, chain_le, lock_chains,
}
use wtfis_stalling.DiskStuck.Sound.{IsWaitBefore, wait_before-some, All-append, All-Memᴰ}

-- The records that show that a thread waited for a lock and a stuck thread let it go on.
pub record IsChained (freq : ℕ) (slow : IoRec) (stuck : List Stuck) (sw : List SwitchRec)
    (rd : List ReadyRec) (c : LockChain) : Type 0 where
  pub wake : ReadyRec
  pub off : SwitchRec
  pub holder : Stuck
  pub recorded : Memᴰ wake rd
  pub stuck_holder : Memᴰ holder stuck
  pub woken_by : waker wake ≡ some c.holder
  pub same_holder : holder.tid ≡ c.holder
  pub thread : wake.tid ≡ c.waiter
  pub not_stuck : has_tid stuck c.waiter ≡ false
  pub wait : IsWaitBefore sw c.waiter c.woke_at off
  pub lock : lock_wait off.old_wait_reason ≡ true
  pub woke_at : c.woke_at ≡ wake.ts
  pub waited : c.waited ≡ wake.ts -i64 off.ts
  pub in_time :
      (holder.woke_at ≤ℤ c.woke_at)
      × (c.woke_at ≤ℤ holder.woke_at +i64 ms_to_ticks freq lock_after_ms)
  pub while_stuck : (start_of slow ≤ℤ off.ts) × (off.ts <ℤ holder.woke_at)
  pub long : ms_to_ticks freq stuck_min_ms ≤ℤ c.waited

holder_of-some :
    (stuck : List Stuck) (by : ℕ) (h : Stuck)
    → head? (filter (λ s. s.tid == by) stuck) ≡ some h
    → Memᴰ h stuck × (h.tid ≡ by)
holder_of-some [] by h e = absurd cc
holder_of-some (s ∷ stuck) by h e = elim (Bool-cases (s.tid == by)) [
  | inl t ↦
      let same : s ≡ h = ground (arith, t, e) in
      (Memᴰ.head (sym same), subst (λ x. x.tid ≡ by) same (ground (arith, t)))
  | inr f ↦
      let rest = holder_of-some stuck by h (ground (arith, f, e)) in (Memᴰ.tail rest.0, rest.1)
]

module _ (freq : ℕ) (slow : IoRec) (stuck : List Stuck) (sw : List SwitchRec)
    (all : List ReadyRec) where
  add_chain_sound :
      (r : ReadyRec) (holder : Stuck) (off : Option SwitchRec) (out : List LockChain)
      → Memᴰ r all
      → Memᴰ holder stuck
      → waker r ≡ some holder.tid
      → in_turn freq stuck holder r ≡ true
      → wait_before sw r.tid r.ts ≡ off
      → All (IsChained freq slow stuck sw all) out
      → All (IsChained freq slow stuck sw all) (add_chain freq slow holder r off out)
  unfolding add_chain was_chained long_enough in_turn
  add_chain_sound r holder none out m s w i e h = h
  add_chain_sound r holder (some off) out m s w i e h =
      elim (Bool-cases (was_chained freq slow holder off r)) [
        | inl t ↦
            rw (t, if◌then◌else◌)
              (All-append _ out _ h (record {
                wake = r;
                off = off;
                holder = holder;
                recorded = m;
                stuck_holder = s;
                woken_by = w;
                same_holder = refl;
                thread = refl;
                not_stuck = ground (arith, i);
                wait = wait_before-some sw r.tid r.ts off e;
                lock = ground (arith, t);
                woke_at = refl;
                waited = refl;
                in_time = ground (arith, i);
                while_stuck = ground (arith, t);
                long = ground (arith, t);
              }))
        | inr f ↦ rw (f, if◌then◌else◌) h
      ]

  chain_step_sound :
      (r : ReadyRec) (by : Option ℕ) (holder : Option Stuck) (out : List LockChain)
      → Memᴰ r all
      → waker r ≡ by
      → holder_of stuck by ≡ holder
      → All (IsChained freq slow stuck sw all) out
      → All (IsChained freq slow stuck sw all) (chain_step freq slow stuck sw r holder out)
  unfolding chain_step
  chain_step_sound r by none out m w e h = h
  chain_step_sound r none (some holder) out m w e h = absurd cc
  chain_step_sound r (some by) (some holder) out m w e h =
      elim (Bool-cases (not (in_turn freq stuck holder r) || has_waiter out r.tid)) [
        | inl t ↦ rw (t, if◌then◌else◌) h
        | inr f ↦
            let (s, same) = holder_of-some stuck by holder e in
            rw (f, if◌then◌else◌)
              (add_chain_sound r holder (wait_before sw r.tid r.ts) out m s (w ∙ ap some (sym same))
                (ground (arith, f)) refl h)
      ]

  find_chains_sound :
      (rd : List ReadyRec) (out : List LockChain)
      → All (λ r. Memᴰ r all) rd
      → All (IsChained freq slow stuck sw all) out
      → All (IsChained freq slow stuck sw all) (find_chains freq slow stuck sw rd out)
  unfolding find_chains
  find_chains_sound [] out m h = h
  find_chains_sound (r ∷ rd) out m h =
      find_chains_sound rd (chain_step freq slow stuck sw r (holder_of stuck (waker r)) out) m.1
        (chain_step_sound r (waker r) (holder_of stuck (waker r)) out m.0 refl refl h)

-- Every chain has its records: a wake-up of the waiter by a thread that was stuck behind the
-- request, no sooner than that one was woken itself and at most twenty milliseconds later, and the
-- newest record up to then of a switch that took the waiter off a processor, which was into a wait
-- for a lock, of ten milliseconds at least, that began while the request was outstanding and the
-- holder was stuck; and the waiter is not one of the stuck threads.
pub lock_chains_sound :
    (freq : ℕ) (slow : IoRec) (stuck : List Stuck) (sw : List SwitchRec) (rd : List ReadyRec)
    → All (IsChained freq slow stuck sw rd) (lock_chains freq slow stuck sw rd)
unfolding lock_chains
lock_chains_sound freq slow stuck sw rd =
    All-sort chain_le (IsChained freq slow stuck sw rd) (find_chains freq slow stuck sw rd [])
      (find_chains_sound freq slow stuck sw rd rd [] (All-Memᴰ rd) tt)
