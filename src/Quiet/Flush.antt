-- ===== src/Quiet/Flush.antt =====
-- The end of a run: what is still held goes out, and all the events are accounted for.
use Prim.Native.String.{String}
use wtfis_stalling.Base.{
  ◌+◌, ◌≤◌, ◌<◌, ◌≡◌, refl, Bool-cases, inl, inr, List, [], ◌∷◌, arith, if◌then◌else◌,
}
use wtfis_stalling.Base.Int.{ℤ, pos, pos_part, neg_part, -i64_parts}
use wtfis_stalling.Base.Assoc.{string_eq, upsert, sum_values}
use wtfis_stalling.Quiet.Model.{
  Subject, new_subject, Quieter, show, hold, offer_subject, offer, is_due, settle, due_rollups,
  settle_all, due, flush,
}
use wtfis_stalling.Quiet.Accounting.{
  Action, offers, takes, Log, act, act_all, sum_counts, held_count, accounted, offered, due-count,
  sum_counts-sort, act_all-accounted,
}

-- A time of the performance counter: not negative, and an `i64`.
abbrev pub IsTime : ℤ → Type 0
IsTime t = (neg_part t ≡ 0) × (pos_part t ≤ 9223372036854775807)

-- The times that a `Quieter` has noted.
abbrev pub IsTimed : Quieter → Type 0
IsTimed [] = Unit
IsTimed ((k, s) ∷ q) = IsTime s.last_rollup × IsTimed q

abbrev pub IsTimedAction : Action → Type 0
IsTimedAction (offers subject duration note now) = IsTime now
IsTimedAction (takes now every) = IsTime now

abbrev pub AllTimed : List Action → Type 0
AllTimed [] = Unit
AllTimed (a ∷ acts) = IsTimedAction a × AllTimed acts

offer_subject-IsTime :
    (subject note : String) (duration now : ℤ) (s : Subject)
    → IsTime now
    → IsTime s.last_rollup
    → IsTime (offer_subject subject duration note now s).last_rollup
unfolding offer_subject show hold
offer_subject-IsTime subject note duration now s h t = ground arith

upsert-IsTimed :
    (k : String) (f : Subject → Subject) (q : Quieter)
    → ((s : Subject) → IsTime s.last_rollup → IsTime (f s).last_rollup)
    → IsTimed q
    → IsTimed (upsert k new_subject f q)
unfolding upsert
upsert-IsTimed k f [] keep t = (keep new_subject (omega arith), tt)
upsert-IsTimed k f ((j, s) ∷ q) keep t = elim (Bool-cases (string_eq.beq j k)) [
  | inl e ↦ rw (e, if◌then◌else◌) (keep s t.0, t.1)
  | inr e ↦ rw (e, if◌then◌else◌) (t.0, upsert-IsTimed k f q keep t.1)
]

settle_all-IsTimed :
    (now every : ℤ) (q : Quieter) → IsTime now → IsTimed q → IsTimed (settle_all now every q)
unfolding settle_all settle
settle_all-IsTimed now every [] h t = tt
settle_all-IsTimed now every ((k, s) ∷ q) h t = (ground arith, settle_all-IsTimed now every q h t.1)

act-IsTimed :
    (l : Log) (a : Action) → IsTimedAction a → IsTimed l.quieter → IsTimed (act l a).quieter
unfolding act offer due
act-IsTimed l (offers subject duration note now) h t =
    upsert-IsTimed subject _ l.quieter (λ s. offer_subject-IsTime subject note duration now s h) t
act-IsTimed l (takes now every) h t = settle_all-IsTimed now every l.quieter h t

act_all-IsTimed :
    (l : Log) (acts : List Action)
    → AllTimed acts
    → IsTimed l.quieter
    → IsTimed (act_all l acts).quieter
unfolding act_all
act_all-IsTimed l [] h t = t
act_all-IsTimed l (a ∷ acts) h t = act_all-IsTimed (act l a) acts h.1 (act-IsTimed l a h.0 t)

held_count-flush :
    (s : Subject)
    → IsTime s.last_rollup
    → held_count (settle (pos 9223372036854775807) (pos 0) s) ≡ 0
unfolding settle is_due
held_count-flush s t = ground (arith, -i64_parts (pos 9223372036854775807) s.last_rollup)

flush-holds_nothing :
    (q : Quieter)
    → IsTimed q
    → sum_values held_count (settle_all (pos 9223372036854775807) (pos 0) q) ≡ 0
unfolding settle_all sum_values
flush-holds_nothing [] t = refl
flush-holds_nothing ((k, s) ∷ q) t =
    omega (arith, held_count-flush s t.0, flush-holds_nothing q t.1)

abbrev pub start : Log
start = record { quieter = []; lines = 0; rollups = [] }

-- At the end of a run, the lines shown, the roll-ups given out before and those that the flush
-- gives out add up to the events offered, and the flush leaves no event held. The times are those
-- of the performance counter, and fewer than 2^32 - 1 events were offered.
pub flush-accounted :
    (acts : List Action)
    → AllTimed acts
    → offered acts + 1 < 4294967296
    → let l = act_all start acts in
      (l.lines + sum_counts l.rollups + sum_counts (flush l.quieter).1 ≡ offered acts)
      × (sum_values held_count (flush l.quieter).0 ≡ 0)
unfolding flush due
flush-accounted acts h small =
    let l = act_all start acts in
    let nothing = flush-holds_nothing l.quieter (act_all-IsTimed start acts h tt) in
    let all = act_all-accounted start acts (omega (arith, empty)) in
    (
      omega (
        arith,
        all,
        empty,
        nothing,
        due-count (pos 9223372036854775807) (pos 0) l.quieter,
        sum_counts-sort (due_rollups (pos 9223372036854775807) (pos 0) l.quieter),
      ),
      nothing,
    )
  where
    empty : accounted start ≡ 0
    empty = unfold sum_values in refl
