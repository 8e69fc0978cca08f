-- ===== src/Quiet/Accounting.antt =====
-- Nothing is lost to the folding: every event has a line of its own or is counted in a roll-up.
use Prim.Native.String.{String}
use wtfis_stalling.Base.{
  ℕ, ◌+◌, ◌<◌, ◌≡◌, refl, Bool-cases, inl, inr, Option, none, some, List, [], ◌∷◌, arith,
  if◌then◌else◌, of_bool,
}
use wtfis_stalling.Base.Int.{ℤ}
use wtfis_stalling.Base.Assoc.{
  string_eq, lookup, or_default, sum_values, weight, sum_values-upsert, sum_values-remove,
}
use wtfis_stalling.Base.Sort.{sort, insert_sorted}
use wtfis_stalling.Quiet.Model.{
  Rollup, Subject, new_subject, Quieter, is_shown, show, hold, held_or_new, offer_subject, offer,
  is_due, settle, due_rollups, settle_all, rollup_le, due, option_cons,
}

-- What the callers of a `Quieter` do with it: offer an event, or take the roll-ups that are due.
pub data Action : Type 0 where
  offers : String → ℤ → String → ℤ → Action
  takes : ℤ → ℤ → Action

-- A run: the lines shown so far, and the roll-ups given out so far.
pub record Log : Type 0 where
  pub quieter : Quieter
  pub lines : ℕ
  pub rollups : List Rollup

abbrev pub append_rollups : List Rollup → List Rollup → List Rollup
append_rollups [] ys = ys
append_rollups (x ∷ xs) ys = x ∷ append_rollups xs ys

unfoldable pub act : Log → Action → Log
act l (offers subject duration note now) =
    let (q, line) = offer l.quieter subject duration note now in
    record l { quieter = q; lines = l.lines + of_bool line }
act l (takes now every) =
    let (q, out) = due l.quieter now every in
    record l { quieter = q; rollups = append_rollups out l.rollups }

unfoldable pub act_all : Log → List Action → Log
act_all l [] = l
act_all l (a ∷ acts) = act_all (act l a) acts

abbrev pub sum_counts : List Rollup → ℕ
sum_counts [] = 0
sum_counts (r ∷ rs) = r.count + sum_counts rs

-- The events held back for a subject, and for all.
abbrev pub held_count : Subject → ℕ
held_count s = weight (λ (r : Rollup). r.count) s.held

abbrev pub accounted : Log → ℕ
accounted l = l.lines + sum_values held_count l.quieter + sum_counts l.rollups

abbrev pub is_offer : Action → ℕ
is_offer (offers subject duration note now) = 1
is_offer (takes now every) = 0

abbrev pub offered : List Action → ℕ
offered [] = 0
offered (a ∷ acts) = is_offer a + offered acts

held_count-default :
    (o : Option Subject) → held_count (or_default new_subject o) ≡ weight held_count o
held_count-default none = refl
held_count-default (some s) = refl

held_count-show : (duration now : ℤ) (s : Subject) → held_count (show s duration now) ≡ held_count s
unfolding show
held_count-show duration now s = refl

count-held_or_new :
    (subject : String) (now : ℤ) (o : Option Rollup)
    → (held_or_new subject now o).count ≡ weight (λ (r : Rollup). r.count) o
count-held_or_new subject now none = refl
count-held_or_new subject now (some r) = refl

held_count-hold :
    (subject note : String) (duration now : ℤ) (s : Subject)
    → held_count s + 1 < 4294967296
    → held_count (hold subject s duration note now) ≡ held_count s + 1
unfolding hold
held_count-hold subject note duration now s h = omega (arith, count-held_or_new subject now s.held)

-- An offer shows the event or counts it.
held_count-offer :
    (subject note : String) (duration now : ℤ) (s : Subject)
    → held_count s + 1 < 4294967296
    → held_count (offer_subject subject duration note now s) + of_bool (is_shown s duration)
      ≡ held_count s + 1
unfolding offer_subject
held_count-offer subject note duration now s h = elim (Bool-cases (is_shown s duration)) [
  | inl line ↦ rw (line, if◌then◌else◌) (omega (arith, held_count-show duration now s))
  | inr fold ↦
      rw (fold, if◌then◌else◌) (omega (arith, held_count-hold subject note duration now s h))
]

sum_counts-insert :
    (r : Rollup) (rs : List Rollup)
    → sum_counts (insert_sorted rollup_le r rs) ≡ r.count + sum_counts rs
unfolding insert_sorted
sum_counts-insert r [] = refl
sum_counts-insert r (x ∷ rs) = ground (arith, sum_counts-insert r rs)

pub sum_counts-sort : (rs : List Rollup) → sum_counts (sort rollup_le rs) ≡ sum_counts rs
unfolding sort
sum_counts-sort [] = refl
sum_counts-sort (r ∷ rs) =
    omega (arith, sum_counts-insert r (sort rollup_le rs), sum_counts-sort rs)

pub sum_counts-append :
    (xs ys : List Rollup) → sum_counts (append_rollups xs ys) ≡ sum_counts xs + sum_counts ys
sum_counts-append [] ys = omega arith
sum_counts-append (x ∷ xs) ys = omega (arith, sum_counts-append xs ys)

settle-count :
    (now every : ℤ) (s : Subject) (out : List Rollup)
    → held_count (settle now every s)
        + sum_counts (if is_due now every s then option_cons s.held out else out)
      ≡ held_count s + sum_counts out
unfolding settle
settle-count now every s out = elim (Bool-cases (is_due now every s)) [
  | inl e ↦ rw (e, if◌then◌else◌) (given s.held)
  | inr e ↦ rw (e, if◌then◌else◌) refl
]
  where
    given :
        (o : Option Rollup)
        → 0 + sum_counts (option_cons o out) ≡ weight (λ (r : Rollup). r.count) o + sum_counts out
    given none = refl
    given (some r) = omega arith

-- What `due` gives out, it takes from what is held.
pub due-count :
    (now every : ℤ) (q : Quieter)
    → sum_values held_count (settle_all now every q) + sum_counts (due_rollups now every q)
      ≡ sum_values held_count q
unfolding settle_all due_rollups sum_values
due-count now every [] = refl
due-count now every ((k, s) ∷ q) =
    omega (arith, settle-count now every s (due_rollups now every q), due-count now every q)

act-accounted :
    (l : Log) (a : Action)
    → accounted l + 1 < 4294967296
    → accounted (act l a) ≡ accounted l + is_offer a
unfolding act offer due
act-accounted l (offers subject duration note now) h =
    let before = or_default new_subject (lookup subject l.quieter) in
    omega (
      arith,
      sum_values-upsert held_count subject new_subject (offer_subject subject duration note now)
          l.quieter,
      sum_values-remove held_count subject l.quieter,
      held_count-offer subject note duration now before,
      held_count-default (lookup subject l.quieter),
    )
act-accounted l (takes now every) h = omega (
  arith,
  due-count now every l.quieter,
  sum_counts-sort (due_rollups now every l.quieter),
  sum_counts-append (sort rollup_le (due_rollups now every l.quieter)) l.rollups,
)

-- Every event that was offered has a line of its own, or is counted in a roll-up that was given
-- out, or in one that is still held: never two of these, and never none, for fewer than 2^32 events.
pub act_all-accounted :
    (l : Log) (acts : List Action)
    → accounted l + offered acts + 1 < 4294967296
    → accounted (act_all l acts) ≡ accounted l + offered acts
unfolding act_all
act_all-accounted l [] h = omega arith
act_all-accounted l (a ∷ acts) h =
    let one = act-accounted l a (omega arith) in
    omega (arith, one, act_all-accounted (act l a) acts (omega (arith, one)))
