-- ===== src/Quiet/Model.antt =====
-- src/quiet.rs: `Quieter`.
use Prim.Native.Nat.{Ordering}
use Prim.Native.String.{String, compare}
use wtfis_stalling.Base.{
  ℕ, suc, ◌-◌, ◌+◌, ◌*◌, Bool, true, false, ◌&&◌, ◌||◌, Option, none, some, List, [], ◌∷◌, ltb, leb,
  ◌==◌, if◌then◌else◌, u32, min,
}
use wtfis_stalling.Base.Int.{ℤ, pos, negsuc, ltb_ℤ, leb_ℤ, max_ℤ, ◌-i64◌}
use wtfis_stalling.Base.Assoc.{string_eq, lookup, upsert, or_default}
use wtfis_stalling.Base.Sort.{sort}

abbrev pub show_first : ℕ
show_first = 3

abbrev pub outlier_factor : ℕ
outlier_factor = 3

pub record Rollup : Type 0 where
  pub subject : String
  pub count : ℕ
  pub worst : ℤ
  pub note : String
  pub since : ℤ

pub record Subject : Type 0 where
  pub shown : ℕ
  pub worst_shown : ℤ
  pub held : Option Rollup
  pub last_rollup : ℤ

abbrev pub new_subject : Subject
new_subject = record { shown = 0; worst_shown = pos 0; held = none; last_rollup = pos 0 }

abbrev pub Quieter : Type 0
Quieter = List (String × Subject)

-- `saturating_mul` by a small positive number.
unfoldable pub saturating_mul : ℤ → ℕ → ℤ
saturating_mul (pos n) k = pos (min (n * k) 9223372036854775807)
saturating_mul (negsuc n) k =
    if ltb 9223372036854775808 (suc n * k)
    then negsuc 9223372036854775807
    else (if k == 0 then pos 0 else negsuc (suc n * k - 1))

-- Does an event of this duration get a line of its own?
unfoldable pub is_shown : Subject → ℤ → Bool
unfolding saturating_mul
is_shown s duration =
    ltb s.shown show_first
    || leb show_first s.shown && leb_ℤ (saturating_mul s.worst_shown outlier_factor) duration

unfoldable pub show : Subject → ℤ → ℤ → Subject
show s duration now = record s {
  last_rollup = if s.shown == 0 then now else s.last_rollup;
  shown = u32 (s.shown + 1);
  worst_shown = max_ℤ s.worst_shown duration;
}

abbrev pub held_or_new : String → ℤ → Option Rollup → Rollup
held_or_new subject now none = record {
  subject = subject;
  count = 0;
  worst = pos 0;
  note = "";
  since = now;
}
held_or_new subject now (some r) = r

unfoldable pub hold : String → Subject → ℤ → String → ℤ → Subject
hold subject s duration note now =
    let held = held_or_new subject now s.held in
    let worse = ltb_ℤ held.worst duration in
    record s {
      held = some (record held {
        count = u32 (held.count + 1);
        worst = if worse then duration else held.worst;
        note = if worse then note else held.note;
      });
    }

-- What `offer` does to the subject, and its answer.
unfoldable pub offer_subject : String → ℤ → String → ℤ → Subject → Subject
offer_subject subject duration note now s =
    if is_shown s duration then show s duration now else hold subject s duration note now

unfoldable pub offer : Quieter → String → ℤ → String → ℤ → Quieter × Bool
offer q subject duration note now = (
  upsert subject new_subject (offer_subject subject duration note now) q,
  is_shown (or_default new_subject (lookup subject q)) duration,
)

abbrev pub is_some {ℓ} : {A : Type ℓ} → Option A → Bool
is_some none = false
is_some (some a) = true

unfoldable pub is_due : ℤ → ℤ → Subject → Bool
is_due now every s = is_some s.held && leb_ℤ every (now -i64 s.last_rollup)

-- One subject's part in `due`: what is left of it, and what goes out.
unfoldable pub settle : ℤ → ℤ → Subject → Subject
settle now every s = if is_due now every s then record s { last_rollup = now; held = none } else s

abbrev pub option_cons : Option Rollup → List Rollup → List Rollup
option_cons none out = out
option_cons (some r) out = r ∷ out

unfoldable pub due_rollups : ℤ → ℤ → Quieter → List Rollup
due_rollups now every [] = []
due_rollups now every ((k, s) ∷ q) =
    let rest = due_rollups now every q in
    if is_due now every s then option_cons s.held rest else rest

unfoldable pub settle_all : ℤ → ℤ → Quieter → Quieter
settle_all now every [] = []
settle_all now every ((k, s) ∷ q) = (k, settle now every s) ∷ settle_all now every q

abbrev subject_le : String → String → Bool
subject_le a b = elim (compare a b) [ Ordering.gt ↦ false | _ ↦ true ]

-- By time, then by subject.
unfoldable pub rollup_le : Rollup → Rollup → Bool
rollup_le a b = ltb_ℤ a.since b.since || leb_ℤ a.since b.since && subject_le a.subject b.subject

unfoldable pub due : Quieter → ℤ → ℤ → Quieter × List Rollup
due q now every = (settle_all now every q, sort rollup_le (due_rollups now every q))

unfoldable pub flush : Quieter → Quieter × List Rollup
flush q = due q (pos 9223372036854775807) (pos 0)
