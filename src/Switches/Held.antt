-- ===== src/Switches/Held.antt =====
-- src/switches.rs: what held a processor while a thread waited for it.
use wtfis_stalling.Base.{
  ℕ, suc, ◌-◌, ◌*◌, Bool, not, ◌&&◌, Option, none, some, List, [], ◌∷◌, ◌==◌, if◌then◌else◌, filter,
}
use wtfis_stalling.Base.Int.{ℤ, pos, negsuc, ltb_ℤ, leb_ℤ, ◌+i64◌, ◌-i64◌}
use wtfis_stalling.Base.Assoc.{nat_eq, lookup, upsert, or_default}
use wtfis_stalling.State.Records.{SwitchRec}

abbrev pub idle_tid : ℕ
idle_tid = 0

pub data RanInstead : Type 0 where
  idle : RanInstead
  thread : ℕ → ℤ → ℤ → RanInstead
  unknown : RanInstead

-- `iter().rfind(p)`: the last element that passes.
unfoldable pub rfind {ℓ} : {A : Type ℓ} → (A → Bool) → List A → Option A
rfind p [] = none
rfind p (x ∷ xs) = elim (rfind p xs) [ some y ↦ some y | none ↦ if p x then some x else none ]

-- tid -> (time held, priority).
abbrev pub HeldMap : Type 0
HeldMap = List (ℕ × (ℤ × ℤ))

-- The thread on the processor, and its priority, held it for `d` more.
unfoldable pub hold_for : Option (ℕ × ℤ) → ℤ → HeldMap → HeldMap
hold_for none d held = held
hold_for (some (tid, prio)) d held = upsert tid (pos 0, prio) (λ e. (e.0 +i64 d, prio)) held

-- The loop over the switches after `prev`, and the rest of the time after the last of them.
unfoldable pub replay : HeldMap → Option (ℕ × ℤ) → ℤ → ℤ → List SwitchRec → HeldMap
replay held current prev to [] = hold_for current (to -i64 prev) held
replay held current prev to (s ∷ inside) =
    replay (hold_for current (s.ts -i64 prev) held) (some (s.new_tid, s.new_prio)) s.ts to inside

-- `k * z`, exact.
unfoldable pub scale : ℕ → ℤ → ℤ
scale k (pos n) = pos (k * n)
scale k (negsuc n) = if k == 0 then pos 0 else negsuc (k * suc n - 1)

-- `idle / span >= 0.9`, for a positive span.
unfoldable pub is_idle : ℤ → ℤ → Bool
unfolding scale
is_idle held span = leb_ℤ (scale 9 span) (scale 10 held)

-- `max_by_key` on the time held: the last of the greatest.
unfoldable pub longest : HeldMap → Option (ℕ × (ℤ × ℤ))
longest [] = none
longest (e ∷ m) = elim (longest m) [
  | none ↦ some e
  | some b ↦ if ltb_ℤ b.1.0 e.1.0 then some e else some b
]

abbrev not_counted : ℕ → ℕ × (ℤ × ℤ) → Bool
not_counted exclude e = not (e.0 == idle_tid) && not (e.0 == exclude)

abbrev name_holder : Option (ℕ × (ℤ × ℤ)) → RanInstead
name_holder none = unknown
name_holder (some (tid, (t, prio))) = if ltb_ℤ (pos 0) t then thread tid prio t else unknown

unfoldable pub holder : HeldMap → ℤ → ℕ → RanInstead
holder held span exclude =
    if is_idle (or_default (pos 0, pos 0) (lookup idle_tid held)).0 span
    then idle
    else name_holder (longest (filter (not_counted exclude) held))

abbrev on_cpu : Option SwitchRec → Option (ℕ × ℤ)
on_cpu none = none
on_cpu (some s) = some (s.new_tid, s.new_prio)

abbrev held_from : Option (ℕ × ℤ) → List SwitchRec → ℤ → ℤ → ℕ → RanInstead
held_from none [] from to exclude = unknown
held_from none (s ∷ inside) from to exclude =
    holder (replay [] none from to (s ∷ inside)) (to -i64 from) exclude
held_from (some current) inside from to exclude =
    holder (replay [] (some current) from to inside) (to -i64 from) exclude

-- The thread on the processor at `from`, and the switches on it up to `to`.
unfoldable pub current_at : List SwitchRec → ℕ → ℤ → Option (ℕ × ℤ)
current_at sw cpu from = on_cpu (rfind (λ (s : SwitchRec). s.cpu == cpu && leb_ℤ s.ts from) sw)

unfoldable pub inside_of : List SwitchRec → ℕ → ℤ → ℤ → List SwitchRec
inside_of sw cpu from to =
    filter (λ (s : SwitchRec). s.cpu == cpu && ltb_ℤ from s.ts && leb_ℤ s.ts to) sw

unfoldable pub held_by : List SwitchRec → ℕ → ℤ → ℤ → ℕ → RanInstead
unfolding current_at inside_of
held_by sw cpu from to exclude =
    if leb_ℤ to from
    then unknown
    else held_from (current_at sw cpu from) (inside_of sw cpu from to) from to exclude
