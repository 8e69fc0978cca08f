-- ===== src/DiskStuck/Programs.antt =====
-- src/diskstuck.rs: what a slow request was, the programs behind it, and what a run tells of them.
use Prim.Native.Nat.{bit_and, Ordering}
use Prim.Native.String.{String, compare}
use text.Mathlib.Text.{◌==◌ as str_eq, starts_with}
use wtfis_stalling.Base.{
  ℕ, ◌+◌, ◌*◌, ◌-◌, Bool, true, false, not, ◌&&◌, ◌||◌, Option, none, some, List, [], ◌∷◌, ltb, leb,
  ◌==◌, if◌then◌else◌, filter, length, take, u32,
}
use wtfis_stalling.Base.Int.{ℤ, pos, ltb_ℤ, leb_ℤ, ◌-i64◌}
use wtfis_stalling.Base.Assoc.{Eq, string_eq, lookup, upsert}
use wtfis_stalling.Base.Sort.{sort}
use wtfis_stalling.Layout.{is_some}
use wtfis_stalling.Switches.Probe.{eq_ℤ}
use wtfis_stalling.Files.{base_name, is_paging_file, contains, ends_with}
use wtfis_stalling.Stacks.Set.{to_ascii_lowercase}

pub data Kind : Type 0 where
  paging_file program_code paged_file bookkeeping file_data flush : Kind

unfoldable pub is_paging : Kind → Bool
is_paging paging_file = true
is_paging program_code = true
is_paging _ = false

unfoldable pub is_bookkeeping : String → Bool
unfolding base_name contains to_ascii_lowercase
is_bookkeeping path =
    let lower = to_ascii_lowercase path in
    not (contains lower "$recycle.bin")
    && (starts_with (base_name lower) "$" || contains lower "\\$extend\\" || contains lower ":$i30")

unfoldable pub is_code : String → Bool
unfolding base_name ends_with to_ascii_lowercase
is_code path =
    let lower = to_ascii_lowercase (base_name path) in
    ends_with lower ".exe" || ends_with lower ".dll" || ends_with lower ".sys"

abbrev is_some_and {ℓ} : {A : Type ℓ} → (A → Bool) → Option A → Bool
is_some_and p none = false
is_some_and p (some a) = p a

abbrev paging_kind : ℕ → Option String → Kind
unfolding is_paging_file is_code
paging_kind op none = paged_file
paging_kind op (some p) =
    if is_paging_file p
    then paging_file
    else if op == 82 && is_code p
    then program_code
    else paged_file

-- `op` is a letter: F, R or W. `IRP_PAGING_IO` is 2.
unfoldable pub classify : ℕ → ℕ → Option String → Kind
unfolding is_bookkeeping paging_kind
classify op irp_flags path =
    if op == 70
    then flush
    else if is_some_and is_bookkeeping path
    then bookkeeping
    else if bit_and irp_flags 2 == 0
    then file_data
    else paging_kind op path

abbrev str_le : String → String → Bool
str_le a b = elim (compare a b) [ Ordering.gt ↦ false | _ ↦ true ]

pub record Victim : Type 0 where
  pub name : String
  pub threads : ℕ
  pub longest : ℤ
  pub waited_in : Option String
  pub in_front : Bool

-- Where the program is in the list, the mark is set and it goes to the head.
abbrev take_out : String → List Victim → Option (Victim × List Victim)
take_out front [] = none
take_out front (v ∷ vs) =
    let rest = take_out front vs in
    if str_eq v.name front
    then some (v, vs)
    else elim rest [ none ↦ none | some (w, ws) ↦ some (w, v ∷ ws) ]

unfoldable pub front_first : List Victim → Option String → List Victim
front_first victims none = victims
front_first victims (some front) = elim (take_out front victims) [
  | none ↦ victims
  | some (v, vs) ↦ record v { in_front = true } ∷ vs
]

abbrev pub StuckThread : Type 0
StuckThread = String × (ℤ × Option String)

-- One more thread of a program that is listed.
unfoldable pub add_thread : ℤ → Option String → Victim → Victim
add_thread waited inside p = record p {
  threads = p.threads + 1;
  longest = if ltb_ℤ p.longest waited then waited else p.longest;
  waited_in = if ltb_ℤ p.longest waited then inside else p.waited_in;
}

unfoldable pub add_victim : String → ℤ → Option String → List Victim → List Victim
unfolding add_thread
add_victim name waited inside [] =
    record { name = name; threads = 1; longest = waited; waited_in = inside; in_front = false } ∷ []
add_victim name waited inside (p ∷ v) =
    let rest = add_victim name waited inside v in
    if str_eq p.name name then add_thread waited inside p ∷ v else p ∷ rest

unfoldable pub group : List StuckThread → List Victim → List Victim
unfolding add_victim
group [] v = v
group ((name, (waited, inside)) ∷ stuck) v = group stuck (add_victim name waited inside v)

unfoldable pub victim_le : Victim → Victim → Bool
victim_le a b = ltb_ℤ b.longest a.longest || eq_ℤ a.longest b.longest && str_le a.name b.name

unfoldable pub by_program : List StuckThread → List Victim
unfolding group victim_le
by_program stuck = sort victim_le (group stuck [])

abbrev pub far_bytes : ℕ
far_bytes = 134217728

abbrev pub min_each : ℕ
min_each = 4

abbrev pub min_far_switches : ℕ
min_far_switches = 6

abbrev abs_i64 : ℤ → ℤ
abs_i64 z = if ltb_ℤ z (pos 0) then pos 0 -i64 z else z

abbrev pub stack_keys_cap : ℕ
stack_keys_cap = 64

module _ {ℓ} {K : Type ℓ} ⦃e : Eq K⦄ where
  unfoldable pub bump : List (K × ℕ) → K → List (K × ℕ)
  bump m key =
      if ltb (length m) stack_keys_cap || is_some (lookup key m)
      then upsert key 0 (λ n. u32 (n + 1)) m
      else m

module _ {ℓ} {K : Type ℓ} ⦃e : Eq K⦄ (le : K → K → Bool) where
  -- `counts`, over the requests in the order they completed.
  unfoldable pub count_each : List (ℤ × (ℤ × K)) → List (K × ℕ) → List (K × ℕ)
  count_each [] counts = counts
  count_each (r ∷ v) counts = count_each v (upsert r.1.1 0 (λ n. n + 1) counts)

  unfoldable pub is_far_switch : ℤ × (ℤ × K) → ℤ × (ℤ × K) → Bool
  is_far_switch a b = not (e.beq a.1.1 b.1.1) && leb_ℤ (pos far_bytes) (abs_i64 (a.1.0 -i64 b.1.0))

  unfoldable pub far_switches : List (ℤ × (ℤ × K)) → ℕ
  unfolding is_far_switch
  far_switches [] = 0
  far_switches (a ∷ []) = 0
  far_switches (a ∷ b ∷ v) =
      let rest = far_switches (b ∷ v) in if is_far_switch a b then rest + 1 else rest

  unfoldable pub count_le : K × ℕ → K × ℕ → Bool
  count_le a b = ltb b.1 a.1 || a.1 == b.1 && le a.0 b.0

  -- The share is the exact ratio against a quarter, which is what the division of doubles decides
  -- for fewer than 2^50 requests.
  unfoldable pub thrash : List (ℤ × (ℤ × K)) → Bool → Option (List (K × ℕ))
  unfolding count_each far_switches count_le
  thrash reqs spinning =
      let v = sort (λ a b. leb_ℤ a.0 b.0) reqs in
      let big = filter (λ c. leb min_each c.1) (count_each v []) in
      let far = far_switches v in
      if not spinning || ltb (length reqs) (2 * min_each)
      then none
      else if ltb (length big) 2
      then none
      else if ltb far min_far_switches || ltb (far * 4) (length v - 1)
      then none
      else some (sort count_le big)

  unfoldable pub top_counts : List (K × ℕ) → ℕ → List (K × ℕ)
  unfolding count_le
  top_counts m n = take n (sort count_le m)
