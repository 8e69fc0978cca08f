-- ===== src/DiskStuck/Tallies.antt =====
-- What the tallies of a run and the grouping into programs count.
use Prim.Native.String.{String}
use text.Mathlib.Text.{◌==◌ as str_eq}
use text.Mathlib.TextEquality.{eq_iff}
use wtfis_stalling.Base.{
  ℕ, ◌+◌, ◌≡◌, ◌≤◌, ◌⊎◌, refl, ap, subst, arith, true, not, ◌||◌, Option, none, some, List, [], ◌∷◌,
  ltb, if◌then◌else◌, Bool-cases, inl, inr, length, of_bool, u32,
}
use wtfis_stalling.Base.Int.{ℤ}
use wtfis_stalling.Base.Assoc.{Eq, lookup, upsert, or_default, lookup-upsert}
use wtfis_stalling.Base.Sort.{sort, insert_sorted}
use wtfis_stalling.Layout.{is_some}
use wtfis_stalling.DiskStuck.Programs.{
  Victim, StuckThread, add_thread, add_victim, group, victim_le, by_program, bump, stack_keys_cap,
}
use wtfis_stalling.DiskStuck.Named.{AreNamedOnce, group-AreNamedOnce, sort-AreNamedOnce}

-- The threads that are counted under a name, and the stuck threads of that name.
abbrev weight : String → Victim → ℕ
weight name v = if str_eq v.name name then v.threads else 0

abbrev pub threads_of : String → List Victim → ℕ
threads_of name [] = 0
threads_of name (v ∷ vs) = weight name v + threads_of name vs

abbrev pub stuck_of : String → List StuckThread → ℕ
stuck_of name [] = 0
stuck_of name (t ∷ ts) = (if str_eq t.0 name then 1 else 0) + stuck_of name ts

add_victim-threads :
    (name by : String) (waited : ℤ) (inside : Option String) (vs : List Victim)
    → threads_of name (add_victim by waited inside vs)
      ≡ (if str_eq by name then 1 else 0) + threads_of name vs
unfolding add_victim add_thread
add_victim-threads name by waited inside [] = ground arith
add_victim-threads name by waited inside (v ∷ vs) = elim (Bool-cases (str_eq v.name by)) [
  | inl t ↦
      let same : str_eq v.name name ≡ str_eq by name =
        ap (λ n. str_eq n name) ((eq_iff v.name by).0 t) in
      rw (t, if◌then◌else◌) (ground (arith, same))
  | inr f ↦ rw (f, if◌then◌else◌) (omega (arith, add_victim-threads name by waited inside vs))
]

group-threads :
    (name : String) (ts : List StuckThread) (vs : List Victim)
    → threads_of name (group ts vs) ≡ stuck_of name ts + threads_of name vs
unfolding group
group-threads name [] vs = omega arith
group-threads name ((by, (waited, inside)) ∷ ts) vs = omega (
  arith,
  group-threads name ts (add_victim by waited inside vs),
  add_victim-threads name by waited inside vs,
)

insert-threads :
    (name : String) (v : Victim) (vs : List Victim)
    → threads_of name (insert_sorted victim_le v vs) ≡ weight name v + threads_of name vs
unfolding insert_sorted
insert-threads name v [] = refl
insert-threads name v (x ∷ vs) = elim (Bool-cases (victim_le v x)) [
  | inl t ↦ rw (t, if◌then◌else◌) refl
  | inr f ↦ rw (f, if◌then◌else◌) (omega (arith, insert-threads name v vs))
]

sort-threads :
    (name : String) (vs : List Victim) → threads_of name (sort victim_le vs) ≡ threads_of name vs
unfolding sort
sort-threads name [] = refl
sort-threads name (v ∷ vs) =
    omega (arith, insert-threads name v (sort victim_le vs), sort-threads name vs)

-- No program is listed twice, and the threads counted for it are the stuck threads of that program,
-- whatever the order they are given in.
pub by_program-threads :
    (name : String) (stuck : List StuckThread)
    → AreNamedOnce (by_program stuck) × (threads_of name (by_program stuck) ≡ stuck_of name stuck)
unfolding by_program
by_program-threads name stuck = (
  sort-AreNamedOnce (group stuck []) (group-AreNamedOnce stuck [] tt),
  omega (arith, sort-threads name (group stuck []), group-threads name stuck []),
)

-- How the entry of a key in a list of `l` entries stands to the number of times it came.
abbrev IsCount : Option ℕ → ℕ → ℕ → Type 0
IsCount none n l = (n ≡ 0) ⊎ (stack_keys_cap ≤ l)
IsCount (some v) n l = v ≡ u32 n

IsCount-longer : (o : Option ℕ) (n l l' : ℕ) → l ≤ l' → IsCount o n l → IsCount o n l'
IsCount-longer none n l l' h c = ground arith
IsCount-longer (some v) n l l' h c = c

IsCount-same : (o : Option ℕ) (n n' l : ℕ) → n ≡ n' → IsCount o n l → IsCount o n' l
IsCount-same o n n' l e c = subst (λ x. IsCount o x l) e c

some_count : (o : Option ℕ) (n l v : ℕ) → o ≡ some v → IsCount o n l → v ≡ u32 n
some_count none n l v e c = absurd cc
some_count (some w) n l v e c = ground arith

IsCount-more :
    (o : Option ℕ) (n l l' : ℕ)
    → (ltb l stack_keys_cap || is_some o) ≡ true
    → IsCount o n l
    → IsCount (some (u32 (or_default 0 o + 1))) (1 + n) l'
IsCount-more none n l l' h c = ground arith
IsCount-more (some v) n l l' h c = omega arith

module _ {ℓ} {K : Type ℓ} ⦃e : Eq K⦄ where
  unfoldable pub bump_all : List (K × ℕ) → List K → List (K × ℕ)
  bump_all m [] = m
  bump_all m (k ∷ ks) = bump_all (bump m k) ks

  abbrev pub occurrences : K → List K → ℕ
  occurrences k [] = 0
  occurrences k (j ∷ ks) = of_bool (e.beq j k) + occurrences k ks

  length-upsert-ge : (k : K) (f : ℕ → ℕ) (m : List (K × ℕ)) → length m ≤ length (upsert k 0 f m)
  unfolding upsert
  length-upsert-ge k f [] = omega arith
  length-upsert-ge k f ((j, v) ∷ m) = ground (arith, length-upsert-ge k f m)

  length-upsert-le :
      (k : K) (f : ℕ → ℕ) (m : List (K × ℕ))
      → length (upsert k 0 f m) ≤ length m + of_bool (not (is_some (lookup k m)))
  unfolding upsert lookup
  length-upsert-le k f [] = omega arith
  length-upsert-le k f ((j, v) ∷ m) = ground (arith, length-upsert-le k f m)

  bump-IsCount :
      (m : List (K × ℕ)) (j k : K) (c : K → ℕ)
      → IsCount (lookup j m) (c j) (length m)
      → IsCount (lookup k m) (c k) (length m)
      → IsCount (lookup k (bump m j)) (of_bool (e.beq j k) + c k) (length (bump m j))
  unfolding bump
  bump-IsCount m j k c hj hk =
      elim (Bool-cases (ltb (length m) stack_keys_cap || is_some (lookup j m))) [
        | inl room ↦ elim (Bool-cases (e.beq j k)) [
          | inl t ↦
              rw (room, if◌then◌else◌, lookup-upsert k j 0 (λ n. u32 (n + 1)) m, t)
                (subst
                  (λ x.
                    IsCount (some (u32 (or_default 0 (lookup j m) + 1))) (1 + c x)
                      (length (upsert j 0 (λ n. u32 (n + 1)) m)))
                  ((e.beq_iff j k).0 t)
                  (IsCount-more (lookup j m) (c j) (length m)
                    (length (upsert j 0 (λ n. u32 (n + 1)) m)) room hj))
          | inr f ↦
              rw (room, if◌then◌else◌, lookup-upsert k j 0 (λ n. u32 (n + 1)) m, f)
                (IsCount-same (lookup k m) (c k) (0 + c k) _ (omega arith) (
                  IsCount-longer (lookup k m) (c k) (length m) _
                    (length-upsert-ge j (λ n. u32 (n + 1)) m) hk))
        ]
        | inr full ↦ elim (Bool-cases (e.beq j k)) [
          | inl t ↦
              let gone : lookup k m ≡ none =
                subst (λ x. lookup x m ≡ none) ((e.beq_iff j k).0 t) (ground (arith, full)) in
              rw (full, if◌then◌else◌, t, gone) (inr (ground (arith, full)))
          | inr f ↦
              rw (full, if◌then◌else◌, f)
                (IsCount-same (lookup k m) (c k) (0 + c k) _ (omega arith) hk)
        ]
      ]

  bump_all-IsCount :
      (ks : List K) (m : List (K × ℕ)) (c : K → ℕ)
      → ((k : K) → IsCount (lookup k m) (c k) (length m))
      → (k : K)
      → IsCount (lookup k (bump_all m ks)) (occurrences k ks + c k) (length (bump_all m ks))
  unfolding bump_all
  bump_all-IsCount [] m c h k = IsCount-same (lookup k m) (c k) (0 + c k) _ (omega arith) (h k)
  bump_all-IsCount (j ∷ ks) m c h k =
      subst (λ n. IsCount (lookup k (bump_all (bump m j) ks)) n (length (bump_all (bump m j) ks)))
        (omega arith)
        (bump_all-IsCount ks (bump m j) (λ x. of_bool (e.beq j x) + c x)
          (λ x. bump-IsCount m j x c (h j) (h x)) k)

  bump-length :
      (m : List (K × ℕ)) (k : K) → length m ≤ stack_keys_cap → length (bump m k) ≤ stack_keys_cap
  unfolding bump
  bump-length m k h = ground (arith, length-upsert-le k (λ n. u32 (n + 1)) m)

  bump_all-length :
      (ks : List K) (m : List (K × ℕ))
      → length m ≤ stack_keys_cap
      → length (bump_all m ks) ≤ stack_keys_cap
  unfolding bump_all
  bump_all-length [] m h = h
  bump_all-length (k ∷ ks) m h = bump_all-length ks (bump m k) (bump-length m k h)

  -- A tally of whatever keys lists at most 64 of them, and one that is listed was counted each time
  -- it came, in 32 bits.
  pub bump_all-exact :
      (ks : List K) (k : K) (n : ℕ)
      → lookup k (bump_all [] ks) ≡ some n
      → (length (bump_all [] ks) ≤ stack_keys_cap) × (n ≡ u32 (occurrences k ks))
  unfolding lookup
  bump_all-exact ks k n found =
      let count = bump_all-IsCount ks [] (λ x. 0) (λ x. inl refl) k in
      (
        bump_all-length ks [] (omega arith),
        omega (arith, some_count (lookup k (bump_all [] ks)) _ _ n found count),
      )
