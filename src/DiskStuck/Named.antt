-- ===== src/DiskStuck/Named.antt =====
-- `by_program` of src/diskstuck.rs lists each program once.
use Prim.Native.String.{String}
use text.Mathlib.Text.{◌==◌ as str_eq}
use text.Mathlib.TextEquality.{eq_iff}
use wtfis_stalling.Base.{
  Bool, false, any, sym, ◌∙◌, ◌≡◌, refl, ap, arith, true, ◌||◌, Option, List, [], ◌∷◌,
  if◌then◌else◌, Bool-cases, inl, inr,
}
use wtfis_stalling.Base.Int.{ℤ}
use wtfis_stalling.Base.Sort.{sort, insert_sorted, any-insert, any-sort}
use wtfis_stalling.DiskStuck.Programs.{
  Victim, StuckThread, add_thread, add_victim, group, victim_le,
}

-- No name is listed twice.
abbrev has_name : List Victim → String → Bool
has_name vs name = any (λ v. str_eq v.name name) vs

abbrev pub AreNamedOnce : List Victim → Type 0
AreNamedOnce [] = Unit
AreNamedOnce (v ∷ vs) = (has_name vs v.name ≡ false) × AreNamedOnce vs

str_eq_swap : (a b : String) → str_eq a b ≡ false → str_eq b a ≡ false
str_eq_swap a b f = elim (Bool-cases (str_eq b a)) [
  | inl t ↦
      let same : str_eq a b ≡ true = (eq_iff a b).1 (sym ((eq_iff b a).0 t)) in
      absurd (ground (arith, same, f))
  | inr g ↦ g
]

add_victim-has_name :
    (name by : String) (waited : ℤ) (inside : Option String) (vs : List Victim)
    → has_name (add_victim by waited inside vs) name ≡ (has_name vs name || str_eq by name)
unfolding add_victim add_thread
add_victim-has_name name by waited inside [] = ground arith
add_victim-has_name name by waited inside (v ∷ vs) = elim (Bool-cases (str_eq v.name by)) [
  | inl t ↦
      let same : str_eq v.name name ≡ str_eq by name =
        ap (λ n. str_eq n name) ((eq_iff v.name by).0 t) in
      rw (t, if◌then◌else◌) (ground (arith, same))
  | inr f ↦ rw (f, if◌then◌else◌) (ground (arith, add_victim-has_name name by waited inside vs))
]

add_victim-AreNamedOnce :
    (by : String) (waited : ℤ) (inside : Option String) (vs : List Victim)
    → AreNamedOnce vs
    → AreNamedOnce (add_victim by waited inside vs)
unfolding add_victim add_thread
add_victim-AreNamedOnce by waited inside [] d = (refl, tt)
add_victim-AreNamedOnce by waited inside (v ∷ vs) d = elim (Bool-cases (str_eq v.name by)) [
  | inl t ↦ rw (t, if◌then◌else◌) d
  | inr f ↦
      rw (f, if◌then◌else◌)
        (
          add_victim-has_name v.name by waited inside vs
              ∙ ground (arith, d.0, str_eq_swap v.name by f),
          add_victim-AreNamedOnce by waited inside vs d.1,
        )
]

pub group-AreNamedOnce :
    (ts : List StuckThread) (vs : List Victim) → AreNamedOnce vs → AreNamedOnce (group ts vs)
unfolding group
group-AreNamedOnce [] vs d = d
group-AreNamedOnce ((by, (waited, inside)) ∷ ts) vs d =
    group-AreNamedOnce ts (add_victim by waited inside vs)
      (add_victim-AreNamedOnce by waited inside vs d)

insert-AreNamedOnce :
    (v : Victim) (vs : List Victim)
    → has_name vs v.name ≡ false
    → AreNamedOnce vs
    → AreNamedOnce (insert_sorted victim_le v vs)
unfolding insert_sorted
insert-AreNamedOnce v [] f d = (refl, tt)
insert-AreNamedOnce v (x ∷ vs) f d = elim (Bool-cases (victim_le v x)) [
  | inl t ↦ rw (t, if◌then◌else◌) (f, d)
  | inr t ↦
      let apart : str_eq v.name x.name ≡ false = str_eq_swap x.name v.name (ground (arith, f)) in
      rw (t, if◌then◌else◌)
        (
          any-insert victim_le (λ y. str_eq y.name x.name) v vs ∙ ground (arith, apart, d.0),
          insert-AreNamedOnce v vs (ground (arith, f)) d.1,
        )
]

pub sort-AreNamedOnce : (vs : List Victim) → AreNamedOnce vs → AreNamedOnce (sort victim_le vs)
unfolding sort
sort-AreNamedOnce [] d = tt
sort-AreNamedOnce (v ∷ vs) d =
    insert-AreNamedOnce v (sort victim_le vs)
      (any-sort victim_le (λ y. str_eq y.name v.name) vs ∙ d.0) (sort-AreNamedOnce vs d.1)
