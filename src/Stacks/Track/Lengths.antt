-- ===== src/Stacks/Track/Lengths.antt =====
-- How long the queues and maps are after a change.
use wtfis_stalling.Base.{
  ℕ, suc, ◌≡◌, ◌≤◌, refl, ap, arith, Bool, Option, some, List, [], ◌∷◌, ◌++◌, if◌then◌else◌, ltb,
  length, Bool-cases, inl, inr, ◌==◌, max, filter,
}
use wtfis_stalling.Base.Int.{ℤ, max_opt}
use wtfis_stalling.Base.Assoc.{nat_eq, lookup, remove, upsert}
use wtfis_stalling.Stacks.Track.{shrink, push_capped}

shrink-length {ℓ} :
    {A : Type ℓ} (cap : ℕ) (ts : A → ℤ) (q : List A) (lost : Option ℤ)
    → length (shrink cap ts q lost).0 ≤ max cap 1
unfolding shrink
shrink-length cap ts [] lost = omega arith
shrink-length cap ts (x ∷ q) lost = elim (Bool-cases (ltb (max cap 1) (suc (length q)))) [
  | inl t ↦ rw (t, if◌then◌else◌) (shrink-length cap ts q (max_opt lost (some (ts x))))
  | inr t ↦ rw (t, if◌then◌else◌) (ground arith)
]

pub push_capped-length {ℓ} :
    {A : Type ℓ} (q : List A) (item : A) (cap : ℕ) (ts : A → ℤ) (lost : Option ℤ)
    → length (push_capped q item cap ts lost).0 ≤ max cap 1
unfolding push_capped
push_capped-length q item cap ts lost = shrink-length cap ts (q ++ item ∷ []) lost

module _ {ℓ} {V : Type ℓ} where
  pub length-upsert-some :
      (k : ℕ) (d v : V) (f : V → V) (m : List (ℕ × V))
      → lookup k m ≡ some v
      → length (upsert k d f m) ≡ length m
  unfolding lookup upsert
  length-upsert-some k d v f [] e = absurd cc
  length-upsert-some k d v f ((j, u) ∷ m) e = elim (Bool-cases (j == k)) [
    | inl t ↦ rw (t, if◌then◌else◌) refl
    | inr t ↦ rw (t, if◌then◌else◌) (ap suc (length-upsert-some k d v f m (ground (arith, t, e))))
  ]

  pub length-upsert-le :
      (k : ℕ) (d : V) (f : V → V) (m : List (ℕ × V)) → length (upsert k d f m) ≤ suc (length m)
  unfolding upsert
  length-upsert-le k d f [] = omega arith
  length-upsert-le k d f ((j, u) ∷ m) = ground (arith, length-upsert-le k d f m)

  pub length-remove-le : (k : ℕ) (m : List (ℕ × V)) → length (remove k m) ≤ length m
  unfolding remove
  length-remove-le k [] = omega arith
  length-remove-le k ((j, u) ∷ m) = ground (arith, length-remove-le k m)

  pub length-filter-le : (p : ℕ × V → Bool) (m : List (ℕ × V)) → length (filter p m) ≤ length m
  length-filter-le p [] = omega arith
  length-filter-le p (x ∷ m) = ground (arith, length-filter-le p m)
