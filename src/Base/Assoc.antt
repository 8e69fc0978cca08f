-- ===== src/Base/Assoc.antt =====
-- A `HashMap` as an association list. A key that is looked up, changed or removed is the first one
-- that equals it; new keys go to the end, so the list's order stands for the map's own order.
use mathlib.Core.Bool.{Bool, true}
use mathlib.Core.List.{List, [], ◌∷◌}
use mathlib.Core.Logic.{◌↔◌}
use mathlib.Core.Option.{Option, none, some}
use mathlib.Core.Path.{◌≡◌, refl}
use Prim.Native.Nat.{ℕ, ◌+◌}
use Prim.Native.String.{String}
use text.Mathlib.Text.{◌==◌ as str_eq}
use text.Mathlib.TextEquality.{eq_iff}
use native.Mathlib.Omega.{arith}
use wtfis_stalling.Base.Tests.{if◌then◌else◌, ◌==◌, ==_iff}

pub record Eq {ℓ} (A : Type ℓ) : Type ℓ where
  pub beq : A → A → Bool
  pub beq_iff : (a b : A) → (beq a b ≡ true) ↔ (a ≡ b)

instance abbrev pub nat_eq : Eq ℕ
nat_eq = record { beq = ◌==◌; beq_iff = ==_iff }

instance abbrev pub string_eq : Eq String
string_eq = record { beq = str_eq; beq_iff = eq_iff }

abbrev pub or_default {ℓ} : {V : Type ℓ} → V → Option V → V
or_default d none = d
or_default d (some v) = v

module _ {ℓ κ} {K : Type ℓ} {V : Type κ} ⦃e : Eq K⦄ where
  unfoldable pub lookup : K → List (K × V) → Option V
  lookup k [] = none
  lookup k ((j, v) ∷ m) = if e.beq j k then some v else lookup k m

  unfoldable pub remove : K → List (K × V) → List (K × V)
  remove k [] = []
  remove k ((j, v) ∷ m) = if e.beq j k then m else (j, v) ∷ remove k m

  -- `f` applied in place to `entry(k).or_insert(d)`.
  unfoldable pub upsert : K → V → (V → V) → List (K × V) → List (K × V)
  upsert k d f [] = (k, f d) ∷ []
  upsert k d f ((j, v) ∷ m) = if e.beq j k then (j, f v) ∷ m else (j, v) ∷ upsert k d f m

  pub lookup-upsert :
      (j k : K) (d : V) (f : V → V) (m : List (K × V))
      → lookup j (upsert k d f m)
        ≡ (if e.beq k j then some (f (or_default d (lookup k m))) else lookup j m)
  unfolding lookup upsert
  lookup-upsert j k d f [] = refl
  lookup-upsert j k d f ((i, v) ∷ m) =
      ground (arith, e.beq_iff i k, e.beq_iff k j, e.beq_iff i j, lookup-upsert j k d f m)

-- The sum of a quantity over the values.
unfoldable pub sum_values {ℓ κ} : {K : Type ℓ} {V : Type κ} → (V → ℕ) → List (K × V) → ℕ
sum_values w [] = 0
sum_values w ((k, v) ∷ m) = w v + sum_values w m

abbrev pub weight {κ} : {V : Type κ} → (V → ℕ) → Option V → ℕ
weight w none = 0
weight w (some v) = w v

module _ {ℓ κ} {K : Type ℓ} {V : Type κ} ⦃e : Eq K⦄ (w : V → ℕ) where
  pub sum_values-remove :
      (k : K) (m : List (K × V))
      → sum_values w (remove k m) + weight w (lookup k m) ≡ sum_values w m
  unfolding lookup remove sum_values
  sum_values-remove k [] = refl
  sum_values-remove k ((j, v) ∷ m) = ground (arith, sum_values-remove k m)

  pub sum_values-upsert :
      (k : K) (d : V) (f : V → V) (m : List (K × V))
      → sum_values w (upsert k d f m) + weight w (lookup k m)
        ≡ sum_values w m + w (f (or_default d (lookup k m)))
  unfolding lookup upsert sum_values
  sum_values-upsert k d f [] = omega arith
  sum_values-upsert k d f ((j, v) ∷ m) = ground (arith, sum_values-upsert k d f m)
