-- ===== src/Cut.antt =====
-- The binary search that both traces use to find a window of a ring (`partition_point` of the
-- standard library, in src/state.rs and src/storport/mod.rs), and the window cut out by it.
use mathlib.Core.Path.{◌≡⟨◌⟩◌, ◌∎}
use wtfis_stalling.Base.{
  ℕ, zero, suc, ◌+◌, ◌-◌, ◌<◌, ◌≡◌, refl, sym, ap, ◌∙◌, Bool, true, false, ◌&&◌, List, [], ◌∷◌,
  ◌++◌, append-nil, arith, if◌then◌else◌, take, drop, filter, filter-append, All, max,
}
use wtfis_stalling.Base.Int.{ℤ, pos, leb_ℤ, ltb_ℤ, ◌+i64◌, ◌-i64◌, +i64_parts, -i64_parts, IsTick}

-- `ring.range(a..b.max(a))`.
unfoldable pub range {ℓ} : {A : Type ℓ} → ℕ → ℕ → List A → List A
range a b xs = take (max b a - a) (drop a xs)

module _ {ℓ} {A : Type ℓ} where
  -- The elements before number `n` pass the test, and none passes from there on.
  abbrev pub IsCut : (A → Bool) → List A → ℕ → Type 0
  IsCut p xs n = All (λ x. p x ≡ true) (take n xs) × All (λ x. p x ≡ false) (drop n xs)

  -- All the elements that pass come before all those that do not.
  abbrev pub IsPartitioned : (A → Bool) → List A → Type 0
  IsPartitioned p xs = (n : ℕ) × IsCut p xs n

  -- What is documented of the search: in a list that is partitioned it finds where. Of other lists
  -- nothing is said.
  abbrev pub IsPartitionPoint : ((A → Bool) → List A → ℕ) → Type ℓ
  IsPartitionPoint pp = (p : A → Bool) (xs : List A) → IsPartitioned p xs → IsCut p xs (pp p xs)

  -- A search that meets the contract: the length of the front whose elements all pass.
  unfoldable pub front_length : (A → Bool) → List A → ℕ
  front_length p [] = 0
  front_length p (x ∷ xs) = let rest = front_length p xs in if p x then suc rest else 0

  front_length-none :
      (p : A → Bool) (xs : List A) → All (λ x. p x ≡ false) xs → front_length p xs ≡ 0
  unfolding front_length
  front_length-none p [] h = refl
  front_length-none p (x ∷ xs) h = ground (arith, h.0)

  front_length-IsCut :
      (p : A → Bool) (xs : List A) (n : ℕ) → IsCut p xs n → IsCut p xs (front_length p xs)
  unfolding front_length
  front_length-IsCut p [] n h = (tt, tt)
  front_length-IsCut p (x ∷ xs) zero h = rw (h.1.0, if◌then◌else◌) (tt, h.1)
  front_length-IsCut p (x ∷ xs) (suc n) h =
      let rest = front_length-IsCut p xs n (h.0.1, h.1) in
      rw (h.0.0, if◌then◌else◌) ((h.0.0, rest.0), rest.1)

  pub front_length-IsPartitionPoint : IsPartitionPoint front_length
  front_length-IsPartitionPoint p xs (n, h) = front_length-IsCut p xs n h

  take-append-drop : (n : ℕ) (xs : List A) → xs ≡ take n xs ++ drop n xs
  take-append-drop zero xs = refl
  take-append-drop (suc n) [] = refl
  take-append-drop (suc n) (x ∷ xs) = ap (◌∷◌ x) (take-append-drop n xs)

  drop-nil : (n : ℕ) → drop {A = A} n [] ≡ []
  drop-nil zero = refl
  drop-nil (suc n) = refl

  drop-drop : (n m k : ℕ) (xs : List A) → k ≡ m + n → drop n (drop m xs) ≡ drop k xs
  drop-drop n zero k xs e = let e' : k ≡ n = omega arith in rw e'
  drop-drop n (suc m) k [] e = drop-nil n ∙ sym (drop-nil k)
  drop-drop n (suc m) zero (x ∷ xs) e = absurd (omega arith)
  drop-drop n (suc m) (suc k) (x ∷ xs) e = drop-drop n m k xs (omega arith)

  filter-none : (p : A → Bool) (xs : List A) → All (λ x. p x ≡ false) xs → filter p xs ≡ []
  filter-none p [] h = refl
  filter-none p (x ∷ xs) h = ground (arith, filter-none p xs)

  All-drop {κ} : (P : A → Type κ) (n : ℕ) (xs : List A) → All P xs → All P (drop n xs)
  All-drop P zero xs h = h
  All-drop P (suc n) [] h = tt
  All-drop P (suc n) (x ∷ xs) h = All-drop P n xs h.1

  pub All-take {κ} : (P : A → Type κ) (n : ℕ) (xs : List A) → All P xs → All P (take n xs)
  All-take P zero xs h = tt
  All-take P (suc n) [] h = tt
  All-take P (suc n) (x ∷ xs) h = (h.0, All-take P n xs h.1)

  -- Only what the test rejects is outside the range.
  filter-range :
      (q : A → Bool) (a b : ℕ) (xs : List A)
      → All (λ x. q x ≡ false) (take a xs)
      → All (λ x. q x ≡ false) (drop b xs)
      → filter q (range a b xs) ≡ filter q xs
  unfolding range
  filter-range q a b xs before after =
      filter q (take k (drop a xs))
      ≡⟨ sym (append-nil _) ⟩ filter q (take k (drop a xs)) ++ []
      ≡⟨ ap (λ (ys : List A). filter q (take k (drop a xs)) ++ ys) (sym beyond) ⟩
        filter q (take k (drop a xs)) ++ filter q (drop k (drop a xs))
      ≡⟨ sym (filter-append q (take k (drop a xs)) (drop k (drop a xs))) ⟩
        filter q (take k (drop a xs) ++ drop k (drop a xs))
      ≡⟨ ap (filter q) (sym (take-append-drop k (drop a xs))) ⟩ filter q (drop a xs)
      ≡⟨ ap (λ (ys : List A). ys ++ filter q (drop a xs)) (sym (filter-none q (take a xs) before)) ⟩
        filter q (take a xs) ++ filter q (drop a xs)
      ≡⟨ sym (filter-append q (take a xs) (drop a xs)) ⟩ filter q (take a xs ++ drop a xs)
      ≡⟨ ap (filter q) (sym (take-append-drop a xs)) ⟩ filter q xs ∎
    where
      k : ℕ
      k = max b a - a

      beyond : filter q (drop k (drop a xs)) ≡ []
      beyond = filter-none q _ (
          rw (drop-drop k a (b + (max b a - b)) xs (omega arith)) (
            rw (← drop-drop (max b a - b) b (b + (max b a - b)) xs refl)
              (All-drop (λ x. q x ≡ false) (max b a - b) (drop b xs) after)))

module _ {ℓ} {A : Type ℓ} (ts : A → ℤ) where
  abbrev pub in_window : ℤ → ℤ → A → Bool
  in_window from to x = leb_ℤ from (ts x) && leb_ℤ (ts x) to

  -- The binary search is widened by `slop` at either side, and the exact bounds are applied to
  -- what it finds.
  unfoldable pub window : ((A → Bool) → List A → ℕ) → ℤ → ℤ → ℤ → List A → List A
  window pp slop from to xs =
      let a = pp (λ x. ltb_ℤ (ts x) (from -i64 slop)) xs in
      let b = pp (λ x. leb_ℤ (ts x) (to +i64 slop)) xs in filter (in_window from to) (range a b xs)

  -- The records older than the widened window come before the others, and those younger than it
  -- after them. A ring in order is so, and so is one that is out of order anywhere else.
  abbrev pub IsSearchable : ℤ → ℤ → ℤ → List A → Type 0
  IsSearchable slop from to xs =
      IsPartitioned (λ x. ltb_ℤ (ts x) (from -i64 slop)) xs
      × IsPartitioned (λ x. leb_ℤ (ts x) (to +i64 slop)) xs

All-map {ℓ κ μ} :
    {A : Type ℓ} (P : A → Type κ) (Q : A → Type μ) (xs : List A)
    → ((x : A) → P x → Q x)
    → All P xs
    → All Q xs
All-map P Q [] f h = tt
All-map P Q (x ∷ xs) f h = (f x h.0, All-map P Q xs f h.1)

module _ {ℓ} {A : Type ℓ} (ts : A → ℤ) (slop : ℕ) where
  -- Where the binary searches are of use, the window holds every record that lies in it, and those
  -- in their order.
  pub window-eq-filter :
      (pp : (A → Bool) → List A → ℕ) (from to : ℤ) (xs : List A)
      → IsPartitionPoint pp
      → IsTick from
      → IsTick to
      → slop < 1152921504606846976
      → IsSearchable ts (pos slop) from to xs
      → window ts pp (pos slop) from to xs ≡ filter (in_window ts from to) xs
  unfolding window
  window-eq-filter pp from to xs finds hf ht hs (older, within) =
      let lo = -i64_parts from (pos slop) in
      let hi = +i64_parts to (pos slop) in
      filter-range (in_window ts from to) _ _ xs
        (All-map _ _ _ (λ x early. ground (arith, lo)) (finds _ xs older).0)
        (All-map _ _ _ (λ x late. ground (arith, hi)) (finds _ xs within).1)
