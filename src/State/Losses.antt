-- ===== src/State/Losses.antt =====
-- What may leave a ring of src/state.rs, and what is known of it then.
use mathlib.Core.Option
use wtfis_stalling.Base.{
  ◌⊎◌, inl, inr, Bool, Bool-cases, Option, none, some, List, [], ◌∷◌, ◌++◌, arith, Memᴰ, All, head?,
  tail, drop_while,
}
use wtfis_stalling.Base.Int.{ℤ, ◌≤ℤ◌, ltb_ℤ, max_opt}

-- A record of time `t` was thrown away by a count cap, which noted it.
abbrev pub LostBy : Option ℤ → ℤ → Type 0
LostBy none t = ⊥
LostBy (some l) t = t ≤ℤ l

pub LostBy-max_opt_left : (a b : Option ℤ) (t : ℤ) → LostBy a t → LostBy (max_opt a b) t
unfolding max_opt
LostBy-max_opt_left none b t h = absurd h
LostBy-max_opt_left (some a) none t h = h
LostBy-max_opt_left (some a) (some b) t h = ground arith

pub LostBy-max_opt_right : (a b : Option ℤ) (t : ℤ) → LostBy b t → LostBy (max_opt a b) t
unfolding max_opt
LostBy-max_opt_right none b t h = h
LostBy-max_opt_right (some a) none t h = absurd h
LostBy-max_opt_right (some a) (some b) t h = ground arith

module _ {ℓ} {A : Type ℓ} where
  pub All-append_last {κ} :
      (P : A → Type κ) (xs : List A) (a : A) → All P xs → P a → All P (xs ++ a ∷ [])
  All-append_last P [] a h p = (p, tt)
  All-append_last P (x ∷ xs) a h p = (h.0, All-append_last P xs a h.1 p)

  pub All-tail {κ} : (P : A → Type κ) (xs : List A) → All P xs → All P (tail xs)
  All-tail P [] h = tt
  All-tail P (x ∷ xs) h = h.1

  pub All-drop_while {κ} :
      (P : A → Type κ) (p : A → Bool) (xs : List A) → All P xs → All P (drop_while p xs)
  All-drop_while P p [] h = tt
  All-drop_while P p (x ∷ xs) h = elim (Bool-cases (p x)) [
    | inl t ↦ rw t (All-drop_while P p xs h.1)
    | inr t ↦ rw t h
  ]

  pub All-imp {κ μ} :
      (P : A → Type κ) (Q : A → Type μ) (xs : List A) → ((x : A) → P x → Q x) → All P xs → All Q xs
  All-imp P Q [] f h = tt
  All-imp P Q (x ∷ xs) f h = (f x h.0, All-imp P Q xs f h.1)

module _ {ℓ} {A : Type ℓ} (ts : A → ℤ) where
  -- The oldest record of a full ring is noted before it goes.
  pub tail-LostBy :
      (a : Option ℤ) (q : List A) (x : A)
      → Memᴰ x q
      → Memᴰ x (tail q) ⊎ LostBy (max_opt a (Option.map ts (head? q))) (ts x)
  tail-LostBy a [] x m = elim m [ ]
  tail-LostBy a (y ∷ q) x (Memᴰ.head e) =
      inr (LostBy-max_opt_right a (some (ts y)) (ts x) (rw e (omega arith)))
  tail-LostBy a (y ∷ q) x (Memᴰ.tail m) = inl m

  -- A ring in the order of its times.
  abbrev pub Ascending : List A → Type 0
  Ascending [] = Unit
  Ascending (x ∷ xs) = All (λ y. ts x ≤ℤ ts y) xs × Ascending xs

  pub Ascending-append_last :
      (xs : List A) (a : A) → Ascending xs → All (λ y. ts y ≤ℤ ts a) xs → Ascending (xs ++ a ∷ [])
  Ascending-append_last [] a h k = (tt, tt)
  Ascending-append_last (x ∷ xs) a h k =
      (All-append_last _ xs a h.0 k.0, Ascending-append_last xs a h.1 k.1)

  pub Ascending-tail : (xs : List A) → Ascending xs → Ascending (tail xs)
  Ascending-tail [] h = tt
  Ascending-tail (x ∷ xs) h = h.1

  -- Pruning by time leaves a ring in order, without a record from before the cutoff.
  pub drop_while-late :
      (cutoff : ℤ) (xs : List A)
      → Ascending xs
      → Ascending (drop_while (λ x. ltb_ℤ (ts x) cutoff) xs)
        × All (λ y. cutoff ≤ℤ ts y) (drop_while (λ x. ltb_ℤ (ts x) cutoff) xs)
  drop_while-late cutoff [] h = (tt, tt)
  drop_while-late cutoff (x ∷ xs) h = elim (Bool-cases (ltb_ℤ (ts x) cutoff)) [
    | inl early ↦ rw early (drop_while-late cutoff xs h.1)
    | inr late ↦
        rw late (h, (ground arith, All-imp _ (λ y. cutoff ≤ℤ ts y) xs (λ y le. ground arith) h.0))
  ]
