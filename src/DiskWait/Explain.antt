-- ===== src/DiskWait/Explain.antt =====
-- What the explanation of a delay stands for.
use wtfis_stalling.Base.{
  ℕ, ◌≡◌, Bool, true, false, Option, none, some, List, [], ◌∷◌, filter, ◌⊎◌, inl, inr, arith,
  Bool-cases, Option-cases, Memᴰ, sym, ap, ◌∙◌, subst,
}
use wtfis_stalling.Base.Int.{ℤ}
use wtfis_stalling.State.Records.{IoRec, FaultRec}
use wtfis_stalling.DiskWait.{
  trigger, DiskWait, io_role, covers_io, max_by, io_le, of_io, explained, explain,
}

-- What the greatest element of a list with one more in front is.
abbrev Step : (IoRec → IoRec → Bool) → IoRec → List IoRec → IoRec → Type 0
Step le y xs m =
    ((max_by le xs ≡ none) × (y ≡ m))
    ⊎ ((z : IoRec) × (max_by le xs ≡ some z) × (le y z ≡ true) × (z ≡ m))
    ⊎ ((z : IoRec) × (max_by le xs ≡ some z) × (le y z ≡ false) × (y ≡ m))

max_by-Step :
    (le : IoRec → IoRec → Bool) (y : IoRec) (xs : List IoRec) (m : IoRec)
    → max_by le (y ∷ xs) ≡ some m
    → Step le y xs m
unfolding max_by
max_by-Step le y xs m e = elim (Option-cases (max_by le xs)) [
  | inl empty ↦ inl (empty, ground (arith, empty, e))
  | inr (z, found) ↦ elim (Bool-cases (le y z)) [
    | inl below ↦ inr (inl (z, found, below, ground (arith, found, below, e)))
    | inr above ↦ inr (inr (z, found, above, ground (arith, found, above, e)))
  ]
]

max_by-some :
    (le : IoRec → IoRec → Bool) (y : IoRec) (xs : List IoRec)
    → (m : IoRec) × (max_by le (y ∷ xs) ≡ some m)
unfolding max_by
max_by-some le y xs = elim (Option-cases (max_by le xs)) [
  | inl empty ↦ (y, ground (arith, empty))
  | inr (z, found) ↦ elim (Bool-cases (le y z)) [
    | inl below ↦ (z, ground (arith, found, below))
    | inr above ↦ (y, ground (arith, found, above))
  ]
]

max_by-none :
    (le : IoRec → IoRec → Bool) (xs : List IoRec) (x : IoRec) → Memᴰ x xs → max_by le xs ≡ none → ⊥
max_by-none le [] x m e = elim m [ ]
max_by-none le (y ∷ xs) x m e = let (z, found) = max_by-some le y xs in cc

Memᴰ-filter :
    (p : IoRec → Bool) (xs : List IoRec) (x : IoRec) → Memᴰ x xs → p x ≡ true → Memᴰ x (filter p xs)
Memᴰ-filter p [] x m h = elim m [ ]
Memᴰ-filter p (y ∷ xs) x (Memᴰ.head e) h = rw (ap p (sym e) ∙ h) (Memᴰ.head e)
Memᴰ-filter p (y ∷ xs) x (Memᴰ.tail m) h = elim (Bool-cases (p y)) [
  | inl t ↦ rw t (Memᴰ.tail (Memᴰ-filter p xs x m h))
  | inr t ↦ rw t (Memᴰ-filter p xs x m h)
]

module _ (freq : ℕ) (start end : ℤ) where
  abbrev IsTrigger : IoRec → Type 0
  IsTrigger r = io_role freq start end r ≡ trigger

  io_le-up : (x z : IoRec) → io_le freq start end x z ≡ true → IsTrigger x → IsTrigger z
  unfolding io_le
  io_le-up x z below t = ground arith

  io_le-above : (y z : IoRec) → io_le freq start end y z ≡ false → IsTrigger z → IsTrigger y
  unfolding io_le
  io_le-above y z above t = ground arith

  -- A trigger among the requests makes the greatest of them one.
  max_by-IsTrigger :
      (xs : List IoRec) (m x : IoRec)
      → max_by (io_le freq start end) xs ≡ some m
      → Memᴰ x xs
      → IsTrigger x
      → IsTrigger m
  max_by-IsTrigger [] m x e mem t = elim mem [ ]
  max_by-IsTrigger (y ∷ xs) m x e (Memᴰ.head here) t =
      elim (max_by-Step (io_le freq start end) y xs m e) [
        | inl (empty, same) ↦ subst IsTrigger (here ∙ same) t
        | inr (inl (z, found, below, same)) ↦
            subst IsTrigger same (io_le-up y z below (subst IsTrigger here t))
        | inr (inr (z, found, above, same)) ↦ subst IsTrigger (here ∙ same) t
      ]
  max_by-IsTrigger (y ∷ xs) m x e (Memᴰ.tail mem) t =
      elim (max_by-Step (io_le freq start end) y xs m e) [
        | inl (empty, same) ↦ absurd (max_by-none (io_le freq start end) xs x mem empty)
        | inr (inl (z, found, below, same)) ↦
            subst IsTrigger same (max_by-IsTrigger xs z x found mem t)
        | inr (inr (z, found, above, same)) ↦
            subst IsTrigger same (io_le-above y z above (max_by-IsTrigger xs z x found mem t))
      ]

  explained-trigger :
      (o : Option IoRec) (own_fault : Bool) (fault : Option FaultRec) (w : DiskWait) (m : IoRec)
      → o ≡ some m
      → IsTrigger m
      → explained freq start end o own_fault fault ≡ some w
      → w.role ≡ trigger
  unfolding of_io
  explained-trigger none own_fault fault w m e t h = cc
  explained-trigger (some i) own_fault fault w m e t h = ground (arith, e, t, h)

-- If one of the requests that cover half of the delay was outstanding before it and lasted to its
-- end, the explanation is such a request, however long the others took.
pub explain-trigger :
    (freq : ℕ) (start end : ℤ) (ios : List IoRec) (faults : List FaultRec) (own_pid : ℕ) (i : IoRec)
    (w : DiskWait)
    → Memᴰ i ios
    → covers_io start end i ≡ true
    → io_role freq start end i ≡ trigger
    → explain freq start end ios faults own_pid ≡ some w
    → w.role ≡ trigger
unfolding explain
explain-trigger freq start end ios faults own_pid i w mem c t e =
    let candidates = filter (covers_io start end) ios in
    let there = Memᴰ-filter (covers_io start end) ios i mem c in
    elim (Option-cases (max_by (io_le freq start end) candidates)) [
      | inl empty ↦ absurd (max_by-none (io_le freq start end) candidates i there empty)
      | inr (m, found) ↦
          explained-trigger freq start end _ _ _ w m found
            (max_by-IsTrigger freq start end candidates m i found there t) e
    ]
