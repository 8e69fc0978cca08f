-- ===== src/Switches/Merging.antt =====
-- The merged stream of switches and wake-ups is both streams, each in its own order.
use wtfis_stalling.Base.{
  ◌≡◌, refl, ap, ◌∙◌, ◌&&◌, List, [], ◌∷◌, ◌++◌, filter, map, arith, Bool-cases, inl, inr,
}
use wtfis_stalling.Base.Int.{ℤ, leb_ℤ}
use wtfis_stalling.State.Records.{SwitchRec, ReadyRec}
use wtfis_stalling.Switches.Waits.{
  Step, switch, ready, readies_before, readies_after, merge_steps, merged,
}

abbrev pub switches_of : List Step → List SwitchRec
switches_of [] = []
switches_of (switch s ∷ steps) = s ∷ switches_of steps
switches_of (ready r ∷ steps) = switches_of steps

abbrev pub readies_of : List Step → List ReadyRec
readies_of [] = []
readies_of (switch s ∷ steps) = readies_of steps
readies_of (ready r ∷ steps) = r ∷ readies_of steps

map-ready :
    (rd : List ReadyRec) → (switches_of (map ready rd) ≡ []) × (readies_of (map ready rd) ≡ rd)
map-ready [] = (refl, refl)
map-ready (r ∷ rd) = ((map-ready rd).0, ap (◌∷◌ r) (map-ready rd).1)

-- The wake-ups before a switch come out, and the switches behind them are as they were.
before-switches :
    (ts : ℤ) (rd : List ReadyRec) (steps : List Step)
    → switches_of (readies_before ts rd ++ steps) ≡ switches_of steps
unfolding readies_before
before-switches ts [] steps = refl
before-switches ts (r ∷ rd) steps = elim (Bool-cases (leb_ℤ r.ts ts)) [
  | inl early ↦ rw early (before-switches ts rd steps)
  | inr late ↦ rw late refl
]

before-readies :
    (ts : ℤ) (rd : List ReadyRec) (steps : List Step)
    → readies_of steps ≡ readies_after ts rd
    → readies_of (readies_before ts rd ++ steps) ≡ rd
unfolding readies_before readies_after
before-readies ts [] steps e = e
before-readies ts (r ∷ rd) steps e = elim (Bool-cases (leb_ℤ r.ts ts)) [
  | inl early ↦ rw early (ap (◌∷◌ r) (before-readies ts rd steps (ground (arith, e, early))))
  | inr late ↦ rw late (ground (arith, e, late))
]

merge_steps-keeps :
    (sw : List SwitchRec) (rd : List ReadyRec)
    → (switches_of (merge_steps sw rd) ≡ sw) × (readies_of (merge_steps sw rd) ≡ rd)
unfolding merge_steps
merge_steps-keeps [] rd = map-ready rd
merge_steps-keeps (s ∷ sw) rd =
    let rest = merge_steps-keeps sw (readies_after s.ts rd) in
    let steps = switch s ∷ merge_steps sw (readies_after s.ts rd) in
    (before-switches s.ts rd steps ∙ ap (◌∷◌ s) rest.0, before-readies s.ts rd steps rest.1)

-- Merging loses no record of the window and invents none: its switches are those of the window in
-- their order, and so are its wake-ups.
pub merged-keeps :
    (sw : List SwitchRec) (rd : List ReadyRec) (from to : ℤ)
    → (switches_of (merged sw rd from to)
        ≡ filter (λ (s : SwitchRec). leb_ℤ from s.ts && leb_ℤ s.ts to) sw)
      × (readies_of (merged sw rd from to)
          ≡ filter (λ (r : ReadyRec). leb_ℤ from r.ts && leb_ℤ r.ts to) rd)
unfolding merged
merged-keeps sw rd from to = merge_steps-keeps _ _
