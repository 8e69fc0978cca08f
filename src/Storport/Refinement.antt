-- ===== src/Storport/Refinement.antt =====
-- The ring against its specification: the list of all requests that the session reported.
use mathlib.Core.Option
use wtfis_stalling.Base.{
  ℕ, ◌<◌, ◌≡◌, refl, sym, ap, ◌∙◌, ◌⊎◌, inl, inr, Bool, true, false, Bool-cases, Option, some, List,
  [], ◌∷◌, ◌++◌, append-nil, append_assoc, arith, All, map, filter, filter-append, head?, tail,
  drop_while, ltb, length, max, if◌then◌else◌,
}
use wtfis_stalling.Base.Int.{ℤ, ◌<ℤ◌, ltb_ℤ, max_ℤ-bounds, max_opt, ◌-i64◌, IsTick}
use wtfis_stalling.Util.{ms_to_ticks}
use wtfis_stalling.Cut.{IsPartitionPoint, IsSearchable, in_window}
use wtfis_stalling.Storport.Types.{ReqRec, ResetRec, addr_eq}
use wtfis_stalling.Storport.Ring.{
  StorInner, RetryBy, attach, bump_irp, bump_orig, attach_both, push_ring, push_req, on_retry,
  on_reset, prune, covers,
}
use wtfis_stalling.Storport.Events.{handle}
use wtfis_stalling.Storport.Decode.{
  Event, requested, retried, reset, unread, apply, Respects, handle_cases, Delivery, run, meaning,
}
use wtfis_stalling.Storport.Report.{req_window}
use wtfis_stalling.Storport.Reads.{req_window-eq-filter}
use wtfis_stalling.Storport.Cover.{bare, LostBy, LostBy-max_opt, LostBy-late}

-- The requests among the events, in the order in which they came.
abbrev pub event_requests : Event → List ReqRec
event_requests (requested r) = r ∷ []
event_requests _ = []

abbrev pub requests_among : ℕ → List Delivery → List ReqRec
requests_among freq [] = []
requests_among freq (d ∷ ds) = event_requests (meaning freq d) ++ requests_among freq ds

-- A request left the ring by its age or by the cap, and the state knows.
abbrev IsGone : StorInner → ReqRec → Type 0
IsGone s x = (x.ts <ℤ s.pruned_until) ⊎ LostBy s.reqs_lost_until x

-- The ring is the end of the log, and what is before it is gone.
abbrev Refines : List ReqRec → StorInner → Type 0
Refines log s =
    (gone : List ReqRec) × (map bare log ≡ gone ++ map bare s.reqs) × All (IsGone s) gone

map-bare_append : (xs ys : List ReqRec) → map bare (xs ++ ys) ≡ map bare xs ++ map bare ys
map-bare_append [] ys = refl
map-bare_append (x ∷ xs) ys = ap (◌∷◌ (bare x)) (map-bare_append xs ys)

All-append : (P : ReqRec → Type 0) (xs ys : List ReqRec) → All P xs → All P ys → All P (xs ++ ys)
All-append P [] ys h k = k
All-append P (x ∷ xs) ys h k = (h.0, All-append P xs ys h.1 k)

All-imp :
    (P Q : ReqRec → Type 0) (xs : List ReqRec) → ((x : ReqRec) → P x → Q x) → All P xs → All Q xs
All-imp P Q [] f h = tt
All-imp P Q (x ∷ xs) f h = (f x h.0, All-imp P Q xs f h.1)

-- The records that `drop_while` drops.
abbrev dropped : (ReqRec → Bool) → List ReqRec → List ReqRec
dropped p [] = []
dropped p (x ∷ xs) = let rest = dropped p xs in if p x then x ∷ rest else []

dropped-append : (p : ReqRec → Bool) (xs : List ReqRec) → xs ≡ dropped p xs ++ drop_while p xs
dropped-append p [] = refl
dropped-append p (x ∷ xs) = elim (Bool-cases (p x)) [
  | inl t ↦ rw t (ap (◌∷◌ x) (dropped-append p xs))
  | inr t ↦ rw t refl
]

All-dropped : (p : ReqRec → Bool) (xs : List ReqRec) → All (λ x. p x ≡ true) (dropped p xs)
All-dropped p [] = tt
All-dropped p (x ∷ xs) = elim (Bool-cases (p x)) [
  | inl t ↦ rw t (t, All-dropped p xs)
  | inr t ↦ rw t tt
]

All-map_bare :
    (P : ReqRec → Type 0) (xs : List ReqRec) → All (λ x. P (bare x)) xs → All P (map bare xs)
All-map_bare P [] h = tt
All-map_bare P (x ∷ xs) h = (h.0, All-map_bare P xs h.1)

prune-IsGone : (s : StorInner) (keep : ℤ) (x : ReqRec) → IsGone s x → IsGone (prune s keep) x
unfolding prune
prune-IsGone s keep x (inl old) =
    inl (omega (arith, max_ℤ-bounds s.pruned_until (s.latest_ts -i64 keep)))
prune-IsGone s keep x (inr l) = inr l

prune-old :
    (s : StorInner) (keep : ℤ) (x : ReqRec)
    → ltb_ℤ x.ts (s.latest_ts -i64 keep) ≡ true
    → IsGone (prune s keep) (bare x)
unfolding prune
prune-old s keep x old = inl (ground (arith, max_ℤ-bounds s.pruned_until (s.latest_ts -i64 keep)))

prune-reqs :
    (s : StorInner) (keep : ℤ)
    → (prune s keep).reqs ≡ drop_while (λ r. ltb_ℤ r.ts (s.latest_ts -i64 keep)) s.reqs
unfolding prune
prune-reqs s keep = refl

prune-Refines :
    (log : List ReqRec) (s : StorInner) (keep : ℤ) → Refines log s → Refines log (prune s keep)
prune-Refines log s keep (gone, e, all) =
    let p : ReqRec → Bool = λ r. ltb_ℤ r.ts (s.latest_ts -i64 keep) in
    (
      gone ++ map bare (dropped p s.reqs),
      e
          ∙ ap (λ (xs : List ReqRec). gone ++ xs)
              (ap (map bare) (dropped-append p s.reqs)
                ∙ map-bare_append (dropped p s.reqs) (drop_while p s.reqs))
          ∙ sym (append_assoc gone (map bare (dropped p s.reqs)) (map bare (drop_while p s.reqs)))
          ∙ ap (λ (xs : List ReqRec). (gone ++ map bare (dropped p s.reqs)) ++ map bare xs)
              (sym (prune-reqs s keep)),
      All-append _ gone _ (All-imp _ (IsGone (prune s keep)) gone (prune-IsGone s keep) all) (
          All-map_bare (IsGone (prune s keep)) (dropped p s.reqs) (
            All-imp _ (λ x. IsGone (prune s keep) (bare x)) _ (prune-old s keep)
              (All-dropped p s.reqs))),
    )

-- The oldest record of a ring that is not empty, and the rest.
ring_parts :
    (q : List ReqRec) (r : ReqRec)
    → (h : ReqRec) × (q ++ r ∷ [] ≡ h ∷ tail (q ++ r ∷ [])) × (head? (q ++ r ∷ []) ≡ some h)
ring_parts [] r = (r, refl, refl)
ring_parts (x ∷ q) r = (x, refl, refl)

abbrev oldest : List ReqRec → Option ℤ
oldest q = Option.map (λ (x : ReqRec). x.ts) (head? q)

abbrev GoneBy : ℤ → Option ℤ → ReqRec → Type 0
GoneBy pruned lost x = (x.ts <ℤ pruned) ⊎ LostBy lost x

GoneBy-max_opt :
    (pruned : ℤ) (a b : Option ℤ) (x : ReqRec) → GoneBy pruned a x → GoneBy pruned (max_opt a b) x
GoneBy-max_opt pruned a b x (inl old) = inl old
GoneBy-max_opt pruned a b x (inr l) = inr (LostBy-max_opt a b x (inl l))

GoneBy-oldest :
    (pruned : ℤ) (a : Option ℤ) (q : List ReqRec) (h : ReqRec)
    → head? q ≡ some h
    → GoneBy pruned (max_opt a (oldest q)) (bare h)
GoneBy-oldest pruned a q h front =
    rw front (inr (LostBy-max_opt a (some h.ts) (bare h) (inr (omega arith))))

push_ring-Refines :
    (log : List ReqRec) (s : StorInner) (r x : ReqRec)
    → bare r ≡ bare x
    → Refines log s
    → Refines (log ++ x ∷ []) (push_ring s r)
unfolding push_ring
push_ring-Refines log s r x same (gone, e, all) =
    let pushed : map bare (log ++ x ∷ []) ≡ gone ++ map bare (s.reqs ++ r ∷ []) =
      map-bare_append log (x ∷ [])
      ∙ ap (λ (xs : List ReqRec). xs ++ bare x ∷ []) e
      ∙ append_assoc gone (map bare s.reqs) (bare x ∷ [])
      ∙ ap (λ (y : ReqRec). gone ++ (map bare s.reqs ++ y ∷ [])) (sym same)
      ∙ ap (λ (xs : List ReqRec). gone ++ xs) (sym (map-bare_append s.reqs (r ∷ []))) in
    let q = s.reqs ++ r ∷ [] in
    elim (Bool-cases (ltb (max s.req_cap 1) (length (s.reqs ++ r ∷ [])))) [
      | inl full ↦
          let (h, parts, front) = ring_parts s.reqs r in
          rw (full, push_ring)
            (
              gone ++ bare h ∷ [],
              pushed
                  ∙ ap (λ (xs : List ReqRec). gone ++ map bare xs) parts
                  ∙ sym (append_assoc gone (bare h ∷ []) (map bare (tail q))),
              All-append _ gone (bare h ∷ [])
                  (All-imp _ (GoneBy s.pruned_until (max_opt s.reqs_lost_until (oldest q))) gone
                    (GoneBy-max_opt s.pruned_until s.reqs_lost_until (oldest q)) all)
                  (GoneBy-oldest s.pruned_until s.reqs_lost_until q h front, tt),
            )
      | inr room ↦ rw (room, push_ring) (gone, pushed, all)
    ]

-- Two states with the same ring and the same account of its losses.
SameRing-Refines :
    (log : List ReqRec) (s t : StorInner)
    → t.reqs ≡ s.reqs
    → t.pruned_until ≡ s.pruned_until
    → t.reqs_lost_until ≡ s.reqs_lost_until
    → Refines log s
    → Refines log t
SameRing-Refines log s t e f g r = rw (e, f, g) r

attach-ring :
    (bump : RetryBy → ℕ → RetryBy) (key : ℕ) (s : StorInner) (r : ReqRec)
    → ((attach bump key s r).0.reqs ≡ s.reqs)
      × ((attach bump key s r).0.pruned_until ≡ s.pruned_until)
      × ((attach bump key s r).0.reqs_lost_until ≡ s.reqs_lost_until)
      × (bare (attach bump key s r).1 ≡ bare r)
unfolding attach
attach-ring bump key s r = ground arith

attach-Refines :
    (log : List ReqRec) (bump : RetryBy → ℕ → RetryBy) (key : ℕ) (s : StorInner) (r : ReqRec)
    → Refines log s
    → Refines log (attach bump key s r).0
attach-Refines log bump key s r h =
    let (reqs, pruned, lost, same) = attach-ring bump key s r in
    SameRing-Refines log s (attach bump key s r).0 reqs pruned lost h

push_req-Refines :
    (log : List ReqRec) (s : StorInner) (r : ReqRec)
    → Refines log s
    → Refines (log ++ r ∷ []) (push_req s r)
unfolding push_req attach_both
push_req-Refines log s r h =
    let (s1, r1) = attach bump_irp r.irp s r in
    push_ring-Refines log _ _ r
      ((attach-ring bump_orig r.orig s1 r1).3 ∙ (attach-ring bump_irp r.irp s r).3)
      (attach-Refines log bump_orig r.orig s1 r1 (attach-Refines log bump_irp r.irp s r h))

on_retry-ring :
    (s : StorInner) (ts : ℤ) (irp : ℕ)
    → ((on_retry s ts irp).reqs ≡ s.reqs)
      × ((on_retry s ts irp).pruned_until ≡ s.pruned_until)
      × ((on_retry s ts irp).reqs_lost_until ≡ s.reqs_lost_until)
unfolding on_retry
on_retry-ring s ts irp = ground arith

on_reset-ring :
    (s : StorInner) (r : ResetRec)
    → ((on_reset s r).reqs ≡ s.reqs)
      × ((on_reset s r).pruned_until ≡ s.pruned_until)
      × ((on_reset s r).reqs_lost_until ≡ s.reqs_lost_until)
unfolding on_reset
on_reset-ring s r = ground arith

apply-Refines :
    (log : List ReqRec) (s : StorInner) (ts : ℤ) (ev : Event)
    → Refines log s
    → Refines (log ++ event_requests ev) (apply ts ev s)
apply-Refines log s ts (requested r) h = push_req-Refines log s r h
apply-Refines log s ts (retried irp) h =
    let (reqs, pruned, lost) = on_retry-ring s ts irp in
    rw (append-nil log) (SameRing-Refines log s (on_retry s ts irp) reqs pruned lost h)
apply-Refines log s ts (reset r) h =
    let (reqs, pruned, lost) = on_reset-ring s r in
    rw (append-nil log) (SameRing-Refines log s (on_reset s r) reqs pruned lost h)
apply-Refines log s ts unread h = rw (append-nil log) h

Refines-Respects : (log : List ReqRec) → Respects (Refines log)
Refines-Respects log s t e h = SameRing-Refines log s t e.reqs e.pruned_until e.reqs_lost_until h

-- The ring of a session is the end of its log.
run-Refines :
    (freq : ℕ) (debug : Bool) (s : StorInner) (ds : List Delivery) (log : List ReqRec)
    → Refines log s
    → Refines (log ++ requests_among freq ds) (run freq debug s ds)
unfolding run
run-Refines freq debug s [] log h = rw (append-nil log) h
run-Refines freq debug s (d ∷ ds) log h =
    rw (← append_assoc log (event_requests (meaning freq d)) (requests_among freq ds)) (
      run-Refines freq debug (handle freq debug s d.at d.fields d.bytes) ds
        (log ++ event_requests (meaning freq d))
        (handle_cases (Refines log) (Refines (log ++ event_requests (meaning freq d)))
          (Refines-Respects _) (Refines-Respects _) (prune-Refines log) freq debug s d.at d.fields
          d.bytes (λ t. apply-Refines log t d.at.ts (meaning freq d)) h))

-- Which requests completed in a window.
abbrev pub in_time : ℤ → ℤ → List ReqRec → List ReqRec
in_time from to = filter (in_window (λ (r : ReqRec). r.ts) from to)

GoneBy-early :
    (s : StorInner) (from to : ℤ) (x : ReqRec)
    → covers s from ≡ true
    → IsGone s x
    → in_window (λ (r : ReqRec). r.ts) from to x ≡ false
unfolding covers
GoneBy-early s from to x c (inl old) = ground arith
GoneBy-early s from to x c (inr l) = ground (arith, LostBy-late s.reqs_lost_until x from l)

in_time-gone :
    (s : StorInner) (from to : ℤ) (gone : List ReqRec)
    → covers s from ≡ true
    → All (IsGone s) gone
    → in_time from to gone ≡ []
in_time-gone s from to [] c h = refl
in_time-gone s from to (x ∷ gone) c h =
    rw (GoneBy-early s from to x c h.0) (in_time-gone s from to gone c h.1)

in_time-bare :
    (from to : ℤ) (xs : List ReqRec) → in_time from to (map bare xs) ≡ map bare (in_time from to xs)
in_time-bare from to [] = refl
in_time-bare from to (x ∷ xs) = elim (Bool-cases (in_window (λ (r : ReqRec). r.ts) from to x)) [
  | inl t ↦ rw t (ap (◌∷◌ (bare x)) (in_time-bare from to xs))
  | inr t ↦ rw t (in_time-bare from to xs)
]

Refines-window :
    (log : List ReqRec) (s : StorInner) (from to : ℤ)
    → covers s from ≡ true
    → Refines log s
    → map bare (in_time from to s.reqs) ≡ map bare (in_time from to log)
Refines-window log s from to c (gone, e, all) =
    sym (in_time-bare from to s.reqs)
    ∙ sym (
        ap (in_time from to) e
        ∙ filter-append _ gone (map bare s.reqs)
        ∙ ap (λ (xs : List ReqRec). xs ++ in_time from to (map bare s.reqs))
            (in_time-gone s from to gone c all))
    ∙ in_time-bare from to log

-- The ring implements its specification, the log of all requests that the session reported: once
-- `covers from` says yes, the window that is read from the ring holds exactly the requests of the
-- log that completed in it, each as often and in the order of the log, but for the retries attached
-- to them. The bounds are well inside an `i64`, the counter has less than 10^15 ticks a second, the
-- ring is partitioned at both edges of the window widened by a millisecond, and the binary search
-- finds the partition point of partitioned lists.
pub req_window-refines :
    (pp : (ReqRec → Bool) → List ReqRec → ℕ) (freq : ℕ) (debug : Bool) (s : StorInner)
    (ds : List Delivery) (from to : ℤ)
    → IsPartitionPoint pp
    → freq < 1000000000000000
    → IsTick from
    → IsTick to
    → IsSearchable (λ r. r.ts) (ms_to_ticks freq 1) from to (run freq debug s ds).reqs
    → covers (run freq debug s ds) from ≡ true
    → map bare (req_window pp freq (run freq debug s ds) from to)
      ≡ map bare (in_time from to (s.reqs ++ requests_among freq ds))
req_window-refines pp freq debug s ds from to finds small hf ht edges c =
    ap (map bare)
      (req_window-eq-filter pp freq (run freq debug s ds) from to finds small hf ht edges)
    ∙ Refines-window (s.reqs ++ requests_among freq ds) (run freq debug s ds) from to c
        (run-Refines freq debug s ds s.reqs ([], refl, tt))
