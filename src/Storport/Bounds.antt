-- ===== src/Storport/Bounds.antt =====
-- The memory bounds of the storage trace: the ring of requests and the list of resets.
use wtfis_stalling.Base.{
  ℕ, zero, suc, ◌≤◌, ◌≡◌, refl, sym, ap, ◌∙◌, Bool, false, List, [], ◌∷◌, ◌++◌, arith, ltb,
  if◌then◌else◌, length, length-append, length-drop_while-le, take, tail, min, Bool-cases, inl, inr,
  max, append-nil, append_assoc,
}
use wtfis_stalling.Base.Int.{ℤ, ltb_ℤ, ◌-i64◌}
use wtfis_stalling.Storport.Types.{ReqRec, ResetRec}
use wtfis_stalling.Storport.Ring.{
  StorInner, RetryBy, attach, attach_both, bump_irp, bump_orig, push_ring, push_req, on_retry,
  on_reset, prune, reset_cap,
}
use wtfis_stalling.Storport.Decode.{
  Event, requested, retried, reset, unread, apply, Respects, handle_cases, Delivery, run, meaning,
}
use wtfis_stalling.Storport.Events.{handle}

-- The ring holds no more than its cap, and the cap stays as it was set.
abbrev pub Bounded : ℕ → StorInner → Type 0
Bounded cap s = (s.req_cap ≡ cap) × (length s.reqs ≤ max cap 1) × (length s.resets ≤ reset_cap)

length-tail : (xs : List ReqRec) → length xs ≤ suc (length (tail xs))
length-tail [] = omega arith
length-tail (x ∷ xs) = omega arith

length-tail_le : (xs : List ReqRec) (n : ℕ) → length xs ≤ suc n → length (tail xs) ≤ n
length-tail_le [] n h = omega arith
length-tail_le (x ∷ xs) n h = omega arith

attach-Bounded :
    (cap : ℕ) (bump : RetryBy → ℕ → RetryBy) (key : ℕ) (s : StorInner) (r : ReqRec)
    → Bounded cap s
    → Bounded cap (attach bump key s r).0
unfolding attach
attach-Bounded cap bump key s r b = ground arith

push_ring-Bounded :
    (cap : ℕ) (s : StorInner) (r : ReqRec) → Bounded cap s → Bounded cap (push_ring s r)
unfolding push_ring
push_ring-Bounded cap s r b =
    ground
      (arith, length-append s.reqs (r ∷ []), length-tail_le (s.reqs ++ r ∷ []) (max s.req_cap 1))

apply-Bounded :
    (cap : ℕ) (s : StorInner) (ts : ℤ) (ev : Event) → Bounded cap s → Bounded cap (apply ts ev s)
unfolding push_req attach_both on_retry on_reset
apply-Bounded cap s ts (requested r) b =
    let (s1, r1) = attach bump_irp r.irp s r in
    push_ring-Bounded cap _ _
      (attach-Bounded cap bump_orig r.orig s1 r1 (attach-Bounded cap bump_irp r.irp s r b))
apply-Bounded cap s ts (retried irp) b = ground arith
apply-Bounded cap s ts (reset r) b = ground (arith, length-append s.resets (r ∷ []))
apply-Bounded cap s ts unread b = b

prune-Bounded : (cap : ℕ) (s : StorInner) (keep : ℤ) → Bounded cap s → Bounded cap (prune s keep)
unfolding prune
prune-Bounded cap s keep b =
    omega (arith, length-drop_while-le (λ (r : ReqRec). ltb_ℤ r.ts (s.latest_ts -i64 keep)) s.reqs)

Bounded-Respects : (cap : ℕ) → Respects (Bounded cap)
Bounded-Respects cap s t e b = rw (e.req_cap, e.reqs, e.resets) b

-- However many events arrive, and whatever they hold, the ring stays within its cap (one record at
-- least) and at most 1000 resets are kept.
pub run-Bounded :
    (cap freq : ℕ) (debug : Bool) (s : StorInner) (ds : List Delivery)
    → Bounded cap s
    → Bounded cap (run freq debug s ds)
unfolding run
run-Bounded cap freq debug s [] b = b
run-Bounded cap freq debug s (d ∷ ds) b =
    run-Bounded cap freq debug (handle freq debug s d.at d.fields d.bytes) ds (
      handle_cases (Bounded cap) (Bounded cap) (Bounded-Respects cap) (Bounded-Respects cap)
        (prune-Bounded cap) freq debug s d.at d.fields d.bytes
        (λ t. apply-Bounded cap t d.at.ts (meaning freq d)) b)

-- The resets among the events, in order.
abbrev pub event_resets : Event → List ResetRec
event_resets (reset r) = r ∷ []
event_resets _ = []

abbrev pub resets_among : ℕ → List Delivery → List ResetRec
resets_among freq [] = []
resets_among freq (d ∷ ds) = event_resets (meaning freq d) ++ resets_among freq ds

take-all : (n : ℕ) (xs : List ResetRec) → length xs ≤ n → take n xs ≡ xs
take-all zero [] h = refl
take-all zero (x ∷ xs) h = absurd (omega arith)
take-all (suc n) [] h = refl
take-all (suc n) (x ∷ xs) h = ap (◌∷◌ x) (take-all n xs (omega arith))

-- A full front takes nothing more.
take-append_full : (n : ℕ) (xs ys : List ResetRec) → n ≤ length xs → take n (xs ++ ys) ≡ take n xs
take-append_full zero xs ys h = refl
take-append_full (suc n) [] ys h = absurd (omega arith)
take-append_full (suc n) (x ∷ xs) ys h = ap (◌∷◌ x) (take-append_full n xs ys (omega arith))

attach-resets :
    (bump : RetryBy → ℕ → RetryBy) (key : ℕ) (s : StorInner) (r : ReqRec)
    → (attach bump key s r).0.resets ≡ s.resets
unfolding attach
attach-resets bump key s r = ground arith

push_ring-resets : (s : StorInner) (r : ReqRec) → (push_ring s r).resets ≡ s.resets
unfolding push_ring
push_ring-resets s r = ground arith

-- The resets so far, as the first of all that there were.
abbrev Firsts : List ResetRec → StorInner → Type 0
Firsts rs s = s.resets ≡ take reset_cap rs

length-take : (n : ℕ) (xs : List ResetRec) → length (take n xs) ≡ min n (length xs)
length-take zero xs = omega arith
length-take (suc n) [] = omega arith
length-take (suc n) (x ∷ xs) = omega (arith, length-take n xs)

take-append_last :
    (n : ℕ) (rs : List ResetRec) (r : ResetRec)
    → (if ltb (length (take n rs)) n then take n rs ++ r ∷ [] else take n rs)
      ≡ take n (rs ++ r ∷ [])
take-append_last n rs r = elim (Bool-cases (ltb (length rs) n)) [
  | inl room ↦
      rw (take-all n rs (ground arith), room)
        (sym (take-all n (rs ++ r ∷ []) (ground (arith, length-append rs (r ∷ [])))))
  | inr full ↦
      let stop : ltb (length (take n rs)) n ≡ false = ground (arith, length-take n rs) in
      rw stop (sym (take-append_full n rs (r ∷ []) (ground arith)))
]

resets-on_reset :
    (s : StorInner) (r : ResetRec)
    → (on_reset s r).resets
      ≡ (if ltb (length s.resets) reset_cap then s.resets ++ r ∷ [] else s.resets)
unfolding on_reset
resets-on_reset s r = ground arith

on_reset-Firsts :
    (s : StorInner) (r : ResetRec) (rs : List ResetRec)
    → Firsts rs s
    → Firsts (rs ++ r ∷ []) (on_reset s r)
on_reset-Firsts s r rs e =
    resets-on_reset s r
    ∙ ap (λ (xs : List ResetRec). if ltb (length xs) reset_cap then xs ++ r ∷ [] else xs) e
    ∙ take-append_last reset_cap rs r

apply-Firsts :
    (s : StorInner) (ts : ℤ) (ev : Event) (rs : List ResetRec)
    → Firsts rs s
    → Firsts (rs ++ event_resets ev) (apply ts ev s)
unfolding push_req attach_both on_retry
apply-Firsts s ts (requested r) rs e =
    let (s1, r1) = attach bump_irp r.irp s r in
    push_ring-resets _ _
    ∙ attach-resets bump_orig r.orig s1 r1
    ∙ attach-resets bump_irp r.irp s r
    ∙ rw (append-nil rs) e
apply-Firsts s ts (retried irp) rs e = rw (append-nil rs) (ground arith)
apply-Firsts s ts (reset r) rs e = on_reset-Firsts s r rs e
apply-Firsts s ts unread rs e = rw (append-nil rs) e

prune-resets : (s : StorInner) (keep : ℤ) → (prune s keep).resets ≡ s.resets
unfolding prune
prune-resets s keep = refl

Firsts-Respects : (rs : List ResetRec) → Respects (Firsts rs)
Firsts-Respects rs s t e p = e.resets ∙ p

-- The resets that are kept are the first thousand of the session, in the order of their events.
pub run-resets :
    (freq : ℕ) (debug : Bool) (s : StorInner) (ds : List Delivery) (rs : List ResetRec)
    → s.resets ≡ take 1000 rs
    → (run freq debug s ds).resets ≡ take 1000 (rs ++ resets_among freq ds)
unfolding run
run-resets freq debug s [] rs e = rw (append-nil rs) e
run-resets freq debug s (d ∷ ds) rs e =
    rw (← append_assoc rs (event_resets (meaning freq d)) (resets_among freq ds)) (
      run-resets freq debug (handle freq debug s d.at d.fields d.bytes) ds
        (rs ++ event_resets (meaning freq d))
        (handle_cases (Firsts rs) (Firsts (rs ++ event_resets (meaning freq d))) (Firsts-Respects _)
          (Firsts-Respects _) (λ t keep p. prune-resets t keep ∙ p) freq debug s d.at d.fields
          d.bytes (λ t. apply-Firsts t d.at.ts (meaning freq d) rs) e))
