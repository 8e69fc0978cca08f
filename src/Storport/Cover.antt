-- ===== src/Storport/Cover.antt =====
-- `StorInner::covers` and the ring: what the callback saw is in the ring, or the state says why not.
use mathlib.Core.Option
use wtfis_stalling.Base.{
  ℕ, ◌≡◌, refl, sym, ap, ◌∙◌, ◌⊎◌, inl, inr, Bool, true, false, Bool-cases, Option, none, some,
  List, [], ◌∷◌, ◌++◌, arith, Memᴰ, ltb, length, tail, head?, max, drop_while-cases,
  Memᴰ-append_left, Memᴰ-append_last,
}
use wtfis_stalling.Base.Int.{ℤ, ◌≤ℤ◌, ◌<ℤ◌, ltb_ℤ, max_ℤ-bounds, max_opt, ◌-i64◌}
use wtfis_stalling.Storport.Types.{ReqRec, ResetRec, no_totals, addr_eq}
use wtfis_stalling.Base.Assoc.{upsert}
use wtfis_stalling.Storport.Decode.{
  Event, requested, retried, reset, unread, apply, Respects, handle_cases, Delivery, run, meaning,
}
use wtfis_stalling.Storport.Events.{handle}
use wtfis_stalling.Storport.Ring.{
  StorInner, RetryBy, attach, bump_irp, bump_orig, attach_both, count_req, push_ring, push_req,
  on_retry, on_reset, prune, maybe_prune, none_or_before, covers, maybe_prune_cases,
}

-- A request, whatever retries it was given.
abbrev pub bare : ReqRec → ReqRec
bare r = record r { retries = 0 }

abbrev pub Held : List ReqRec → ReqRec → Type 0
Held reqs r = (x : ReqRec) × Memᴰ x reqs × (bare x ≡ bare r)

abbrev pub LostBy : Option ℤ → ReqRec → Type 0
LostBy none r = ⊥
LostBy (some l) r = r.ts ≤ℤ l

-- The request is in the ring, or was pruned by time, or was thrown away by the cap.
pub data Accounted (s : StorInner) (r : ReqRec) : Type 0 where
  held : Held s.reqs r → Accounted s r
  pruned : r.ts <ℤ s.pruned_until → Accounted s r
  lost : LostBy s.reqs_lost_until r → Accounted s r

-- Two states with the same ring and the same account of what left it.
pub record SameRing (s t : StorInner) : Type 0 where
  pub reqs : t.reqs ≡ s.reqs
  pub req_cap : t.req_cap ≡ s.req_cap
  pub pruned_until : t.pruned_until ≡ s.pruned_until
  pub reqs_lost_until : t.reqs_lost_until ≡ s.reqs_lost_until
  pub started : t.started ≡ s.started

pub SameRing-Accounted :
    {s t : StorInner} (r : ReqRec) → SameRing s t → Accounted s r → Accounted t r
SameRing-Accounted r e (held h) = held (rw e.reqs h)
SameRing-Accounted r e (pruned h) = pruned (rw e.pruned_until h)
SameRing-Accounted r e (lost h) = lost (rw e.reqs_lost_until h)

pub LostBy-max_opt :
    (a b : Option ℤ) (r : ReqRec) → LostBy a r ⊎ LostBy b r → LostBy (max_opt a b) r
unfolding max_opt
LostBy-max_opt none b r (inl h) = absurd h
LostBy-max_opt none b r (inr h) = h
LostBy-max_opt (some a) none r (inl h) = h
LostBy-max_opt (some a) none r (inr h) = absurd h
LostBy-max_opt (some a) (some b) r h = ground arith

-- The oldest record of a full ring is noted in `reqs_lost_until` before it goes.
tail-cases :
    (a : Option ℤ) (q : List ReqRec) (x : ReqRec)
    → Memᴰ x q
    → Memᴰ x (tail q) ⊎ LostBy (max_opt a (Option.map (λ (y : ReqRec). y.ts) (head? q))) x
tail-cases a [] x m = elim m [ ]
tail-cases a (y ∷ q) x (Memᴰ.head e) =
    inr (LostBy-max_opt a (some y.ts) x (inr (rw e (omega arith))))
tail-cases a (y ∷ q) x (Memᴰ.tail m) = inl m

ts-bare : (x y : ReqRec) → bare x ≡ bare y → x.ts ≡ y.ts
ts-bare x y e = ap (λ (r : ReqRec). r.ts) e

LostBy-bare : (a : Option ℤ) (x y : ReqRec) → bare x ≡ bare y → LostBy a x → LostBy a y
LostBy-bare (some l) x y e h = rw (← ts-bare x y e) h
LostBy-bare none x y e h = absurd h

push_ring_keeps :
    (s : StorInner) (r x : ReqRec) → Held (s.reqs ++ r ∷ []) x → Accounted (push_ring s r) x
unfolding push_ring
push_ring_keeps s r x (y, m, e) =
    elim (Bool-cases (ltb (max s.req_cap 1) (length (s.reqs ++ r ∷ [])))) [
      | inl full ↦
          rw (full, push_ring)
            (elim (tail-cases s.reqs_lost_until (s.reqs ++ r ∷ []) y m) [
              | inl m' ↦ held (y, m', e)
              | inr l ↦ lost (LostBy-bare _ y x e l)
            ])
      | inr room ↦ rw (room, push_ring) (held (y, m, e))
    ]

push_ring_lost :
    (s : StorInner) (r x : ReqRec) → LostBy s.reqs_lost_until x → Accounted (push_ring s r) x
unfolding push_ring
push_ring_lost s r x l = elim (Bool-cases (ltb (max s.req_cap 1) (length (s.reqs ++ r ∷ [])))) [
  | inl full ↦ rw (full, push_ring) (lost (LostBy-max_opt s.reqs_lost_until _ x (inl l)))
  | inr room ↦ rw (room, push_ring) (lost l)
]

pruned-push_ring : (s : StorInner) (r : ReqRec) → (push_ring s r).pruned_until ≡ s.pruned_until
unfolding push_ring
pruned-push_ring s r = ground arith

push_ring-Accounted : (s : StorInner) (r x : ReqRec) → Accounted s x → Accounted (push_ring s r) x
push_ring-Accounted s r x (held (y, m, e)) =
    push_ring_keeps s r x (y, Memᴰ-append_left y s.reqs (r ∷ []) m, e)
push_ring-Accounted s r x (pruned h) = pruned (rw (pruned-push_ring s r) h)
push_ring-Accounted s r x (lost l) = push_ring_lost s r x l

-- Attaching retries changes neither the ring nor the request, but for its retries.
attach-SameRing :
    (bump : RetryBy → ℕ → RetryBy) (key : ℕ) (s : StorInner) (r : ReqRec)
    → SameRing s (attach bump key s r).0 × (bare (attach bump key s r).1 ≡ bare r)
unfolding attach
attach-SameRing bump key s r = ground arith

attach_both-SameRing :
    (s : StorInner) (r : ReqRec)
    → SameRing s (attach_both s r).0 × (bare (attach_both s r).1 ≡ bare r)
unfolding attach_both
attach_both-SameRing s r =
    let first = attach-SameRing bump_irp r.irp s r in
    let (s1, r1) = attach bump_irp r.irp s r in
    ground (arith, first, attach-SameRing bump_orig r.orig s1 r1)

push_req-Accounted :
    (s : StorInner) (r x : ReqRec) → Accounted s x ⊎ (bare r ≡ bare x) → Accounted (push_req s r) x
unfolding push_req
push_req-Accounted s r x (inl a) =
    push_ring-Accounted _ (attach_both s r).1 x
      (SameRing-Accounted x totals (SameRing-Accounted x (attach_both-SameRing s r).0 a))
  where
    totals : SameRing (attach_both s r).0 (record (attach_both s r).0 {
      per_addr =
          upsert
            (attach_both s r).1.addr
            no_totals
            (count_req (attach_both s r).1)
            (attach_both s r).0.per_addr;
    })
    totals = record {
      reqs = refl;
      req_cap = refl;
      pruned_until = refl;
      reqs_lost_until = refl;
      started = refl;
    }
push_req-Accounted s r x (inr e) = push_ring_keeps _ (attach_both s r).1 x (
  (attach_both s r).1,
  Memᴰ-append_last _ (attach_both s r).0.reqs,
  (attach_both-SameRing s r).1 ∙ e,
)

prune-Accounted :
    (s : StorInner) (keep : ℤ) (x : ReqRec) → Accounted s x → Accounted (prune s keep) x
unfolding prune
prune-Accounted s keep x (held (y, m, e)) =
    let cutoff = s.latest_ts -i64 keep in
    elim (drop_while-cases (λ r. ltb_ℤ r.ts cutoff) s.reqs y m) [
      | inl old ↦ pruned (ground (arith, ts-bare y x e, max_ℤ-bounds s.pruned_until cutoff))
      | inr m' ↦ held (y, m', e)
    ]
prune-Accounted s keep x (pruned h) =
    pruned (omega (arith, max_ℤ-bounds s.pruned_until (s.latest_ts -i64 keep)))
prune-Accounted s keep x (lost l) = lost l

pub maybe_prune-Accounted :
    (freq : ℕ) (s : StorInner) (ts : ℤ) (x : ReqRec)
    → Accounted s x
    → Accounted (maybe_prune freq s ts) x
unfolding maybe_prune
maybe_prune-Accounted freq s ts x a =
    maybe_prune_cases (λ t. Accounted t x) freq s ts a (SameRing-Accounted x same a)
      (prune-Accounted _ _ x (SameRing-Accounted x same a))
  where
    same : SameRing s (record s { latest_ts = ts })
    same = record {
      reqs = refl;
      req_cap = refl;
      pruned_until = refl;
      reqs_lost_until = refl;
      started = refl;
    }

on_retry-SameRing : (s : StorInner) (ts : ℤ) (irp : ℕ) → SameRing s (on_retry s ts irp)
unfolding on_retry
on_retry-SameRing s ts irp = ground arith

on_reset-SameRing : (s : StorInner) (r : ResetRec) → SameRing s (on_reset s r)
unfolding on_reset
on_reset-SameRing s r = ground arith

Accounted-Respects : (x : ReqRec) → Respects (λ s. Accounted s x)
Accounted-Respects x s t e = SameRing-Accounted x (record {
  reqs = e.reqs;
  req_cap = e.req_cap;
  pruned_until = e.pruned_until;
  reqs_lost_until = e.reqs_lost_until;
  started = e.started;
})

apply-Accounted :
    (s : StorInner) (ts : ℤ) (ev : Event) (x : ReqRec) → Accounted s x → Accounted (apply ts ev s) x
apply-Accounted s ts (requested r) x a = push_req-Accounted s r x (inl a)
apply-Accounted s ts (retried irp) x a = SameRing-Accounted x (on_retry-SameRing s ts irp) a
apply-Accounted s ts (reset r) x a = SameRing-Accounted x (on_reset-SameRing s r) a
apply-Accounted s ts unread x a = a

handle-Accounted :
    (freq : ℕ) (debug : Bool) (s : StorInner) (d : Delivery) (x : ReqRec)
    → Accounted s x
    → Accounted (handle freq debug s d.at d.fields d.bytes) x
handle-Accounted freq debug s d x =
    handle_cases (λ t. Accounted t x) (λ t. Accounted t x) (Accounted-Respects x)
      (Accounted-Respects x) (λ t keep. prune-Accounted t keep x) freq debug s d.at d.fields d.bytes
      (λ t. apply-Accounted t d.at.ts (meaning freq d) x)

-- A request that an event reports is accounted for from then on.
handle-request_Accounted :
    (freq : ℕ) (debug : Bool) (s : StorInner) (d : Delivery) (x : ReqRec)
    → meaning freq d ≡ requested x
    → Accounted (handle freq debug s d.at d.fields d.bytes) x
handle-request_Accounted freq debug s d x e =
    handle_cases (λ t. Unit {0}) (λ t. Accounted t x) (λ s t e u. u) (Accounted-Respects x)
      (λ s keep u. u) freq debug s d.at d.fields d.bytes
      (λ t u. rw e (push_req-Accounted t x x (inr refl))) tt

run-keeps_Accounted :
    (freq : ℕ) (debug : Bool) (s : StorInner) (ds : List Delivery) (x : ReqRec)
    → Accounted s x
    → Accounted (run freq debug s ds) x
unfolding run
run-keeps_Accounted freq debug s [] x a = a
run-keeps_Accounted freq debug s (d ∷ ds) x a =
    run-keeps_Accounted freq debug (handle freq debug s d.at d.fields d.bytes) ds x
      (handle-Accounted freq debug s d x a)

run-Accounted :
    (freq : ℕ) (debug : Bool) (s : StorInner) (ds : List Delivery) (d : Delivery) (x : ReqRec)
    → Memᴰ d ds
    → meaning freq d ≡ requested x
    → Accounted (run freq debug s ds) x
unfolding run
run-Accounted freq debug s [] d x m e = elim m [ ]
run-Accounted freq debug s (c ∷ ds) d x (Memᴰ.head here) e =
    run-keeps_Accounted freq debug (handle freq debug s c.at c.fields c.bytes) ds x (
      handle-request_Accounted freq debug s c x
        (ap (λ (b : Delivery). meaning freq b) (sym here) ∙ e))
run-Accounted freq debug s (c ∷ ds) d x (Memᴰ.tail m) e =
    run-Accounted freq debug (handle freq debug s c.at c.fields c.bytes) ds d x m e

pub LostBy-late :
    (o : Option ℤ) (x : ReqRec) (from : ℤ)
    → LostBy o x
    → from ≤ℤ x.ts
    → none_or_before o from ≡ false
LostBy-late none x from l h = absurd l
LostBy-late (some a) x from l h = ground arith

covers-Held :
    (s : StorInner) (from : ℤ) (x : ReqRec)
    → covers s from ≡ true
    → from ≤ℤ x.ts
    → Accounted s x
    → Held s.reqs x
unfolding covers
covers-Held s from x c h (held there) = there
covers-Held s from x c h (pruned old) = absurd (ground arith)
covers-Held s from x c h (lost gone) =
    absurd (ground (arith, LostBy-late s.reqs_lost_until x from gone h))

-- Whatever the session delivered, pruned and threw away: once `covers from` says yes, every request
-- that an event reported to have completed at `from` or later is still in the ring, unchanged but
-- for the retries attached to it.
pub covers_sound :
    (freq : ℕ) (debug : Bool) (s : StorInner) (ds : List Delivery) (d : Delivery) (x : ReqRec)
    (from : ℤ)
    → Memᴰ d ds
    → meaning freq d ≡ requested x
    → covers (run freq debug s ds) from ≡ true
    → from ≤ℤ x.ts
    → Held (run freq debug s ds).reqs x
covers_sound freq debug s ds d x from m e c h =
    covers-Held (run freq debug s ds) from x c h (run-Accounted freq debug s ds d x m e)
