-- ===== src/Storport/Totals.antt =====
-- What the storage trace adds up over a session: the totals of each drive, the resets, and the
-- bounds of its memory.
use wtfis_stalling.Base.{
  ℕ, ◌+◌, ◌≡◌, refl, ap, ◌∙◌, inl, inr, Bool, Bool-cases, List, [], ◌∷◌, arith, if◌then◌else◌, u64,
  of_bool,
}
use wtfis_stalling.Base.Int.{ℤ}
use wtfis_stalling.Base.Assoc.{lookup, upsert, or_default, lookup-upsert}
use wtfis_stalling.Storport.Types.{
  ScsiAddr, ReqRec, ResetRec, AddrTotals, no_totals, req_failed, addr_eq, addr_beq, addr_beq_iff,
}
use wtfis_stalling.Storport.Ring.{
  StorInner, RetryBy, attach, attach_both, bump_irp, bump_orig, count_req, push_ring, push_req,
  on_retry, on_reset, prune,
}
use wtfis_stalling.Storport.Decode.{
  Event, requested, retried, reset, unread, apply, Respects, handle_cases, Delivery, run, meaning,
}
use wtfis_stalling.Storport.Events.{handle}

abbrev pub totals_at : StorInner → ScsiAddr → AddrTotals
totals_at s a = or_default no_totals (lookup a s.per_addr)

attach-per_addr :
    (bump : RetryBy → ℕ → RetryBy) (key : ℕ) (s : StorInner) (r : ReqRec)
    → ((attach bump key s r).0.per_addr ≡ s.per_addr)
      × ((attach bump key s r).1.addr ≡ r.addr)
      × (req_failed (attach bump key s r).1 ≡ req_failed r)
unfolding attach req_failed
attach-per_addr bump key s r = ground arith

attach_both-per_addr :
    (s : StorInner) (r : ReqRec)
    → ((attach_both s r).0.per_addr ≡ s.per_addr)
      × ((attach_both s r).1.addr ≡ r.addr)
      × (req_failed (attach_both s r).1 ≡ req_failed r)
unfolding attach_both
attach_both-per_addr s r =
    let first = attach-per_addr bump_irp r.irp s r in
    let (s1, r1) = attach bump_irp r.irp s r in
    ground (arith, first, attach-per_addr bump_orig r.orig s1 r1)

push_ring-per_addr : (s : StorInner) (r : ReqRec) → (push_ring s r).per_addr ≡ s.per_addr
unfolding push_ring
push_ring-per_addr s r = ground arith

push_req-per_addr :
    (s : StorInner) (r : ReqRec)
    → (push_req s r).per_addr ≡ upsert r.addr no_totals (count_req (attach_both s r).1) s.per_addr
unfolding push_req
push_req-per_addr s r =
    let (same, addr, fails) = attach_both-per_addr s r in
    push_ring-per_addr _ _
    ∙ ap (λ a. upsert a no_totals (count_req (attach_both s r).1) (attach_both s r).0.per_addr) addr
    ∙ ap (upsert r.addr no_totals (count_req (attach_both s r).1)) same

-- What one request adds to the totals of a drive: it counts for its own, and as failed if it did.
abbrev pub add_request : ScsiAddr → ReqRec → ℕ × ℕ → ℕ × ℕ
add_request a r t =
    if addr_beq r.addr a then (u64 (t.0 + 1), u64 (t.1 + of_bool (req_failed r))) else t

-- Requests and failed requests of a drive.
abbrev pub tally : AddrTotals → ℕ × ℕ
tally t = (t.requests, t.failed)

tally-upsert :
    (a : ScsiAddr) (r r' : ReqRec) (m : List (ScsiAddr × AddrTotals))
    → req_failed r' ≡ req_failed r
    → tally (or_default no_totals (lookup a (upsert r.addr no_totals (count_req r') m)))
      ≡ add_request a r (tally (or_default no_totals (lookup a m)))
unfolding count_req
tally-upsert a r r' m e =
    rw (lookup-upsert a r.addr no_totals (count_req r') m) (elim (Bool-cases (addr_beq r.addr a)) [
      | inl here ↦ rw (here, ap (λ b. lookup b m) ((addr_beq_iff r.addr a).0 here), e) refl
      | inr there ↦ rw there refl
    ])

pub push_req-tally :
    (s : StorInner) (r : ReqRec) (a : ScsiAddr)
    → tally (totals_at (push_req s r) a) ≡ add_request a r (tally (totals_at s a))
push_req-tally s r a =
    rw (push_req-per_addr s r)
      (tally-upsert a r (attach_both s r).1 s.per_addr (attach_both-per_addr s r).2)

on_retry-per_addr : (s : StorInner) (ts : ℤ) (irp : ℕ) → (on_retry s ts irp).per_addr ≡ s.per_addr
unfolding on_retry
on_retry-per_addr s ts irp = ground arith

on_reset-per_addr : (s : StorInner) (r : ResetRec) → (on_reset s r).per_addr ≡ s.per_addr
unfolding on_reset
on_reset-per_addr s r = ground arith

abbrev pub add_event : ScsiAddr → Event → ℕ × ℕ → ℕ × ℕ
add_event a (requested r) t = add_request a r t
add_event a _ t = t

-- The requests and the failed requests of a drive among the events, from a start on.
unfoldable pub tally_events : ℕ → ScsiAddr → List Delivery → ℕ × ℕ → ℕ × ℕ
tally_events freq a [] t = t
tally_events freq a (d ∷ ds) t = tally_events freq a ds (add_event a (meaning freq d) t)

apply-tally :
    (s : StorInner) (ts : ℤ) (ev : Event) (a : ScsiAddr)
    → tally (totals_at (apply ts ev s) a) ≡ add_event a ev (tally (totals_at s a))
apply-tally s ts (requested r) a = push_req-tally s r a
apply-tally s ts (retried irp) a = rw (on_retry-per_addr s ts irp) refl
apply-tally s ts (reset r) a = rw (on_reset-per_addr s r) refl
apply-tally s ts unread a = refl

tally-Respects : (a : ScsiAddr) (t : ℕ × ℕ) → Respects (λ s. tally (totals_at s a) ≡ t)
tally-Respects a t s s' e p = rw (e.per_addr) p

prune-per_addr : (s : StorInner) (keep : ℤ) → (prune s keep).per_addr ≡ s.per_addr
unfolding prune
prune-per_addr s keep = refl

handle-tally :
    (freq : ℕ) (debug : Bool) (s : StorInner) (d : Delivery) (a : ScsiAddr)
    → tally (totals_at (handle freq debug s d.at d.fields d.bytes) a)
      ≡ add_event a (meaning freq d) (tally (totals_at s a))
handle-tally freq debug s d a =
    handle_cases (λ t. tally (totals_at t a) ≡ tally (totals_at s a))
      (λ t. tally (totals_at t a) ≡ add_event a (meaning freq d) (tally (totals_at s a)))
      (tally-Respects a _) (tally-Respects a _) (λ t keep p. rw (prune-per_addr t keep) p) freq
      debug s d.at d.fields d.bytes
      (λ t p. apply-tally t d.at.ts (meaning freq d) a ∙ ap (add_event a (meaning freq d)) p) refl

-- Over a whole session the totals of every drive are those of the events alone: each request that
-- an event reports counts once for its own drive, and as failed if its command and its status say
-- so. Pruning, the cap of the ring, retries and resets change nothing of them.
pub run-totals_at :
    (freq : ℕ) (debug : Bool) (s : StorInner) (ds : List Delivery) (a : ScsiAddr)
    → tally (totals_at (run freq debug s ds) a) ≡ tally_events freq a ds (tally (totals_at s a))
unfolding run tally_events
run-totals_at freq debug s [] a = refl
run-totals_at freq debug s (d ∷ ds) a =
    run-totals_at freq debug (handle freq debug s d.at d.fields d.bytes) ds a
    ∙ ap (tally_events freq a ds) (handle-tally freq debug s d a)
