-- ===== src/Storport/Retries.antt =====
-- The retries of the storage trace: each is attached to one request, or waits, or was given up.
use wtfis_stalling.Base.{
  ℕ, ◌+◌, ◌≤◌, ◌<◌, ◌≡◌, refl, ◌∙◌, Bool, List, [], ◌∷◌, arith, ◌==◌, u32, if◌then◌else◌, length,
  filter, not,
}
use wtfis_stalling.Base.Int.{ℤ, ◌-i64◌}
use wtfis_stalling.Base.Assoc.{nat_eq, sum_values, sum_values-remove, sum_values-upsert}
use wtfis_stalling.Storport.Types.{ReqRec, ResetRec}
use wtfis_stalling.Storport.Ring.{
  StorInner, new, attach, attach_both, bump_irp, bump_orig, push_ring, push_req, on_retry, on_reset,
  prune, is_recent,
}
use wtfis_stalling.Storport.Decode.{
  Event, requested, retried, reset, unread, apply, Respects, handle_cases, Delivery, run, meaning,
}
use wtfis_stalling.Storport.Events.{handle}
use wtfis_stalling.Storport.Report.{report}

abbrev waiting : List (ℕ × (ℤ × ℕ)) → ℕ
waiting = sum_values (λ e. e.1)

-- Every retry that the state knows of.
abbrev pub known : StorInner → ℕ
known s = s.retry_by.by_irp + s.retry_by.by_orig + s.retry_by.never + waiting s.pending

abbrev limit : ℕ
limit = 4294967296

attach_irp-known :
    (key : ℕ) (s : StorInner) (r : ReqRec)
    → known s < limit
    → known (attach bump_irp key s r).0 ≡ known s
unfolding attach
attach_irp-known key s r h = ground (arith, sum_values-remove (λ (e : ℤ × ℕ). e.1) key s.pending)

attach_orig-known :
    (key : ℕ) (s : StorInner) (r : ReqRec)
    → known s < limit
    → known (attach bump_orig key s r).0 ≡ known s
unfolding attach
attach_orig-known key s r h = ground (arith, sum_values-remove (λ (e : ℤ × ℕ). e.1) key s.pending)

push_ring-known : (s : StorInner) (r : ReqRec) → known (push_ring s r) ≡ known s
unfolding push_ring
push_ring-known s r = ground arith

push_req-known : (s : StorInner) (r : ReqRec) → known s < limit → known (push_req s r) ≡ known s
unfolding push_req attach_both
push_req-known s r h =
    let first = attach_irp-known r.irp s r h in
    let (s1, r1) = attach bump_irp r.irp s r in
    push_ring-known _ _ ∙ attach_orig-known r.orig s1 r1 (omega (arith, first)) ∙ first

on_retry-known :
    (s : StorInner) (ts : ℤ) (irp : ℕ)
    → known s + 1 < limit
    → known (on_retry s ts irp) ≡ known s + (if irp == 0 then 0 else 1)
unfolding on_retry
on_retry-known s ts irp h = ground (
  arith,
  sum_values-upsert (λ (e : ℤ × ℕ). e.1) irp (ts, 0) (λ e. (e.0, u32 (e.1 + 1))) s.pending,
  sum_values-remove (λ (e : ℤ × ℕ). e.1) irp s.pending,
)

on_reset-known : (s : StorInner) (r : ResetRec) → known (on_reset s r) ≡ known s
unfolding on_reset
on_reset-known s r = ground arith

waiting-filter :
    (p : ℕ × (ℤ × ℕ) → Bool) (m : List (ℕ × (ℤ × ℕ)))
    → waiting (filter p m) + waiting (filter (λ e. not (p e)) m) ≡ waiting m
unfolding sum_values
waiting-filter p [] = refl
waiting-filter p (e ∷ m) = ground (arith, waiting-filter p m)

prune-known : (s : StorInner) (keep : ℤ) → known s < limit → known (prune s keep) ≡ known s
unfolding prune
prune-known s keep h = omega (arith, waiting-filter (is_recent (s.latest_ts -i64 keep)) s.pending)

-- The retries among the events: those that name a request.
abbrev pub retry_weight : Event → ℕ
retry_weight (retried irp) = if irp == 0 then 0 else 1
retry_weight _ = 0

abbrev pub retry_events : ℕ → List Delivery → ℕ
retry_events freq [] = 0
retry_events freq (d ∷ ds) = retry_weight (meaning freq d) + retry_events freq ds

retry_weight-le : (ev : Event) → retry_weight ev ≤ 1
retry_weight-le (requested r) = omega arith
retry_weight-le (retried irp) = ground arith
retry_weight-le (reset r) = omega arith
retry_weight-le unread = omega arith

retry_events-le : (freq : ℕ) (ds : List Delivery) → retry_events freq ds ≤ length ds
retry_events-le freq [] = omega arith
retry_events-le freq (d ∷ ds) =
    omega (arith, retry_weight-le (meaning freq d), retry_events-le freq ds)

apply-known :
    (s : StorInner) (ts : ℤ) (ev : Event)
    → known s + 1 < limit
    → known (apply ts ev s) ≡ known s + retry_weight ev
apply-known s ts (requested r) h = omega (arith, push_req-known s r (omega arith))
apply-known s ts (retried irp) h = on_retry-known s ts irp h
apply-known s ts (reset r) h = omega (arith, on_reset-known s r)
apply-known s ts unread h = omega arith

known-Respects : (n : ℕ) → Respects (λ s. known s ≡ n)
known-Respects n s t e p = rw (e.retry_by, e.pending) p

handle-known :
    (freq : ℕ) (debug : Bool) (s : StorInner) (d : Delivery)
    → known s + 1 < limit
    → known (handle freq debug s d.at d.fields d.bytes) ≡ known s + retry_weight (meaning freq d)
handle-known freq debug s d h =
    handle_cases (λ t. known t ≡ known s) (λ t. known t ≡ known s + retry_weight (meaning freq d))
      (known-Respects _) (known-Respects _) (λ t keep p. prune-known t keep (omega arith) ∙ p) freq
      debug s d.at d.fields d.bytes
      (λ t p. omega (arith, apply-known t d.at.ts (meaning freq d) (omega arith))) refl

run-known :
    (freq : ℕ) (debug : Bool) (s : StorInner) (ds : List Delivery)
    → known s + length ds + 1 < limit
    → known (run freq debug s ds) ≡ known s + retry_events freq ds
unfolding run
run-known freq debug s [] h = omega arith
run-known freq debug s (d ∷ ds) h =
    let one = handle-known freq debug s d (omega arith) in
    let rest =
      run-known freq debug (handle freq debug s d.at d.fields d.bytes) ds
        (omega (arith, one, retry_weight-le (meaning freq d))) in
    omega (arith, one, rest)

known-new : (cap : ℕ) (started : ℤ) → known (new cap started) ≡ 0
unfolding new sum_values
known-new cap started = refl

-- No retry is lost or counted twice: at the end of a session of fewer than 2^32 - 1 events, the retries
-- attached by `Irp`, those attached by `OriginalIrp` and those never attached add up to the retry
-- events that named a request.
pub report-retry_by :
    (freq cap : ℕ) (started : ℤ) (debug : Bool) (ds : List Delivery)
    → length ds + 1 < 4294967296
    → let by = (report (run freq debug (new cap started) ds)).retry_by in
      by.by_irp + by.by_orig + by.never ≡ retry_events freq ds
unfolding report new
report-retry_by freq cap started debug ds h =
    let all = run-known freq debug (new cap started) ds (omega (arith, known-new cap started)) in
    omega (arith, all, known-new cap started, retry_events-le freq ds)
