-- ===== src/Storport/Decode.antt =====
-- What one event of the storage trace means, apart from the counters: an independent reading of
-- `handle` that the invariants of the state are proved over.
use wtfis_stalling.Base.{
  ℕ, ◌+◌, ◌≡◌, Bool, true, false, Option, none, some, List, [], ◌∷◌, arith, ◌==◌, u32, u64,
  if◌then◌else◌,
}
use wtfis_stalling.Base.Int.{ℤ}
use wtfis_stalling.Layout.{Field}
use wtfis_stalling.Storport.Types.{ReqRec, ResetRec, ResetKind, logical_unit, target, detected}
use wtfis_stalling.Storport.Ring.{
  StorInner, RetryBy, attach, bump_irp, bump_orig, attach_both, push_ring, push_req, on_retry,
  on_reset, prune, maybe_prune, maybe_prune_cases,
}
use wtfis_stalling.Storport.Events.{
  At, unknown, get, request, byte, arrive, dispatch, handle_request, handle_retry, handle_reset,
  handle, ev_request, ev_retry, ev_lu_reset, ev_target_reset, ev_reset_detected,
}

pub data Event : Type 0 where
  requested : ReqRec → Event
  retried : ℕ → Event
  reset : ResetRec → Event
  unread : Event

abbrev decode_request : ℕ → At → (ℕ → Option ℕ) → Option ℕ → Option ℕ → Event
decode_request freq at field (some dur) (some irp) = requested (request freq at field dur irp)
decode_request freq at field _ _ = unread

abbrev decode_retry : Option ℕ → Event
decode_retry (some irp) = retried irp
decode_retry none = unread

abbrev decode_reset : At → ResetKind → Option ℕ → (ℕ → Option ℕ) → Event
decode_reset at kind (some port) field = reset (record {
  ts = at.ts;
  kind = kind;
  port = u32 port;
  bus = byte (field 1);
  target = byte (field 2);
  lun = byte (field 3);
})
decode_reset at kind none field = unread

abbrev decode_id : ℕ → At → (ℕ → Option ℕ) → Event
decode_id freq at field =
    if at.id == ev_request
    then decode_request freq at field (field 0) (field 1)
    else if at.id == ev_retry
    then decode_retry (field 0)
    else if at.id == ev_lu_reset
    then decode_reset at logical_unit (field 0) field
    else if at.id == ev_target_reset
    then decode_reset at target (field 0) field
    else if at.id == ev_reset_detected
    then decode_reset at detected (field 0) field
    else unread

unfoldable pub decode : ℕ → At → Option (List (Option Field)) → List ℕ → Event
decode freq at none bytes = unread
decode freq at (some fields) bytes = decode_id freq at (get fields bytes)

abbrev pub apply : ℤ → Event → StorInner → StorInner
apply ts (requested r) s = push_req s r
apply ts (retried irp) s = on_retry s ts irp
apply ts (reset r) s = on_reset s r
apply ts unread s = s

-- Two states that differ in the event counters, the clock and the `--debug` counts at most.
pub record SameCore (s t : StorInner) : Type 0 where
  pub started : t.started ≡ s.started
  pub pruned_until : t.pruned_until ≡ s.pruned_until
  pub reqs : t.reqs ≡ s.reqs
  pub req_cap : t.req_cap ≡ s.req_cap
  pub reqs_lost_until : t.reqs_lost_until ≡ s.reqs_lost_until
  pub pending : t.pending ≡ s.pending
  pub retry_by : t.retry_by ≡ s.retry_by
  pub resets : t.resets ≡ s.resets
  pub per_addr : t.per_addr ≡ s.per_addr

pub SameCore-refl : (s : StorInner) → SameCore s s
SameCore-refl s = ground arith

abbrev pub Respects {ℓ} : (StorInner → Type ℓ) → Type ℓ
Respects P = (s t : StorInner) → SameCore s t → P s → P t

attach-SameCore :
    (bump : RetryBy → ℕ → RetryBy) (key : ℕ) (s t : StorInner) (r : ReqRec)
    → SameCore s t
    → SameCore (attach bump key s r).0 (attach bump key t r).0
      × ((attach bump key t r).1 ≡ (attach bump key s r).1)
unfolding attach
attach-SameCore bump key s t r e = rw e.pending (ground arith)

push_ring-SameCore :
    (s t : StorInner) (r : ReqRec) → SameCore s t → SameCore (push_ring s r) (push_ring t r)
unfolding push_ring
push_ring-SameCore s t r e = rw (e.reqs, e.req_cap) (ground arith)

attach_both-SameCore :
    (s t : StorInner) (r : ReqRec)
    → SameCore s t
    → SameCore (attach_both s r).0 (attach_both t r).0 × ((attach_both t r).1 ≡ (attach_both s r).1)
unfolding attach_both
attach_both-SameCore s t r e =
    let first = attach-SameCore bump_irp r.irp s t r e in
    rw (first.1) (
      attach-SameCore bump_orig r.orig (attach bump_irp r.irp s r).0 (attach bump_irp r.irp t r).0
        (attach bump_irp r.irp s r).1 first.0)

pub push_req-SameCore :
    (s t : StorInner) (r : ReqRec) → SameCore s t → SameCore (push_req s r) (push_req t r)
unfolding push_req
push_req-SameCore s t r e =
    let both = attach_both-SameCore s t r e in
    rw (both.1) (push_ring-SameCore _ _ (attach_both s r).1 (ground (arith, both.0)))

on_retry-SameCore :
    (s t : StorInner) (ts : ℤ) (irp : ℕ)
    → SameCore s t
    → SameCore (on_retry s ts irp) (on_retry t ts irp)
unfolding on_retry
on_retry-SameCore s t ts irp e = rw e.pending (ground arith)

on_reset-SameCore :
    (s t : StorInner) (r : ResetRec) → SameCore s t → SameCore (on_reset s r) (on_reset t r)
unfolding on_reset
on_reset-SameCore s t r e = rw e.resets (ground arith)

apply-SameCore :
    (s t : StorInner) (ts : ℤ) (ev : Event)
    → SameCore s t
    → SameCore (apply ts ev s) (apply ts ev t)
apply-SameCore s t ts (requested r) e = push_req-SameCore s t r e
apply-SameCore s t ts (retried irp) e = on_retry-SameCore s t ts irp e
apply-SameCore s t ts (reset r) e = on_reset-SameCore s t r e
apply-SameCore s t ts unread e = e

unknown-SameCore : (debug : Bool) (s : StorInner) (at : At) → SameCore s (unknown debug s at)
unfolding unknown
unknown-SameCore debug s at = ground arith

handle_request-SameCore :
    (freq : ℕ) (debug : Bool) (s : StorInner) (at : At) (dur irp : Option ℕ) (field : ℕ → Option ℕ)
    → SameCore
        (apply at.ts (decode_request freq at field dur irp) s)
        (handle_request freq debug s at dur irp field)
unfolding handle_request
handle_request-SameCore freq debug s at (some d) (some i) field =
    push_req-SameCore _ _ _ (ground arith)
handle_request-SameCore freq debug s at (some d) none field = unknown-SameCore debug s at
handle_request-SameCore freq debug s at none irp field = unknown-SameCore debug s at

handle_retry-SameCore :
    (debug : Bool) (s : StorInner) (at : At) (irp : Option ℕ)
    → SameCore (apply at.ts (decode_retry irp) s) (handle_retry debug s at irp)
unfolding handle_retry
handle_retry-SameCore debug s at (some i) = SameCore-refl _
handle_retry-SameCore debug s at none = unknown-SameCore debug s at

handle_reset-SameCore :
    (debug : Bool) (s : StorInner) (at : At) (kind : ResetKind) (port : Option ℕ)
    (field : ℕ → Option ℕ)
    → SameCore
        (apply at.ts (decode_reset at kind port field) s)
        (handle_reset debug s at kind port field)
unfolding handle_reset
handle_reset-SameCore debug s at kind (some port) field = SameCore-refl _
handle_reset-SameCore debug s at kind none field = unknown-SameCore debug s at

SameCore-if :
    (s : StorInner) (ts : ℤ) (b : Bool) (ev ev' : Event) (t t' : StorInner)
    → SameCore (apply ts ev s) t
    → SameCore (apply ts ev' s) t'
    → SameCore (apply ts (if b then ev else ev') s) (if b then t else t')
SameCore-if s ts true ev ev' t t' p q = p
SameCore-if s ts false ev ev' t t' p q = q

dispatch-SameCore :
    (freq : ℕ) (debug : Bool) (s : StorInner) (at : At) (field : ℕ → Option ℕ)
    → SameCore (apply at.ts (decode_id freq at field) s) (dispatch freq debug s at field)
unfolding dispatch
dispatch-SameCore freq debug s at field =
    SameCore-if s at.ts _ _ _ _ _
      (handle_request-SameCore freq debug s at (field 0) (field 1) field)
      (SameCore-if s at.ts _ _ _ _ _ (handle_retry-SameCore debug s at (field 0)) (
        SameCore-if s at.ts _ _ _ _ _
          (handle_reset-SameCore debug s at logical_unit (field 0) field)
          (SameCore-if s at.ts _ _ _ _ _ (handle_reset-SameCore debug s at target (field 0) field) (
            SameCore-if s at.ts _ _ _ _ _
              (handle_reset-SameCore debug s at detected (field 0) field)
              (unknown-SameCore debug s at)))))

-- Handling an event is its arrival and then what it decodes to, and nothing else, but for the
-- counters of `--debug`.
pub handle-decode :
    (freq : ℕ) (debug : Bool) (s : StorInner) (at : At) (fields : Option (List (Option Field)))
    (bytes : List ℕ)
    → SameCore
        (apply at.ts (decode freq at fields bytes) (arrive freq debug s at))
        (handle freq debug s at fields bytes)
unfolding handle decode
handle-decode freq debug s at none bytes = unknown-SameCore debug _ at
handle-decode freq debug s at (some fields) bytes =
    dispatch-SameCore freq debug _ at (get fields bytes)

-- What an arrival may do to a property of the state's core: nothing, or one pruning.
pub arrive_cases {ℓ} :
    (P : StorInner → Type ℓ)
    → Respects P
    → ((s : StorInner) (keep : ℤ) → P s → P (prune s keep))
    → (freq : ℕ) (debug : Bool) (s : StorInner) (at : At) → P s
    → P (arrive freq debug s at)
unfolding arrive
arrive_cases P same pruned freq debug s at p =
    same (maybe_prune freq counted at.ts) _ (ground arith) (
      maybe_prune_cases P freq counted at.ts (same s counted (ground arith) p) newer
        (pruned _ _ newer))
  where
    counted : StorInner
    counted = record s { events = u64 (s.events + 1) }

    newer : P (record counted { latest_ts = at.ts })
    newer = same s (record counted { latest_ts = at.ts }) (ground arith) p

-- So a property of the core that prunings and decoded events keep, every event keeps.
pub handle_cases {ℓ κ} :
    (P : StorInner → Type ℓ) (Q : StorInner → Type κ)
    → Respects P
    → Respects Q
    → ((s : StorInner) (keep : ℤ) → P s → P (prune s keep))
    → (freq : ℕ) (debug : Bool) (s : StorInner) (at : At) (fields : Option (List (Option Field)))
      (bytes : List ℕ)
    → ((t : StorInner) → P t → Q (apply at.ts (decode freq at fields bytes) t))
    → P s
    → Q (handle freq debug s at fields bytes)
handle_cases P Q sameP sameQ pruned freq debug s at fields bytes step p =
    sameQ _ _ (handle-decode freq debug s at fields bytes)
      (step _ (arrive_cases P sameP pruned freq debug s at p))

-- The session: the callback runs once for each event, in the order of delivery.
pub record Delivery : Type 0 where
  pub at : At
  pub fields : Option (List (Option Field))
  pub bytes : List ℕ

unfoldable pub run : ℕ → Bool → StorInner → List Delivery → StorInner
run freq debug s [] = s
run freq debug s (d ∷ ds) = run freq debug (handle freq debug s d.at d.fields d.bytes) ds

abbrev pub meaning : ℕ → Delivery → Event
meaning freq d = decode freq d.at d.fields d.bytes
