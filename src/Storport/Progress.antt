-- ===== src/Storport/Progress.antt =====
-- The trace catches up: `caught_up` becomes true with the events, and stays so.
use wtfis_stalling.Base.{
  ℕ, ◌≡◌, sym, ◌∙◌, Bool, true, false, Option, none, some, List, [], ◌∷◌, arith, Memᴰ,
  if◌then◌else◌, subst,
}
use wtfis_stalling.Base.Int.{ℤ, ◌≤ℤ◌}
use wtfis_stalling.Storport.Types.{ReqRec, ResetKind, logical_unit, target, detected}
use wtfis_stalling.Storport.Ring.{
  StorInner, RetryBy, attach, attach_both, push_ring, push_req, on_retry, on_reset, prune,
  maybe_prune, caught_up,
}
use wtfis_stalling.Storport.Events.{
  At, arrive, dispatch, handle, handle_request, handle_retry, handle_reset, unknown, get, request,
  debug_request,
}
use wtfis_stalling.Storport.Decode.{Delivery, run}
use wtfis_stalling.Layout.{Field}

-- Neither the clock nor the end of the session differs.
record SameClock (s t : StorInner) : Type 0 where
  latest_ts : t.latest_ts ≡ s.latest_ts
  finished : t.finished ≡ s.finished

attach-clock :
    (bump : RetryBy → ℕ → RetryBy) (key : ℕ) (s : StorInner) (r : ReqRec)
    → SameClock s (attach bump key s r).0
unfolding attach
attach-clock bump key s r = ground arith

push_req-clock : (s : StorInner) (r : ReqRec) → SameClock s (push_req s r)
unfolding push_req attach_both push_ring attach
push_req-clock s r = ground arith

unknown-clock : (debug : Bool) (s : StorInner) (at : At) → SameClock s (unknown debug s at)
unfolding unknown
unknown-clock debug s at = ground arith

debug_request-clock :
    (debug : Bool) (s : StorInner) (r : ReqRec) → SameClock s (debug_request debug s r)
debug_request-clock true s r = ground arith
debug_request-clock false s r = ground arith

handle_request-clock :
    (freq : ℕ) (debug : Bool) (s : StorInner) (at : At) (dur irp : Option ℕ) (field : ℕ → Option ℕ)
    → SameClock s (handle_request freq debug s at dur irp field)
unfolding handle_request
handle_request-clock freq debug s at (some dur) (some irp) field =
    let r = request freq at field dur irp in
    let clock = push_req-clock (debug_request debug s r) r in
    record {
      latest_ts = clock.latest_ts ∙ (debug_request-clock debug s r).latest_ts;
      finished = clock.finished ∙ (debug_request-clock debug s r).finished;
    }
handle_request-clock freq debug s at (some dur) none field = unknown-clock debug s at
handle_request-clock freq debug s at none irp field = unknown-clock debug s at

handle_retry-clock :
    (debug : Bool) (s : StorInner) (at : At) (irp : Option ℕ)
    → SameClock s (handle_retry debug s at irp)
unfolding handle_retry on_retry
handle_retry-clock debug s at (some irp) = ground arith
handle_retry-clock debug s at none = unknown-clock debug s at

handle_reset-clock :
    (debug : Bool) (s : StorInner) (at : At) (kind : ResetKind) (port : Option ℕ)
    (field : ℕ → Option ℕ)
    → SameClock s (handle_reset debug s at kind port field)
unfolding handle_reset on_reset
handle_reset-clock debug s at kind (some port) field = ground arith
handle_reset-clock debug s at kind none field = unknown-clock debug s at

SameClock-if :
    (b : Bool) (s t u : StorInner)
    → SameClock s t
    → SameClock s u
    → SameClock s (if b then t else u)
SameClock-if true s t u h k = h
SameClock-if false s t u h k = k

dispatch-clock :
    (freq : ℕ) (debug : Bool) (s : StorInner) (at : At) (field : ℕ → Option ℕ)
    → SameClock s (dispatch freq debug s at field)
unfolding dispatch
dispatch-clock freq debug s at field =
    SameClock-if _ s _ _ (handle_request-clock freq debug s at (field 0) (field 1) field) (
      SameClock-if _ s _ _ (handle_retry-clock debug s at (field 0)) (
        SameClock-if _ s _ _ (handle_reset-clock debug s at logical_unit (field 0) field) (
          SameClock-if _ s _ _ (handle_reset-clock debug s at target (field 0) field) (
            SameClock-if _ s _ _ (handle_reset-clock debug s at detected (field 0) field)
              (unknown-clock debug s at)))))

-- After an event the clock is at its time or later, and has not gone back.
abbrev IsHeard : At → StorInner → StorInner → Type 0
IsHeard at s t = (s.latest_ts ≤ℤ t.latest_ts) × (at.ts ≤ℤ t.latest_ts) × (t.finished ≡ s.finished)

arrive-IsHeard :
    (freq : ℕ) (debug : Bool) (s : StorInner) (at : At) → IsHeard at s (arrive freq debug s at)
unfolding arrive maybe_prune prune
arrive-IsHeard freq debug s at = ground arith

handle-IsHeard :
    (freq : ℕ) (debug : Bool) (s : StorInner) (d : Delivery)
    → IsHeard d.at s (handle freq debug s d.at d.fields d.bytes)
unfolding handle
handle-IsHeard freq debug s d = heard d.fields
  where
    heard :
        (fields : Option (List (Option Field)))
        → IsHeard d.at s (handle freq debug s d.at fields d.bytes)
    heard none =
        let same_clock = unknown-clock debug (arrive freq debug s d.at) d.at in
        let (later, heard, same) = arrive-IsHeard freq debug s d.at in
        rw (same_clock.latest_ts, same_clock.finished) (later, heard, same)
    heard (some fields) =
        let same_clock =
          dispatch-clock freq debug (arrive freq debug s d.at) d.at (get fields d.bytes) in
        let (later, heard, same) = arrive-IsHeard freq debug s d.at in
        rw (same_clock.latest_ts, same_clock.finished) (later, heard, same)

run-later :
    (freq : ℕ) (debug : Bool) (s : StorInner) (ds : List Delivery)
    → s.latest_ts ≤ℤ (run freq debug s ds).latest_ts
unfolding run
run-later freq debug s [] = omega arith
run-later freq debug s (d ∷ ds) = omega (
  arith,
  handle-IsHeard freq debug s d,
  run-later freq debug (handle freq debug s d.at d.fields d.bytes) ds,
)

run-heard :
    (freq : ℕ) (debug : Bool) (s : StorInner) (ds : List Delivery) (d : Delivery)
    → Memᴰ d ds
    → d.at.ts ≤ℤ (run freq debug s ds).latest_ts
unfolding run
run-heard freq debug s [] d m = elim m [ ]
run-heard freq debug s (c ∷ ds) d (Memᴰ.head e) =
    subst (λ (x : Delivery). x.at.ts ≤ℤ (run freq debug s (c ∷ ds)).latest_ts) (sym e)
      (omega (
        arith,
        handle-IsHeard freq debug s c,
        run-later freq debug (handle freq debug s c.at c.fields c.bytes) ds,
      ))
run-heard freq debug s (c ∷ ds) d (Memᴰ.tail m) =
    run-heard freq debug (handle freq debug s c.at c.fields c.bytes) ds d m

-- Once the session delivers an event of time `to` or later, the trace has caught up with `to`, and
-- whatever it delivers before or after, at whatever time it is asked.
pub run-caught_up :
    (freq : ℕ) (debug : Bool) (s : StorInner) (ds : List Delivery) (d : Delivery) (to now : ℤ)
    → Memᴰ d ds
    → to ≤ℤ d.at.ts
    → caught_up freq (run freq debug s ds) to now ≡ true
unfolding caught_up
run-caught_up freq debug s ds d to now m h = ground (arith, run-heard freq debug s ds d m)
