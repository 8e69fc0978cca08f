-- ===== src/Gpu/Refresh.antt =====
-- The refreshes that are kept lie half a millisecond apart at least.
use wtfis_stalling.Base.{
  ℕ, ◌+◌, ◌/◌, ◌<◌, All, ◌≡◌, ◌≤◌, refl, sym, subst, arith, Bool, true, false, Option, none, some,
  List, [], ◌∷◌, ◌++◌, if◌then◌else◌, ltb, length, length-append, length-drop_while-le, drop_while,
  tail, Bool-cases, inl, inr, u64, ◌==◌,
}
use wtfis_stalling.Base.Int.{ℤ, pos_part, neg_part, ltb_ℤ, ◌<ℤ◌, ◌-i64◌, -i64_parts, IsTick}
use wtfis_stalling.State.Losses.{All-append_last, All-tail, All-drop_while}
use wtfis_stalling.Layout.{Field}
use wtfis_stalling.Gpu.{
  GpuInner, half_ms, last, is_close, push_refresh, on_refresh, prune, push_present, push_residency,
}
use wtfis_stalling.Gpu.Events.{
  At, handle, maybe_prune, dispatch, unknown, handle_present, handle_start, handle_stop, is_refresh,
  count_debug, ev_present, ev_resident_start, ev_resident_stop,
}
use wtfis_stalling.Storport.Events.{get}

-- Each time is later than the one before it, by half a millisecond at least.
abbrev pub AreSpaced : ℕ → List ℤ → Type 0
AreSpaced freq [] = Unit
AreSpaced freq (a ∷ []) = Unit
AreSpaced freq (a ∷ b ∷ ts) =
    (a <ℤ b)
    × (freq / 2000 + (pos_part a + neg_part b) ≤ pos_part b + neg_part a)
    × AreSpaced freq (b ∷ ts)

-- A counter of 2000 ticks a second at least, and of less than 10^15.
abbrev pub IsFine : ℕ → Type 0
IsFine freq = (2000 ≤ freq) × (freq < 1000000000000000)

apart :
    (freq : ℕ) (a t : ℤ)
    → IsFine freq
    → IsTick a
    → IsTick t
    → ltb_ℤ (t -i64 a) (half_ms freq) ≡ false
    → (a <ℤ t) × (freq / 2000 + (pos_part a + neg_part t) ≤ pos_part t + neg_part a)
unfolding half_ms
apart freq a t fine ha ht f =
    let parts = -i64_parts t a (omega arith) (omega arith) in
    let far : freq / 2000 + neg_part (t -i64 a) ≤ pos_part (t -i64 a) = ground (arith, f) in
    (omega (arith, parts, far), omega (arith, parts, far))

AreSpaced-tail : (freq : ℕ) (ts : List ℤ) → AreSpaced freq ts → AreSpaced freq (tail ts)
AreSpaced-tail freq [] h = tt
AreSpaced-tail freq (a ∷ []) h = tt
AreSpaced-tail freq (a ∷ b ∷ ts) h = h.2

AreSpaced-append :
    (freq : ℕ) (ts : List ℤ) (t : ℤ)
    → IsFine freq
    → All IsTick ts
    → IsTick t
    → is_close freq t (last ts) ≡ false
    → AreSpaced freq ts
    → AreSpaced freq (ts ++ t ∷ [])
AreSpaced-append freq [] t fine hs ht f h = tt
AreSpaced-append freq (a ∷ []) t fine hs ht f h =
    let two = apart freq a t fine hs.0 ht f in (two.0, two.1, tt)
AreSpaced-append freq (a ∷ b ∷ ts) t fine hs ht f h =
    (h.0, h.1, AreSpaced-append freq (b ∷ ts) t fine hs.1 ht f h.2)

AreSpaced-drop_while :
    (freq : ℕ) (p : ℤ → Bool) (ts : List ℤ) → AreSpaced freq ts → AreSpaced freq (drop_while p ts)
AreSpaced-drop_while freq p [] h = tt
AreSpaced-drop_while freq p (a ∷ ts) h = elim (Bool-cases (p a)) [
  | inl t ↦ rw (t, if◌then◌else◌) (AreSpaced-drop_while freq p ts (AreSpaced-tail freq (a ∷ ts) h))
  | inr f ↦ rw (f, if◌then◌else◌) h
]

-- The refreshes are spaced, their times are well inside an `i64`, and their ring is no longer than its
-- cap.
pub record IsSteady (freq : ℕ) (s : GpuInner) : Type 0 where
  pub spaced : AreSpaced freq s.refresh
  pub ticks : All IsTick s.refresh
  pub bounded : length s.refresh ≤ s.refresh_cap

tail-length : (ts : List ℤ) (t : ℤ) (n : ℕ) → length ts ≤ n → length (tail (ts ++ t ∷ [])) ≤ n
tail-length [] t n h = omega arith
tail-length (a ∷ ts) t n h = omega (arith, length-append ts (t ∷ []))

push_refresh-IsSteady :
    (freq : ℕ) (s : GpuInner) (ts : ℤ)
    → IsFine freq
    → IsTick ts
    → is_close freq ts (last s.refresh) ≡ false
    → IsSteady freq s
    → IsSteady freq (push_refresh s ts)
unfolding push_refresh
push_refresh-IsSteady freq s ts fine ht f h =
    let longer = AreSpaced-append freq s.refresh ts fine h.ticks ht f h.spaced in
    let all = All-append_last IsTick s.refresh ts h.ticks ht in
    elim (Bool-cases (ltb s.refresh_cap (length (s.refresh ++ ts ∷ [])))) [
      | inl t ↦
          rw (t, if◌then◌else◌)
            (record {
              spaced = AreSpaced-tail freq (s.refresh ++ ts ∷ []) longer;
              ticks = All-tail IsTick (s.refresh ++ ts ∷ []) all;
              bounded = tail-length s.refresh ts s.refresh_cap h.bounded;
            })
      | inr g ↦
          rw (g, if◌then◌else◌)
            (record { spaced = longer; ticks = all; bounded = ground (arith, g) })
    ]

-- A state with the same ring of refreshes.
same-IsSteady :
    (freq : ℕ) (s t : GpuInner)
    → t.refresh ≡ s.refresh
    → t.refresh_cap ≡ s.refresh_cap
    → IsSteady freq s
    → IsSteady freq t
same-IsSteady freq s t e c h = record {
  spaced = subst (AreSpaced freq) (sym e) h.spaced;
  ticks = subst (All IsTick) (sym e) h.ticks;
  bounded = rw (e, c) h.bounded;
}

on_refresh-IsSteady :
    (freq : ℕ) (s : GpuInner) (ts : ℤ)
    → IsFine freq
    → IsTick ts
    → IsSteady freq s
    → IsSteady freq (on_refresh freq s ts)
unfolding on_refresh
on_refresh-IsSteady freq s ts fine ht h = elim (Bool-cases (is_close freq ts (last s.refresh))) [
  | inl t ↦ rw (t, if◌then◌else◌) h
  | inr f ↦ rw (f, if◌then◌else◌) (push_refresh-IsSteady freq s ts fine ht f h)
]

prune-IsSteady :
    (freq : ℕ) (s : GpuInner) (keep : ℤ) → IsSteady freq s → IsSteady freq (prune s keep)
unfolding prune
prune-IsSteady freq s keep h =
    let old = λ (ts : ℤ). ltb_ℤ ts (s.latest_ts -i64 keep) in
    record {
      spaced = AreSpaced-drop_while freq old s.refresh h.spaced;
      ticks = All-drop_while IsTick old s.refresh h.ticks;
      bounded = omega (arith, h.bounded, length-drop_while-le old s.refresh);
    }

if-IsSteady :
    (freq : ℕ) (s t : GpuInner) (b : Bool)
    → IsSteady freq s
    → IsSteady freq t
    → IsSteady freq (if b then s else t)
if-IsSteady freq s t true h k = h
if-IsSteady freq s t false h k = k

maybe_prune-IsSteady :
    (freq : ℕ) (s : GpuInner) (ts : ℤ) → IsSteady freq s → IsSteady freq (maybe_prune freq s ts)
unfolding maybe_prune
maybe_prune-IsSteady freq s ts h =
    let s' : GpuInner = record s { latest_ts = ts } in
    let h' = same-IsSteady freq s s' refl refl h in
    if-IsSteady freq _ s _ (if-IsSteady freq _ s' _ (prune-IsSteady freq s' _ h') h') h

unknown-IsSteady :
    (freq : ℕ) (debug : Bool) (s : GpuInner) (at : At)
    → IsSteady freq s
    → IsSteady freq (unknown debug s at)
unfolding unknown
unknown-IsSteady freq debug s at h = same-IsSteady freq s _ (ground arith) (ground arith) h

count_debug-IsSteady :
    (freq : ℕ) (debug : Bool) (s : GpuInner) (at : At)
    → IsSteady freq s
    → IsSteady freq (count_debug debug s at)
count_debug-IsSteady freq debug s at h = same-IsSteady freq s _ (ground arith) (ground arith) h

handle_present-IsSteady :
    (freq : ℕ) (s : GpuInner) (at : At) (source : Option ℕ)
    → IsSteady freq s
    → IsSteady freq (handle_present s at source)
unfolding handle_present push_present
handle_present-IsSteady freq s at source h = same-IsSteady freq s _ (ground arith) (ground arith) h

handle_stop-IsSteady :
    (freq : ℕ) (s : GpuInner) (at : At) (status trim : Option ℕ)
    → IsSteady freq s
    → IsSteady freq (handle_stop freq s at status trim)
unfolding handle_stop push_residency
handle_stop-IsSteady freq s at none trim h = h
handle_stop-IsSteady freq s at (some status) trim h =
    same-IsSteady freq s _ (ground arith) (ground arith) h

dispatch-IsSteady :
    (freq : ℕ) (debug : Bool) (s : GpuInner) (at : At) (fields : Option (List (Option Field)))
    (bytes : List ℕ)
    → IsFine freq
    → IsTick at.ts
    → IsSteady freq s
    → IsSteady freq (dispatch freq debug s at fields bytes)
unfolding dispatch handle_start
dispatch-IsSteady freq debug s at none bytes fine ht h =
    if-IsSteady freq _ _ (is_refresh at.id) (on_refresh-IsSteady freq s at.ts fine ht h)
      (unknown-IsSteady freq debug s at h)
dispatch-IsSteady freq debug s at (some fields) bytes fine ht h =
    if-IsSteady freq _ _ (is_refresh at.id) (on_refresh-IsSteady freq s at.ts fine ht h) (
      if-IsSteady freq _ _ (at.id == ev_present)
        (handle_present-IsSteady freq s at (get fields bytes 0) h)
        (if-IsSteady freq _ _ (at.id == ev_resident_start) (same-IsSteady freq s _ refl refl h) (
          if-IsSteady freq _ _ (at.id == ev_resident_stop)
            (handle_stop-IsSteady freq s at (get fields bytes 0) (get fields bytes 1) h)
            (unknown-IsSteady freq debug s at h))))

-- The session: the callback runs once for each event, in the order of delivery.
pub record Delivery : Type 0 where
  pub at : At
  pub fields : Option (List (Option Field))
  pub bytes : List ℕ

unfoldable pub run : ℕ → Bool → GpuInner → List Delivery → GpuInner
run freq debug s [] = s
run freq debug s (d ∷ ds) = run freq debug (handle freq debug s d.at d.fields d.bytes) ds

-- For a counter of 2000 ticks a second at least and less than 10^15, and events whose
-- times are well inside an `i64`, in whatever order they are delivered, from a state in which it is
-- so: each refresh that is kept is later than the one before it, by half a millisecond at least, their
-- times are well inside an `i64`, and they are no more than the cap.
pub run-IsSteady :
    (freq : ℕ) (debug : Bool) (s : GpuInner) (ds : List Delivery)
    → IsFine freq
    → All (λ d. IsTick d.at.ts) ds
    → IsSteady freq s
    → IsSteady freq (run freq debug s ds)
unfolding run handle
run-IsSteady freq debug s [] fine hs h = h
run-IsSteady freq debug s (d ∷ ds) fine hs h =
    let counted : GpuInner = record s { events = u64 (s.events + 1) } in
    let pruned =
      maybe_prune-IsSteady freq counted d.at.ts (same-IsSteady freq s counted refl refl h) in
    let met = count_debug debug (maybe_prune freq counted d.at.ts) d.at in
    run-IsSteady freq debug (dispatch freq debug met d.at d.fields d.bytes) ds fine hs.1 (
      dispatch-IsSteady freq debug met d.at d.fields d.bytes fine hs.0
        (count_debug-IsSteady freq debug (maybe_prune freq counted d.at.ts) d.at pruned))
