-- ===== src/State/Covered.antt =====
-- The rings over a whole run of the kernel trace, and what `switches_cover` promises of them.
use wtfis_stalling.Base.{
  ℕ, ◌<◌, ◌≡◌, sym, inl, inr, true, Option, none, some, List, [], ◌∷◌, arith, Memᴰ, All,
  Memᴰ-append_left, Memᴰ-append_last, subst,
}
use wtfis_stalling.Base.Int.{ℤ, ◌≤ℤ◌, ◌<ℤ◌, IsTick}
use wtfis_stalling.State.Records.{SwitchRec, ReadyRec}
use wtfis_stalling.State.Rings.{
  Inner, push_switch, push_ready, switches_cover, none_or_before, reaches, hear, Seen, switched,
  readied, other, time_of, on_seen, watch,
}
use wtfis_stalling.State.Losses.{LostBy}
use wtfis_stalling.State.Reach.{InStep, IsGone, HasSwitch, HasReady}
use wtfis_stalling.State.Steps.{
  StandsAt, hear-InStep, hear-HasSwitch, hear-HasReady, push_switch-IsGone, push_switch-keeps,
  push_switch-InStep, push_switch-readies, push_ready-IsGone, push_ready-keeps, push_ready-switches,
  push_ready-InStep,
}

-- The events of a trace in the order of their times.
abbrev pub Following : ℤ → List Seen → Type 0
Following t [] = Unit
Following t (e ∷ es) = (t ≤ℤ time_of e) × IsTick (time_of e) × Following (time_of e) es

Following-later : (u t : ℤ) (es : List Seen) → u ≤ℤ t → Following t es → Following u es
Following-later u t [] h f = tt
Following-later u t (e ∷ es) h f = (omega arith, f.1, f.2)

-- The record of an event is in its ring; and is there, or left it in a way that is known.
abbrev pub IsKept : Seen → Inner → Type 0
IsKept (switched x) s = Memᴰ x s.switches
IsKept (readied x) s = Memᴰ x s.readies
IsKept (other ts) s = Unit

abbrev IsKnown : Seen → Inner → Type 0
IsKnown (switched x) s = HasSwitch x s
IsKnown (readied x) s = HasReady x s
IsKnown (other ts) s = Unit

-- A state of the rings at a time.
abbrev At : ℤ → Inner → Type 0
At t s = InStep s × StandsAt t s

push_switch-At : (s : Inner) (r : SwitchRec) → At r.ts s → At r.ts (push_switch s r)
unfolding push_switch
push_switch-At s r (i, h) = (push_switch-InStep s r h i, ground arith)

push_ready-At : (s : Inner) (r : ReadyRec) → At r.ts s → At r.ts (push_ready s r)
unfolding push_ready
push_ready-At s r (i, h) = (push_ready-InStep s r i, ground arith)

push_switch-IsKnown :
    (s : Inner) (r : SwitchRec) (e : Seen) → At r.ts s → IsKnown e s → IsKnown e (push_switch s r)
push_switch-IsKnown s r (switched x) (i, h) (inl m) =
    push_switch-keeps s r x (Memᴰ-append_left x s.switches (r ∷ []) m)
push_switch-IsKnown s r (switched x) (i, h) (inr gone) = inr (push_switch-IsGone s r x.ts h.0 gone)
push_switch-IsKnown s r (readied x) (i, h) (inl m) = inl (rw (push_switch-readies s r) m)
push_switch-IsKnown s r (readied x) (i, h) (inr gone) = inr (push_switch-IsGone s r x.ts h.0 gone)
push_switch-IsKnown s r (other ts) a k = tt

push_ready-IsKnown :
    (s : Inner) (r : ReadyRec) (e : Seen) → IsKnown e s → IsKnown e (push_ready s r)
push_ready-IsKnown s r (readied x) (inl m) =
    push_ready-keeps s r x (Memᴰ-append_left x s.readies (r ∷ []) m)
push_ready-IsKnown s r (readied x) (inr gone) = inr (push_ready-IsGone s r x.ts gone)
push_ready-IsKnown s r (switched x) (inl m) = inl (rw ((push_ready-switches s r).0) m)
push_ready-IsKnown s r (switched x) (inr gone) = inr (push_ready-IsGone s r x.ts gone)
push_ready-IsKnown s r (other ts) k = tt

module _ (freq : ℕ) (keep : ℤ) (small : freq < 1000000000000000) where
  hear-IsKnown :
      (s : Inner) (ts : ℤ) (e : Seen)
      → IsTick ts
      → InStep s
      → IsKnown e s
      → IsKnown e (hear freq keep s ts)
  hear-IsKnown s ts (switched x) t i k = hear-HasSwitch freq keep small s ts x t i k
  hear-IsKnown s ts (readied x) t i k = hear-HasReady freq keep small s ts x t i k
  hear-IsKnown s ts (other u) t i k = tt

  hear-At :
      (s : Inner) (ts : ℤ) → IsTick ts → s.latest_ts ≤ℤ ts → InStep s → At ts (hear freq keep s ts)
  hear-At s ts t h i = hear-InStep freq keep small s ts t h i

  on_seen-At :
      (s : Inner) (e : Seen)
      → IsTick (time_of e)
      → s.latest_ts ≤ℤ time_of e
      → InStep s
      → At (time_of e) (on_seen freq keep s e)
  unfolding on_seen
  on_seen-At s (switched r) t h i = push_switch-At _ r (hear-At s r.ts t h i)
  on_seen-At s (readied r) t h i = push_ready-At _ r (hear-At s r.ts t h i)
  on_seen-At s (other ts) t h i = hear-At s ts t h i

  on_seen-IsKnown :
      (s : Inner) (e x : Seen)
      → IsTick (time_of e)
      → s.latest_ts ≤ℤ time_of e
      → InStep s
      → IsKnown x s
      → IsKnown x (on_seen freq keep s e)
  unfolding on_seen
  on_seen-IsKnown s (switched r) x t h i k =
      push_switch-IsKnown _ r x (hear-At s r.ts t h i) (hear-IsKnown s r.ts x t i k)
  on_seen-IsKnown s (readied r) x t h i k = push_ready-IsKnown _ r x (hear-IsKnown s r.ts x t i k)
  on_seen-IsKnown s (other ts) x t h i k = hear-IsKnown s ts x t i k

  on_seen-new : (s : Inner) (e : Seen) → IsKnown e (on_seen freq keep s e)
  unfolding on_seen
  on_seen-new s (switched r) = push_switch-keeps _ r r (Memᴰ-append_last r _)
  on_seen-new s (readied r) = push_ready-keeps _ r r (Memᴰ-append_last r _)
  on_seen-new s (other ts) = tt

  watch-keeps :
      (s : Inner) (es : List Seen) (x : Seen)
      → InStep s
      → Following s.latest_ts es
      → IsKnown x s
      → IsKnown x (watch freq keep s es)
  unfolding watch
  watch-keeps s [] x i f k = k
  watch-keeps s (e ∷ es) x i f k =
      let next = on_seen-At s e f.1 f.0 i in
      watch-keeps (on_seen freq keep s e) es x next.0
        (Following-later _ (time_of e) es next.1.0 f.2) (on_seen-IsKnown s e x f.1 f.0 i k)

  watch-IsKnown :
      (s : Inner) (es : List Seen) (x : Seen)
      → InStep s
      → Following s.latest_ts es
      → Memᴰ x es
      → IsKnown x (watch freq keep s es)
  unfolding watch
  watch-IsKnown s [] x i f m = elim m [ ]
  watch-IsKnown s (e ∷ es) x i f m =
      let next = on_seen-At s e f.1 f.0 i in
      let rest = Following-later _ (time_of e) es next.1.0 f.2 in
      elim m [
        | Memᴰ.head here ↦
            watch-keeps (on_seen freq keep s e) es x next.0 rest
              (subst (λ (y : Seen). IsKnown y (on_seen freq keep s e)) (sym here) (on_seen-new s e))
        | Memᴰ.tail later ↦ watch-IsKnown (on_seen freq keep s e) es x next.0 rest later
      ]

LostBy-before :
    (o : Option ℤ) (from t : ℤ) → none_or_before o from ≡ true → from ≤ℤ t → LostBy o t → ⊥
LostBy-before none from t c h l = l
LostBy-before (some a) from t c h l = ground arith

reaches-after :
    (rs : List SwitchRec) (from t : ℤ)
    → reaches rs from ≡ true
    → from ≤ℤ t
    → All (λ y. t <ℤ y.ts) rs
    → ⊥
reaches-after [] from t c h later = cc
reaches-after (r ∷ rs) from t c h later = ground (arith, later.0)

covers-parts :
    (s : Inner) (from : ℤ)
    → switches_cover s from ≡ true
    → (none_or_before s.ring_lost_until from ≡ true) × (reaches s.switches from ≡ true)
unfolding switches_cover
covers-parts s from c = ground arith

IsGone-late : (s : Inner) (from t : ℤ) → switches_cover s from ≡ true → from ≤ℤ t → IsGone s t → ⊥
IsGone-late s from t c h (inl l) =
    LostBy-before s.ring_lost_until from t (covers-parts s from c).0 h l
IsGone-late s from t c h (inr (later, past)) =
    reaches-after s.switches from t (covers-parts s from c).1 h later

IsKnown-IsKept :
    (s : Inner) (from : ℤ) (x : Seen)
    → switches_cover s from ≡ true
    → from ≤ℤ time_of x
    → IsKnown x s
    → IsKept x s
IsKnown-IsKept s from (switched x) c h (inl m) = m
IsKnown-IsKept s from (switched x) c h (inr gone) = absurd (IsGone-late s from x.ts c h gone)
IsKnown-IsKept s from (readied x) c h (inl m) = m
IsKnown-IsKept s from (readied x) c h (inr gone) = absurd (IsGone-late s from x.ts c h gone)
IsKnown-IsKept s from (other ts) c h k = tt

-- Whatever the trace delivered, pruned and threw away, in the order of its times, each of less than
-- 2^60 ticks either way, from a state whose clock is such a time too and not after the first event,
-- whose ring of switches is in order and has none later than that clock, and for a counter of less
-- than 10^15 ticks a second: once `switches_cover from` says yes, every switch and every wake-up among
-- the events of `from` or later is still in its ring.
pub switches_cover_sound :
    (freq : ℕ) (keep : ℤ) (s : Inner) (es : List Seen) (x : Seen) (from : ℤ)
    → freq < 1000000000000000
    → InStep s
    → Following s.latest_ts es
    → Memᴰ x es
    → switches_cover (watch freq keep s es) from ≡ true
    → from ≤ℤ time_of x
    → IsKept x (watch freq keep s es)
switches_cover_sound freq keep s es x from small i f m c h =
    IsKnown-IsKept (watch freq keep s es) from x c h (watch-IsKnown freq keep small s es x i f m)
