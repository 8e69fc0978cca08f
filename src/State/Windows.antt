-- ===== src/State/Windows.antt =====
-- `Inner::switch_window`: the windows of the two rings, and the bounds of the rings.
use wtfis_stalling.Base.{
  ℕ, ◌*◌, ◌/◌, ◌≤◌, ◌<◌, ◌≡◌, refl, Bool, List, [], ◌∷◌, ◌++◌, arith, filter, min, max, length,
  length-append, length-drop_while-le, tail,
}
use wtfis_stalling.Base.Int.{ℤ, IsTick, ltb_ℤ, ◌-i64◌}
use wtfis_stalling.Util.{ms_to_ticks}
use wtfis_stalling.Cut.{IsPartitionPoint, IsSearchable, in_window, window-eq-filter}
use wtfis_stalling.State.Records.{SwitchRec, ReadyRec}
use wtfis_stalling.State.Rings.{
  Inner, switch_window, switch_cap, ready_cap, push_switch, push_ready, hear, prune, Seen, switched,
  readied, other, on_seen, watch,
}

-- For bounds well inside an `i64`, a counter of less than 10^15 ticks a second, rings partitioned at
-- both edges of the window widened by a millisecond, in whatever order they are within and beyond
-- them, and binary searches that find the partition point of partitioned lists: the window is exactly
-- the switches and wake-ups of the rings that lie in it, in their order.
pub switch_window-eq-filter :
    (pps : (SwitchRec → Bool) → List SwitchRec → ℕ) (ppr : (ReadyRec → Bool) → List ReadyRec → ℕ)
    (freq : ℕ) (s : Inner) (from to : ℤ)
    → IsPartitionPoint pps
    → IsPartitionPoint ppr
    → freq < 1000000000000000
    → IsTick from
    → IsTick to
    → IsSearchable (λ (r : SwitchRec). r.ts) (ms_to_ticks freq 1) from to s.switches
    → IsSearchable (λ (r : ReadyRec). r.ts) (ms_to_ticks freq 1) from to s.readies
    → switch_window pps ppr freq s from to ≡ (
      filter (in_window (λ (r : SwitchRec). r.ts) from to) s.switches,
      filter (in_window (λ (r : ReadyRec). r.ts) from to) s.readies,
    )
unfolding switch_window ms_to_ticks
switch_window-eq-filter pps ppr freq s from to cuts cutr small hf ht edges edger =
    let slop = min (1 * freq / 1000) 9223372036854775807 in
    λ i. (
      window-eq-filter (λ (r : SwitchRec). r.ts) slop pps from to s.switches cuts hf ht
          (omega arith) edges i,
      window-eq-filter (λ (r : ReadyRec). r.ts) slop ppr from to s.readies cutr hf ht (omega arith)
          edger i,
    )

-- Both rings are within their caps, which are the ones the machine was given.
abbrev pub IsBounded : ℕ → ℕ → Inner → Type 0
IsBounded a b s =
    (s.switch_cap ≡ a)
    × (s.ready_cap ≡ b)
    × (length s.switches ≤ max a switch_cap)
    × (length s.readies ≤ max b ready_cap)

length-tail_pushed {ℓ} :
    {A : Type ℓ} (xs : List A) (a : A) → length (tail (xs ++ a ∷ [])) ≡ length xs
length-tail_pushed [] a = refl
length-tail_pushed (x ∷ xs) a = omega (arith, length-append xs (a ∷ []))

push_switch-IsBounded :
    (a b : ℕ) (s : Inner) (r : SwitchRec) → IsBounded a b s → IsBounded a b (push_switch s r)
unfolding push_switch
push_switch-IsBounded a b s r h =
    ground (arith, length-tail_pushed s.switches r, length-append s.switches (r ∷ []))

push_ready-IsBounded :
    (a b : ℕ) (s : Inner) (r : ReadyRec) → IsBounded a b s → IsBounded a b (push_ready s r)
unfolding push_ready
push_ready-IsBounded a b s r h =
    ground (arith, length-tail_pushed s.readies r, length-append s.readies (r ∷ []))

hear-IsBounded :
    (a b freq : ℕ) (keep : ℤ) (s : Inner) (ts : ℤ)
    → IsBounded a b s
    → IsBounded a b (hear freq keep s ts)
unfolding hear prune
hear-IsBounded a b freq keep s ts h =
    let edge = ts -i64 ms_to_ticks freq 6000 in
    ground (
      arith,
      length-drop_while-le (λ (r : SwitchRec). ltb_ℤ r.ts edge) s.switches,
      length-drop_while-le (λ (r : ReadyRec). ltb_ℤ r.ts edge) s.readies,
    )

on_seen-IsBounded :
    (a b freq : ℕ) (keep : ℤ) (s : Inner) (e : Seen)
    → IsBounded a b s
    → IsBounded a b (on_seen freq keep s e)
unfolding on_seen
on_seen-IsBounded a b freq keep s (switched r) h =
    push_switch-IsBounded a b _ r (hear-IsBounded a b freq keep s r.ts h)
on_seen-IsBounded a b freq keep s (readied r) h =
    push_ready-IsBounded a b _ r (hear-IsBounded a b freq keep s r.ts h)
on_seen-IsBounded a b freq keep s (other ts) h = hear-IsBounded a b freq keep s ts h

-- However many events arrive, neither ring outgrows its cap.
pub watch-IsBounded :
    (a b freq : ℕ) (keep : ℤ) (s : Inner) (es : List Seen)
    → IsBounded a b s
    → IsBounded a b (watch freq keep s es)
unfolding watch
watch-IsBounded a b freq keep s [] h = h
watch-IsBounded a b freq keep s (e ∷ es) h =
    watch-IsBounded a b freq keep (on_seen freq keep s e) es (on_seen-IsBounded a b freq keep s e h)
