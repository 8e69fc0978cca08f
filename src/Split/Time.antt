-- ===== src/Split/Time.antt =====
-- `split_of` and `correlate` against their meaning: the ticks of a request's lifetime.
use wtfis_stalling.Base.{
  ℕ, ◌+◌, ◌-◌, ◌≤◌, ◌<◌, ◌≡◌, refl, ap, ◌∙◌, Bool, ◌&&◌, List, [], ◌∷◌, arith, any, map, All,
}
use wtfis_stalling.Base.Int.{
  ℤ, pos, pos_part, neg_part, ltb_ℤ, leb_ℤ, max_ℤ, min_ℤ, ◌-i64◌, -i64_parts, eq_of_parts,
  max_ℤ-bounds, min_ℤ-bounds, IsTick,
}
use wtfis_stalling.State.Records.{IoRec}
use wtfis_stalling.Storport.Types.{ReqRec, start}
use wtfis_stalling.Split.Union.{union_len}
use wtfis_stalling.Split.Measure.{
  tick, covered, count_ticks, count_ticks-congr, count_ticks-le, IsClipped, union_len-measure,
}
use wtfis_stalling.Split.Correlate.{How, clip, clamp_ℤ, split_of}

-- Some piece was below the port driver at the tick.
abbrev pub in_flight : List ReqRec → ℤ → Bool
in_flight pieces t = any (λ r. leb_ℤ (start r) t && ltb_ℤ t r.ts) pieces

-- A request that ended at a tick and took `n` ticks, all well inside an `i64`.
abbrev pub Lasted : IoRec → ℕ → Type 0
Lasted slow n =
    (pos_part slow.end < 576460752303423488)
    × (neg_part slow.end < 576460752303423488)
    × (slow.dur ≡ pos n)
    × (n < 576460752303423488)

clamp-fits : (b n : ℕ) → b ≤ n → clamp_ℤ (pos 0) (max_ℤ (pos n) (pos 0)) (pos b) ≡ pos b
unfolding clamp_ℤ max_ℤ
clamp-fits b n h = ground arith

rest-fits :
    (b n : ℕ) → b ≤ n → n < 576460752303423488 → max_ℤ (pos n -i64 pos b) (pos 0) ≡ pos (n - b)
rest-fits b n h small =
    rw (eq_of_parts (pos n -i64 pos b) (pos (n - b)) (omega (arith, -i64_parts (pos n) (pos b))))
      (unfold max_ℤ in ground arith)

module _ (slow : IoRec) (n : ℕ) (h : Lasted slow n) where
  abbrev from : ℤ
  from = slow.end -i64 slow.dur

  from_parts :
      (pos_part slow.end + neg_part from ≡ pos_part from + neg_part slow.end + n) × IsTick from
  from_parts = rw (h.2) (omega (arith, -i64_parts slow.end (pos n)))

  clip-IsClipped : (pieces : List ReqRec) → All (IsClipped from n) (map (clip from slow.end) pieces)
  unfolding clip
  clip-IsClipped [] = tt
  clip-IsClipped (r ∷ rs) = (
    omega (arith, from_parts, max_ℤ-bounds (start r) from, min_ℤ-bounds r.ts slow.end),
    clip-IsClipped rs,
  )

  -- Within the request's lifetime the clipped pieces cover what the pieces do.
  covered-clip :
      (pieces : List ReqRec) (k : ℕ)
      → k < n
      → covered (map (clip from slow.end) pieces) (tick from k) ≡ in_flight pieces (tick from k)
  unfolding clip max_ℤ min_ℤ
  covered-clip [] k lt = refl
  covered-clip (r ∷ rs) k lt = ground (arith, from_parts, covered-clip rs k lt)

  -- The ticks of its lifetime during which some piece was below the port driver.
  abbrev pub busy_ticks : List ReqRec → ℕ
  busy_ticks pieces = count_ticks (in_flight pieces) from n

  union_len-clip :
      (pieces : List ReqRec) → union_len (map (clip from slow.end) pieces) ≡ pos (busy_ticks pieces)
  union_len-clip pieces =
      union_len-measure from n _ (from_parts.1) (omega arith) (clip-IsClipped pieces)
      ∙ ap pos (count_ticks-congr _ _ from n (covered-clip pieces))

  -- The time inside the drive is the number of ticks of the request's lifetime during which at
  -- least one of its pieces was outstanding below the port driver, and the rest of its time is the
  -- time in Windows: neither is negative, pieces in flight together are not counted twice, and the
  -- clamp of the source changes nothing.
  pub split_of-time :
      (freq : ℕ) (pieces : List ReqRec) (how : How)
      → ((split_of freq slow pieces how).inside ≡ pos (busy_ticks pieces))
        × ((split_of freq slow pieces how).waiting ≡ pos (n - busy_ticks pieces))
        × (busy_ticks pieces ≤ n)
  unfolding split_of
  split_of-time freq pieces how = (inside, waiting, count_ticks-le _ from n)
    where
      bounded : busy_ticks pieces ≤ n
      bounded = count_ticks-le _ from n

      inside : (split_of freq slow pieces how).inside ≡ pos (busy_ticks pieces)
      inside =
          ap (λ d. clamp_ℤ (pos 0) (max_ℤ d (pos 0)) (union_len (map (clip from slow.end) pieces)))
            (h.2)
          ∙ ap (clamp_ℤ (pos 0) (max_ℤ (pos n) (pos 0))) (union_len-clip pieces)
          ∙ clamp-fits (busy_ticks pieces) n bounded

      waiting : (split_of freq slow pieces how).waiting ≡ pos (n - busy_ticks pieces)
      waiting =
          ap (λ x. max_ℤ (slow.dur -i64 x) (pos 0)) inside
          ∙ ap (λ d. max_ℤ (d -i64 pos (busy_ticks pieces)) (pos 0)) (h.2)
          ∙ rest-fits (busy_ticks pieces) n bounded (h.3)
