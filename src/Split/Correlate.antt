-- ===== src/Split/Correlate.antt =====
-- src/storport/split.rs: a slow request matched to the port driver's records of it, and the split
-- of its time.
use wtfis_stalling.Base.{
  ℕ, ◌+◌, Bool, ◌&&◌, ◌||◌, Option, none, some, List, [], ◌∷◌, ◌==◌, if◌then◌else◌, filter, any,
  map, length, u32,
}
use wtfis_stalling.Base.Int.{ℤ, pos, negsuc, ltb_ℤ, leb_ℤ, min_ℤ, max_ℤ, ◌+i64◌, ◌-i64◌}
use wtfis_stalling.Util.{ms_to_ticks}
use wtfis_stalling.State.Records.{IoRec}
use wtfis_stalling.Storport.Types.{ScsiAddr, ReqRec, start, req_failed, addr_beq}
use wtfis_stalling.Split.Union.{Span, union_len}

abbrev pub match_slop_ms : ℕ
match_slop_ms = 1

abbrev pub fallback_ms : ℕ
fallback_ms = 1

pub data How : Type 0 where
  by_irp by_original_irp by_fallback : How

pub record Split : Type 0 where
  pub how : How
  pub pieces : ℕ
  pub inside : ℤ
  pub waiting : ℤ
  pub clipped : Bool
  pub retries : ℕ
  pub failed : ℕ

pub data Outcome : Type 0 where
  split : Split → Outcome
  unmatched ambiguous not_covered : Outcome

-- `x.clamp(0, hi)` for `0 <= hi`.
unfoldable pub clamp_ℤ : ℤ → ℤ → ℤ → ℤ
clamp_ℤ lo hi x = if ltb_ℤ x lo then lo else if ltb_ℤ hi x then hi else x

-- A record's interval, clipped to `[from, to]`.
unfoldable pub clip : ℤ → ℤ → ReqRec → Span
unfolding start
clip from to r = (max_ℤ (start r) from, min_ℤ r.ts to)

unfoldable pub reaches_out : ℤ → ℤ → ℤ → ReqRec → Bool
unfolding start
reaches_out from to slop r =
    ltb_ℤ (start r) (from -i64 slop) || ltb_ℤ (to +i64 slop) r.ts || ltb_ℤ r.dur (pos 0)

unfoldable pub sum_retries : List ReqRec → ℕ
sum_retries [] = 0
sum_retries (r ∷ rs) = u32 (r.retries + sum_retries rs)

unfoldable pub split_of : ℕ → IoRec → List ReqRec → How → Split
unfolding clamp_ℤ clip reaches_out sum_retries
split_of freq slow pieces how =
    let from = slow.end -i64 slow.dur in
    let to = slow.end in
    let slop = ms_to_ticks freq match_slop_ms in
    let inside = clamp_ℤ (pos 0) (max_ℤ slow.dur (pos 0)) (union_len (map (clip from to) pieces)) in
    record {
      how = how;
      pieces = u32 (length pieces);
      inside = inside;
      waiting = max_ℤ (slow.dur -i64 inside) (pos 0);
      clipped = any (reaches_out from to slop) pieces;
      retries = sum_retries pieces;
      failed = u32 (length (filter req_failed pieces));
    }

-- The record completed while the request was outstanding, give or take the slop.
unfoldable pub during : ℤ → ℤ → ℤ → ReqRec → Bool
during from to slop r = leb_ℤ (from -i64 slop) r.ts && leb_ℤ r.ts (to +i64 slop)

-- `(a - b).abs()`; the least value of an `i64` has no absolute value and stays.
unfoldable pub abs_i64 : ℤ → ℤ
abs_i64 (pos n) = pos n
abs_i64 (negsuc n) = pos 0 -i64 negsuc n

unfoldable pub fits : ℤ → ℕ → ScsiAddr → ℤ → ReqRec → Bool
unfolding abs_i64
fits to size addr near r =
    addr_beq r.addr addr && leb_ℤ (abs_i64 (r.ts -i64 to)) near && r.bytes == size

abbrev names_irp : ℕ → ReqRec → Bool
names_irp irp r = r.irp == irp || r.orig == irp

-- The records that match by a pointer; none for a request without one.
unfoldable pub by_pointer : ℕ → IoRec → List ReqRec → List ReqRec
unfolding during
by_pointer freq slow window =
    if slow.irp == 0
    then []
    else filter (names_irp slow.irp)
        (filter (during (slow.end -i64 slow.dur) slow.end (ms_to_ticks freq match_slop_ms)) window)

unfoldable pub how_of : ℕ → List ReqRec → How
how_of irp pieces = if any (λ r. r.irp == irp) pieces then by_irp else by_original_irp

abbrev by_fit : ℕ → IoRec → List ReqRec → Outcome
by_fit freq slow [] = unmatched
by_fit freq slow (r ∷ []) = split (split_of freq slow (r ∷ []) by_fallback)
by_fit freq slow (r ∷ _ ∷ _) = ambiguous

abbrev by_address : ℕ → IoRec → List ReqRec → Option ScsiAddr → Outcome
by_address freq slow window none = unmatched
by_address freq slow window (some addr) =
    by_fit freq slow (filter (fits slow.end slow.size addr (ms_to_ticks freq fallback_ms)) window)

abbrev by_pieces : ℕ → IoRec → List ReqRec → Option ScsiAddr → List ReqRec → Outcome
by_pieces freq slow window addr [] = by_address freq slow window addr
by_pieces freq slow window addr (r ∷ rs) =
    split (split_of freq slow (r ∷ rs) (how_of slow.irp (r ∷ rs)))

unfoldable pub correlate : ℕ → IoRec → List ReqRec → Option ScsiAddr → Outcome
unfolding by_pointer how_of fits
correlate freq slow window addr = by_pieces freq slow window addr (by_pointer freq slow window)
