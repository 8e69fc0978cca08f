-- ===== src/Split/Union.antt =====
-- src/storport/split.rs: the length of a union of intervals.
use wtfis_stalling.Base.{Bool, ◌&&◌, ◌||◌, Option, none, some, List, [], ◌∷◌, if◌then◌else◌, filter}
use wtfis_stalling.Base.Int.{ℤ, pos, ltb_ℤ, leb_ℤ, max_ℤ, ◌+i64◌, ◌-i64◌}
use wtfis_stalling.Base.Sort.{sort}

abbrev pub Span : Type 0
Span = ℤ × ℤ

-- The order of pairs that `sort_unstable` sorts by; equal pairs cannot be told apart.
unfoldable pub span_le : Span → Span → Bool
span_le x y = ltb_ℤ x.0 y.0 || leb_ℤ x.0 y.0 && leb_ℤ x.1 y.1

abbrev pub is_proper : Span → Bool
is_proper s = ltb_ℤ s.0 s.1

-- The loop: the span being grown, and the length of those before it.
unfoldable pub merge_spans : ℤ → Option Span → List Span → ℤ
merge_spans total none [] = total +i64 pos 0
merge_spans total (some (ca, cb)) [] = total +i64 (cb -i64 ca)
merge_spans total none ((a, b) ∷ spans) = merge_spans total (some (a, b)) spans
merge_spans total (some (ca, cb)) ((a, b) ∷ spans) =
    let touching = merge_spans total (some (ca, max_ℤ cb b)) spans in
    let apart = merge_spans (total +i64 (cb -i64 ca)) (some (a, b)) spans in
    if leb_ℤ a cb then touching else apart

unfoldable pub union_len : List Span → ℤ
union_len spans = merge_spans (pos 0) none (sort span_le (filter is_proper spans))
