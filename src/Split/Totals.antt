-- ===== src/Split/Totals.antt =====
-- src/storport/split.rs: everything that was said about one disk's slow requests.
use wtfis_stalling.Base.{ℕ, ◌+◌, ltb, u32, of_bool}
use wtfis_stalling.Base.Int.{ℤ, pos, ◌+i64◌}
use wtfis_stalling.Split.Correlate.{How, Split, Outcome, split}

pub record SplitTotals : Type 0 where
  pub by_irp : ℕ
  pub by_orig : ℕ
  pub by_fallback : ℕ
  pub unmatched : ℕ
  pub ambiguous : ℕ
  pub not_covered : ℕ
  pub multi_piece : ℕ
  pub clipped : ℕ
  pub inside : ℤ
  pub waiting : ℤ
  pub retried : ℕ
  pub retries : ℕ
  pub failed : ℕ

abbrev pub no_splits : SplitTotals
no_splits = record {
  by_irp = 0;
  by_orig = 0;
  by_fallback = 0;
  unmatched = 0;
  ambiguous = 0;
  not_covered = 0;
  multi_piece = 0;
  clipped = 0;
  inside = pos 0;
  waiting = pos 0;
  retried = 0;
  retries = 0;
  failed = 0;
}

abbrev count_how : How → SplitTotals → SplitTotals
count_how How.by_irp t = record t { by_irp = u32 (t.by_irp + 1) }
count_how How.by_original_irp t = record t { by_orig = u32 (t.by_orig + 1) }
count_how How.by_fallback t = record t { by_fallback = u32 (t.by_fallback + 1) }

abbrev add_split : SplitTotals → Split → SplitTotals
add_split t s = record (count_how s.how t) {
  multi_piece = u32 (t.multi_piece + of_bool (ltb 1 s.pieces));
  clipped = u32 (t.clipped + of_bool s.clipped);
  inside = t.inside +i64 s.inside;
  waiting = t.waiting +i64 s.waiting;
  retried = u32 (t.retried + of_bool (ltb 0 s.retries));
  retries = u32 (t.retries + s.retries);
  failed = u32 (t.failed + s.failed);
}

unfoldable pub add : SplitTotals → Outcome → SplitTotals
add t (split s) = add_split t s
add t Outcome.unmatched = record t { unmatched = u32 (t.unmatched + 1) }
add t Outcome.ambiguous = record t { ambiguous = u32 (t.ambiguous + 1) }
add t Outcome.not_covered = record t { not_covered = u32 (t.not_covered + 1) }

unfoldable pub matched : SplitTotals → ℕ
matched t = u32 (t.by_irp + t.by_orig + t.by_fallback)

unfoldable pub tried : SplitTotals → ℕ
unfolding matched
tried t = u32 (matched t + t.unmatched + t.ambiguous)

unfoldable pub merge : SplitTotals → SplitTotals → SplitTotals
merge t o = record {
  by_irp = u32 (t.by_irp + o.by_irp);
  by_orig = u32 (t.by_orig + o.by_orig);
  by_fallback = u32 (t.by_fallback + o.by_fallback);
  unmatched = u32 (t.unmatched + o.unmatched);
  ambiguous = u32 (t.ambiguous + o.ambiguous);
  not_covered = u32 (t.not_covered + o.not_covered);
  multi_piece = u32 (t.multi_piece + o.multi_piece);
  clipped = u32 (t.clipped + o.clipped);
  inside = t.inside +i64 o.inside;
  waiting = t.waiting +i64 o.waiting;
  retried = u32 (t.retried + o.retried);
  retries = u32 (t.retries + o.retries);
  failed = u32 (t.failed + o.failed);
}
