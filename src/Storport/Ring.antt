-- ===== src/Storport/Ring.antt =====
-- src/storport/mod.rs: `StorInner`, the state that the trace's callback changes.
use wtfis_stalling.Base.{
  ℕ, ◌+◌, Bool, true, false, not, ◌&&◌, ◌||◌, Option, none, some, List, [], ◌∷◌, ◌++◌, ltb, ◌==◌,
  if◌then◌else◌, u32, u64, of_bool, length, filter, drop_while, head?, tail, min, Bool-cases, inl,
  inr, max,
}
use wtfis_stalling.Base.Int.{ℤ, pos, ltb_ℤ, leb_ℤ, max_ℤ, ◌-i64◌, div_i64, max_opt}
use wtfis_stalling.Base.Assoc.{nat_eq, lookup, remove, upsert, sum_values}
use wtfis_stalling.Util.{ms_to_ticks}
use wtfis_stalling.Storport.Types.{
  ScsiAddr, ReqRec, ResetRec, AddrTotals, no_totals, req_failed, addr_eq,
}
use mathlib.Core.Option

abbrev pub keep_ms : ℕ
keep_ms = 20000

abbrev pub reset_cap : ℕ
reset_cap = 1000

abbrev pub flush_wait_ms : ℕ
flush_wait_ms = 2000

-- `retry_by: [u64; 3]`.
pub record RetryBy : Type 0 where
  pub by_irp : ℕ
  pub by_orig : ℕ
  pub never : ℕ

pub record StorInner : Type 0 where
  pub events : ℕ
  pub latest_ts : ℤ
  pub last_prune : ℤ
  pub started : ℤ
  pub pruned_until : ℤ
  pub finished : Bool
  pub reqs : List ReqRec
  pub req_cap : ℕ
  pub reqs_lost_until : Option ℤ
  pub pending : List (ℕ × (ℤ × ℕ))
  pub retry_by : RetryBy
  pub resets : List ResetRec
  pub per_addr : List (ScsiAddr × AddrTotals)
  pub debug_counts : List ((ℕ × ℕ) × ℕ)
  pub debug_unknown : List ((ℕ × ℕ) × ℕ)
  pub debug_status : List ((ℕ × ℕ) × ℕ)
  pub debug_commands : List (ℕ × ℕ)

unfoldable pub new : ℕ → ℤ → StorInner
new req_cap started = record {
  events = 0;
  latest_ts = pos 0;
  last_prune = started;
  started = started;
  pruned_until = pos 0;
  finished = false;
  reqs = [];
  req_cap = req_cap;
  reqs_lost_until = none;
  pending = [];
  retry_by = record { by_irp = 0; by_orig = 0; never = 0 };
  resets = [];
  per_addr = [];
  debug_counts = [];
  debug_unknown = [];
  debug_status = [];
  debug_commands = [];
}

-- One round of the loop over `[r.irp, r.orig]`: the retries that wait under `key` go to the
-- request, and `bump` adds them to the slot of `retry_by` that the round is for.
abbrev pub bump_irp : RetryBy → ℕ → RetryBy
bump_irp b n = record b { by_irp = u64 (b.by_irp + n) }

abbrev pub bump_orig : RetryBy → ℕ → RetryBy
bump_orig b n = record b { by_orig = u64 (b.by_orig + n) }

abbrev attach_found :
    (RetryBy → ℕ → RetryBy) → ℕ → Option (ℤ × ℕ) → StorInner → ReqRec → StorInner × ReqRec
attach_found bump key none s r = (s, r)
attach_found bump key (some (ts, n)) s r = (
  record s { pending = remove key s.pending; retry_by = bump s.retry_by n },
  record r { retries = min 255 (r.retries + min n 255) },
)

unfoldable pub attach : (RetryBy → ℕ → RetryBy) → ℕ → StorInner → ReqRec → StorInner × ReqRec
attach bump key s r = if key == 0 then (s, r) else attach_found bump key (lookup key s.pending) s r

-- What a request adds to its drive's totals.
unfoldable pub count_req : ReqRec → AddrTotals → AddrTotals
count_req r t = record {
  requests = u64 (t.requests + 1);
  failed = u64 (t.failed + of_bool (req_failed r));
  retried = if ltb 0 r.retries then u64 (t.retried + 1) else t.retried;
  retries = if ltb 0 r.retries then u64 (t.retries + r.retries) else t.retries;
}

-- The record goes to the back of the ring; past the cap the oldest one is thrown away.
unfoldable pub push_ring : StorInner → ReqRec → StorInner
push_ring s r =
    let q = s.reqs ++ r ∷ [] in
    if ltb (max s.req_cap 1) (length q)
    then record s {
      reqs = tail q;
      reqs_lost_until = max_opt s.reqs_lost_until (Option.map (λ (x : ReqRec). x.ts) (head? q));
    }
    else record s { reqs = q }

-- The loop over the request's two pointers.
unfoldable pub attach_both : StorInner → ReqRec → StorInner × ReqRec
attach_both s r = let (s1, r1) = attach bump_irp r.irp s r in attach bump_orig r.orig s1 r1

unfoldable pub push_req : StorInner → ReqRec → StorInner
push_req s r =
    let (s2, r2) = attach_both s r in
    push_ring (record s2 { per_addr = upsert r2.addr no_totals (count_req r2) s2.per_addr }) r2

unfoldable pub on_retry : StorInner → ℤ → ℕ → StorInner
on_retry s ts irp =
    if irp == 0
    then s
    else record s { pending = upsert irp (ts, 0) (λ e. (e.0, u32 (e.1 + 1))) s.pending }

unfoldable pub on_reset : StorInner → ResetRec → StorInner
on_reset s r =
    if ltb (length s.resets) reset_cap then record s { resets = s.resets ++ r ∷ [] } else s

-- The entries of `pending` that `retain` keeps, and the retries of those that it does not.
abbrev pub is_recent : ℤ → ℕ × (ℤ × ℕ) → Bool
is_recent cutoff e = leb_ℤ cutoff e.1.0

unfoldable pub prune : StorInner → ℤ → StorInner
prune s keep =
    let cutoff = s.latest_ts -i64 keep in
    let dropped = sum_values (λ v. v.1) (filter (λ e. not (is_recent cutoff e)) s.pending) in
    record s {
      reqs = drop_while (λ r. ltb_ℤ r.ts cutoff) s.reqs;
      pruned_until = max_ℤ s.pruned_until cutoff;
      pending = filter (is_recent cutoff) s.pending;
      retry_by = record s.retry_by { never = u64 (s.retry_by.never + u64 dropped) };
      last_prune = s.latest_ts;
    }

abbrev pub none_or_before : Option ℤ → ℤ → Bool
none_or_before none from = true
none_or_before (some l) from = ltb_ℤ l from

unfoldable pub covers : StorInner → ℤ → Bool
covers s from =
    leb_ℤ s.started from && ltb_ℤ s.pruned_until from && none_or_before s.reqs_lost_until from

unfoldable pub caught_up : ℕ → StorInner → ℤ → ℤ → Bool
caught_up freq s to now =
    s.finished || leb_ℤ to s.latest_ts || ltb_ℤ (ms_to_ticks freq flush_wait_ms) (now -i64 to)

unfoldable pub maybe_prune : ℕ → StorInner → ℤ → StorInner
maybe_prune freq s ts =
    let s' = record s { latest_ts = ts } in
    let keep = ms_to_ticks freq keep_ms in
    if ltb_ℤ s.latest_ts ts
    then (if ltb_ℤ (div_i64 keep 8) (ts -i64 s.last_prune) then prune s' keep else s')
    else s

-- The three things that `maybe_prune` may do.
pub maybe_prune_cases {ℓ} :
    (P : StorInner → Type ℓ) (freq : ℕ) (s : StorInner) (ts : ℤ)
    → P s
    → P (record s { latest_ts = ts })
    → P (prune (record s { latest_ts = ts }) (ms_to_ticks freq keep_ms))
    → P (maybe_prune freq s ts)
unfolding maybe_prune
maybe_prune_cases P freq s ts same newer pruned = elim (Bool-cases (ltb_ℤ s.latest_ts ts)) [
  | inr old ↦ rw (old, maybe_prune) same
  | inl new ↦
      elim (Bool-cases (ltb_ℤ (div_i64 (ms_to_ticks freq keep_ms) 8) (ts -i64 s.last_prune))) [
        | inl due ↦ rw (new, due, maybe_prune) pruned
        | inr early ↦ rw (new, early, maybe_prune) newer
      ]
]
