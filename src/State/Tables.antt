-- ===== src/State/Tables.antt =====
-- src/state.rs: the tables of a whole run, which the callback of the kernel trace adds to.
use Prim.Native.Nat.{bit_or}
use Prim.Native.String.{String}
use mathlib.Core.Option
use text.Mathlib.Text.{◌==◌ as str_eq}
use wtfis_stalling.Base.{
  ℕ, zero, suc, ◌+◌, ◌/◌, ◌%◌, ◌^◌, Bool, true, false, ◌||◌, Option, none, some, List, [], ◌∷◌,
  ◌++◌, map, ltb, leb, ◌==◌, if◌then◌else◌, u32, u64, length, replicate, get_elem?, set,
}
use wtfis_stalling.Base.Int.{ℤ, pos, leb_ℤ, max_ℤ, ◌+i64◌}
use wtfis_stalling.Base.Assoc.{nat_eq, lookup, remove, upsert}
use wtfis_stalling.Base.Sort.{sort}
use wtfis_stalling.State.Records.{ExecRec, FaultRec, IoRec}

pub record RoutineStat : Type 0 where
  pub count : ℕ
  pub total : ℤ
  pub max : ℤ
  pub over_warn : ℕ

pub record FileWait : Type 0 where
  pub disk : ℕ
  pub count : ℕ
  pub total : ℤ
  pub max : ℤ

abbrev pub no_wait : ℕ → FileWait
no_wait disk = record { disk = disk; count = 0; total = pos 0; max = pos 0 }

pub record PidWait : Type 0 where
  pub pid : ℕ
  pub count : ℕ
  pub total : ℤ

pub record DiskFileWait : Type 0 where
  pub wait : FileWait
  pub by_pid : List PidWait

abbrev pub file_wait_pids : ℕ
file_wait_pids = 8

-- One more wait, of `dur` ticks.
unfoldable pub add_dur : FileWait → ℤ → FileWait
add_dur w dur = record w {
  count = u64 (w.count + 1);
  total = w.total +i64 dur;
  max = max_ℤ w.max dur;
}

-- The first entry of the process, changed in place; nothing when it has none.
unfoldable pub add_pid : ℕ → ℤ → List PidWait → Option (List PidWait)
add_pid pid dur [] = none
add_pid pid dur (p ∷ ps) =
    let rest = add_pid pid dur ps in
    if p.pid == pid
    then some (record p { count = u32 (p.count + 1); total = p.total +i64 dur } ∷ ps)
    else Option.map (◌∷◌ p) rest

abbrev with_pid : ℕ → ℤ → List PidWait → Option (List PidWait) → List PidWait
with_pid pid dur ps (some qs) = qs
with_pid pid dur ps none =
    if ltb (length ps) file_wait_pids
    then ps ++ record { pid = pid; count = 1; total = dur } ∷ []
    else ps

unfoldable pub add : DiskFileWait → ℕ → ℤ → DiskFileWait
unfolding add_dur add_pid
add w pid dur = record {
  wait = add_dur w.wait dur;
  by_pid = with_pid pid dur w.by_pid (add_pid pid dur w.by_pid);
}

-- The names by key, and the keys in the order they came.
pub record FileNames : Type 0 where
  pub map : List (ℕ × String)
  pub order : List ℕ

abbrev pub file_name_cap : ℕ
file_name_cap = 40000

abbrev pub file_wait_cap : ℕ
file_wait_cap = 8192

abbrev is_some {ℓ} : {A : Type ℓ} → Option A → Bool
is_some none = false
is_some (some a) = true

-- `while order.len() > FILE_NAME_CAP`: the oldest names go.
unfoldable pub evict : List (ℕ × String) → List ℕ → FileNames
evict m [] = record { map = m; order = [] }
evict m (k ∷ order) =
    let rest = evict (remove k m) order in
    if ltb file_name_cap (suc (length order)) then rest else record { map = m; order = k ∷ order }

unfoldable pub insert : FileNames → ℕ → String → FileNames
unfolding evict
insert names key name =
    let m = upsert key name (λ old. name) names.map in
    if key == 0 || str_eq name ""
    then names
    else if is_some (lookup key names.map)
    then record names { map = m }
    else evict m (names.order ++ key ∷ [])

unfoldable pub get : FileNames → ℕ → Option String
get names key = lookup key names.map

-- The entries above the cut, while there is room; the order is that of the map.
unfoldable pub retain_top {ℓ κ} :
    {K : Type ℓ} {V : Type κ} → (V → ℤ) → ℤ → ℕ → List (K × V) → List (K × V)
retain_top waited edge room [] = []
retain_top waited edge zero ((k, v) ∷ m) = retain_top waited edge zero m
retain_top waited edge (suc room) ((k, v) ∷ m) =
    let skipped = retain_top waited edge (suc room) m in
    let kept = retain_top waited edge room m in
    if leb_ℤ (waited v) edge then skipped else (k, v) ∷ kept

abbrev or_zero : Option ℤ → ℤ
or_zero none = pos 0
or_zero (some t) = t

-- Half of the tally goes when it is over its cap; the index is in range whenever it is used.
unfoldable pub cap_by_wait {ℓ κ} :
    {K : Type ℓ} {V : Type κ} → (V → ℤ) → ℕ → List (K × V) → List (K × V)
unfolding retain_top
cap_by_wait waited cap m =
    let totals = sort leb_ℤ (map (λ e. waited e.1) m) in
    let edge = or_zero (get_elem? totals (length totals / 2)) in
    if leb (length m) cap then m else retain_top waited edge (cap / 2) m

pub record LatStat : Type 0 where
  pub count : ℕ
  pub total : ℤ
  pub max : ℤ
  pub slow : ℕ

pub data Notable : Type 0 where
  long_exec : ExecRec → Notable
  slow_fault : FaultRec → Notable
  slow_io : IoRec → Notable

abbrev pub beat_buckets : ℕ
beat_buckets = 14400

abbrev pub beat_routines : ℕ
beat_routines = 192

-- `BEAT_WORDS` words of 64 bits.
abbrev pub Beats : Type 0
Beats = List ℕ

unfoldable pub no_beats : Beats
no_beats = replicate (beat_buckets / 64) 0

abbrev or_bit : ℕ → Option ℕ → Beats → ℕ → Beats
or_bit bucket none beats i = beats
or_bit bucket (some word) beats i = set beats i (bit_or word (2 ^ (bucket % 64)))

unfoldable pub set_beat : Beats → ℕ → Beats
set_beat beats bucket = or_bit bucket (get_elem? beats (bucket / 64)) beats (bucket / 64)

unfoldable pub merge_beats : Beats → Beats → Beats
merge_beats [] other = []
merge_beats (a ∷ beats) [] = a ∷ beats
merge_beats (a ∷ beats) (b ∷ other) = bit_or a b ∷ merge_beats beats other
