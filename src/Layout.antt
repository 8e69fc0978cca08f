-- ===== src/Layout.antt =====
-- src/etw/layout.rs: where the fields of an event's payload are, and how one is read.
pub mod Reading
use Prim.Native.String.{String}
use mathlib.Core.Option
use text.Mathlib.Text.{◌==◌ as str_eq}
use wtfis_stalling.Base.{
  ℕ, suc, ◌+◌, ◌*◌, Bool, true, false, ◌||◌, Option, none, some, List, [], ◌∷◌, leb, ◌==◌,
  if◌then◌else◌, length, take, drop, set, replicate, ◌&&◌,
}

-- (offset, size).
abbrev pub Field : Type 0
Field = ℕ × ℕ

pub record Prop : Type 0 where
  pub name : String
  pub in_type : ℕ
  pub length : ℕ
  pub variable : Bool

-- An unsigned integer from its bytes, the lowest first.
unfoldable pub from_le_bytes : List ℕ → ℕ
from_le_bytes [] = 0
from_le_bytes (b ∷ bs) = b + 256 * from_le_bytes bs

unfoldable pub read_uint : List ℕ → Option Field → Option ℕ
unfolding from_le_bytes
read_uint bytes none = none
read_uint bytes (some (off, size)) =
    if leb (off + size) (length bytes)
    then (if size == 1 || size == 2 || size == 4 || size == 8
        then some (from_le_bytes (take size (drop off bytes)))
        else none)
    else none

-- `wanted.iter().position(|w| *w == name)`.
unfoldable pub position : String → List String → Option ℕ
position name [] = none
position name (w ∷ ws) = if str_eq w name then some 0 else Option.map suc (position name ws)

-- `out[i] = Some(field)`, where there was a position.
abbrev put : Option ℕ → Field → List (Option Field) → List (Option Field)
put none field out = out
put (some i) field out = set out i (some field)

abbrev pub is_some {ℓ} : {A : Type ℓ} → Option A → Bool
is_some none = false
is_some (some a) = true

-- `out.iter().all(Option::is_some)`.
abbrev all_some : List (Option Field) → Bool
all_some [] = true
all_some (o ∷ out) = is_some o && all_some out

-- The width of a property: `pointer_type` is `TDH_INTYPE_POINTER` of the Windows headers.
unfoldable pub size_of : ℕ → ℕ → Prop → ℕ
size_of pointer_type ptr_size p = if p.in_type == pointer_type then ptr_size else p.length

-- The loop over the properties, at `offset` with `out` filled in so far.
unfoldable pub place :
    ℕ → List String → ℕ → List Prop → ℕ → List (Option Field) → List (Option Field)
unfolding size_of
place pointer_type wanted ptr_size [] offset out = out
place pointer_type wanted ptr_size (p ∷ ps) offset out =
    let size = size_of pointer_type ptr_size p in
    let out' = put (position p.name wanted) (offset, size) out in
    let rest = place pointer_type wanted ptr_size ps (offset + size) out' in
    if p.variable then out else if size == 0 then out else if all_some out' then out' else rest

unfoldable pub field_offsets : ℕ → List Prop → List String → ℕ → List (Option Field)
unfolding place
field_offsets pointer_type props wanted ptr_size =
    place pointer_type wanted ptr_size props 0 (replicate (length wanted) none)
