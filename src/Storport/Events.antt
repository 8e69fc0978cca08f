-- ===== src/Storport/Events.antt =====
-- src/storport/events.rs: one event of the storage trace into the state. `fields` is what
-- `manifest::resolve` found for the event: a place for each wanted field, or nothing.
use wtfis_stalling.Base.{
  ℕ, ◌+◌, ◌*◌, ◌/◌, ◌≡◌, ◌↔◌, Bool, true, ◌&&◌, arith, Option, none, some, List, ◌==◌,
  if◌then◌else◌, u8, u32, u64, get_elem?, min,
}
use wtfis_stalling.Base.Int.{ℤ, pos}
use wtfis_stalling.Base.Assoc.{Eq, nat_eq, upsert}
use wtfis_stalling.Layout.{Field, read_uint}
use wtfis_stalling.Storport.Types.{ReqRec, ResetKind, logical_unit, target, detected}
use wtfis_stalling.Storport.Ring.{StorInner, push_req, on_retry, on_reset, maybe_prune}
use mathlib.Core.Option

abbrev pub ev_lu_reset : ℕ
ev_lu_reset = 1

abbrev pub ev_target_reset : ℕ
ev_target_reset = 2

abbrev pub ev_reset_detected : ℕ
ev_reset_detected = 4

abbrev pub ev_request : ℕ
ev_request = 201

abbrev pub ev_retry : ℕ
ev_retry = 209

-- `RequestDuration_100ns` in ticks, saturating.
unfoldable pub ticks_from_100ns : ℕ → ℕ → ℤ
ticks_from_100ns freq d = pos (min (d * freq / 10000000) 9223372036854775807)

pub record At : Type 0 where
  pub id : ℕ
  pub version : ℕ
  pub ts : ℤ

-- The counters of `--debug` are keyed by pairs of small numbers.
abbrev pair_beq : ℕ × ℕ → ℕ × ℕ → Bool
pair_beq a b = a.0 == b.0 && a.1 == b.1

pub pair_beq_iff : (a b : ℕ × ℕ) → (pair_beq a b ≡ true) ↔ (a ≡ b)
pair_beq_iff a b = ground arith

instance abbrev pub pair_eq : Eq (ℕ × ℕ)
pair_eq = record { beq = pair_beq; beq_iff = pair_beq_iff }

abbrev bump : ℕ → ℕ
bump n = u64 (n + 1)

unfoldable pub unknown : Bool → StorInner → At → StorInner
unknown debug s at =
    if debug
    then record s { debug_unknown = upsert (at.id, at.version) 0 bump s.debug_unknown }
    else s

-- `get(i)`: the wanted field number `i`, read from the payload.
unfoldable pub get : List (Option Field) → List ℕ → ℕ → Option ℕ
get fields bytes i = read_uint bytes (Option.bind (get_elem? fields i) (λ f. f))

abbrev or_zero : Option ℕ → ℕ
or_zero none = 0
or_zero (some n) = n

abbrev pub byte : Option ℕ → Option ℕ
byte = Option.map u8

abbrev pub request : ℕ → At → (ℕ → Option ℕ) → ℕ → ℕ → ReqRec
request freq at field dur irp = record {
  ts = at.ts;
  dur = ticks_from_100ns freq dur;
  irp = irp;
  orig = or_zero (field 4);
  bytes = u32 (or_zero (field 10));
  addr = record {
    port = or_zero (byte (field 5));
    bus = or_zero (byte (field 6));
    target = or_zero (byte (field 7));
    lun = or_zero (byte (field 8));
  };
  srb = or_zero (byte (field 3));
  scsi = or_zero (byte (field 9));
  cmd = or_zero (byte (field 2));
  retries = 0;
}

-- The `--debug` counts of a request.
abbrev pub debug_request : Bool → StorInner → ReqRec → StorInner
debug_request debug s r =
    if debug
    then record s {
      debug_status = upsert (r.srb, r.scsi) 0 bump s.debug_status;
      debug_commands = upsert r.cmd 0 bump s.debug_commands;
    }
    else s

unfoldable pub handle_request :
    ℕ → Bool → StorInner → At → Option ℕ → Option ℕ → (ℕ → Option ℕ) → StorInner
handle_request freq debug s at (some dur) (some irp) field =
    let r = request freq at field dur irp in push_req (debug_request debug s r) r
handle_request freq debug s at _ _ field = unknown debug s at

unfoldable pub handle_retry : Bool → StorInner → At → Option ℕ → StorInner
handle_retry debug s at (some irp) = on_retry s at.ts irp
handle_retry debug s at none = unknown debug s at

unfoldable pub handle_reset :
    Bool → StorInner → At → ResetKind → Option ℕ → (ℕ → Option ℕ) → StorInner
handle_reset debug s at kind (some port) field = on_reset s (record {
  ts = at.ts;
  kind = kind;
  port = u32 port;
  bus = byte (field 1);
  target = byte (field 2);
  lun = byte (field 3);
})
handle_reset debug s at kind none field = unknown debug s at

-- The `match` on the event's id.
unfoldable pub dispatch : ℕ → Bool → StorInner → At → (ℕ → Option ℕ) → StorInner
unfolding handle_request handle_retry handle_reset
dispatch freq debug s at field =
    if at.id == ev_request
    then handle_request freq debug s at (field 0) (field 1) field
    else if at.id == ev_retry
    then handle_retry debug s at (field 0)
    else if at.id == ev_lu_reset
    then handle_reset debug s at logical_unit (field 0) field
    else if at.id == ev_target_reset
    then handle_reset debug s at target (field 0) field
    else if at.id == ev_reset_detected
    then handle_reset debug s at detected (field 0) field
    else unknown debug s at

-- What every event does first: it is counted, and may prune the rings.
unfoldable pub arrive : ℕ → Bool → StorInner → At → StorInner
arrive freq debug s at =
    let s1 = maybe_prune freq (record s { events = u64 (s.events + 1) }) at.ts in
    if debug
    then record s1 { debug_counts = upsert (at.id, at.version) 0 bump s1.debug_counts }
    else s1

abbrev handle_fields : ℕ → Bool → StorInner → At → Option (List (Option Field)) → List ℕ → StorInner
handle_fields freq debug s at none bytes = unknown debug s at
handle_fields freq debug s at (some fields) bytes = dispatch freq debug s at (get fields bytes)

unfoldable pub handle :
    ℕ → Bool → StorInner → At → Option (List (Option Field)) → List ℕ → StorInner
unfolding arrive dispatch
handle freq debug s at fields bytes =
    handle_fields freq debug (arrive freq debug s at) at fields bytes
