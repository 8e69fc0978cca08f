-- ===== src/Util.antt =====
-- src/util.rs: ticks of the performance counter. `freq` is `qpc_freq()`, which Windows reports.
use wtfis_stalling.Base.{ℕ, ◌*◌, ◌/◌, min}
use wtfis_stalling.Base.Int.{ℤ, pos}

-- `ms_to_ticks` at a whole number of milliseconds, where the float's product and quotient are
-- exact up to the truncation; the cast to `i64` saturates.
unfoldable pub ms_to_ticks : ℕ → ℕ → ℤ
ms_to_ticks freq ms = pos (min (ms * freq / 1000) 9223372036854775807)
