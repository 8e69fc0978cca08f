-- ===== src/Tests/DiskWait.antt =====
-- A write that was outstanding before a delay, and a longer read that began in it.
use wtfis_stalling.Base.{◌≡◌, refl, true, false, some, List, [], ◌∷◌, Memᴰ}
use wtfis_stalling.Base.Int.{pos, div_i64, ◌-i64◌, ◌+i64◌, min_ℤ, max_ℤ}
use wtfis_stalling.Util.{ms_to_ticks}
use wtfis_stalling.State.Records.{IoRec}
use wtfis_stalling.DiskWait.{
  DiskWait, trigger, role_of, overlap, needed, covers_io, max_by, io_le, io_role, of_io, explain,
}
use wtfis_stalling.DiskWait.Explain.{explain-trigger}

abbrev early_write : IoRec
early_write = record {
  end = pos 20000000;
  dur = pos 15000000;
  file = 1;
  irp = 1;
  offset = pos 0;
  disk = 0;
  tid = 1;
  pid = 4;
  size = 512;
  irp_flags = 0;
  op = 87;
}

abbrev long_read : IoRec
long_read = record early_write { end = pos 40000000; dur = pos 30000000; op = 82 }

abbrev requests : List IoRec
requests = early_write ∷ long_read ∷ []

abbrev explained_by : DiskWait
explained_by = of_io 10000000 (pos 10000000) (pos 20000000) false early_write

covers-early : covers_io (pos 10000000) (pos 20000000) early_write ≡ true
unfolding covers_io overlap needed min_ℤ max_ℤ div_i64 ◌-i64◌
covers-early = refl

role-early : io_role 10000000 (pos 10000000) (pos 20000000) early_write ≡ trigger
unfolding role_of ms_to_ticks ◌-i64◌ ◌+i64◌
role-early = refl

explain-early : explain 10000000 (pos 10000000) (pos 20000000) requests [] 4 ≡ some explained_by
unfolding explain max_by io_le covers_io overlap needed min_ℤ max_ℤ div_i64 role_of ms_to_ticks
    ◌-i64◌ ◌+i64◌
explain-early = refl

explain-trigger_example : explained_by.role ≡ trigger
explain-trigger_example =
    explain-trigger 10000000 (pos 10000000) (pos 20000000) requests [] 4 early_write explained_by
      (Memᴰ.head refl) covers-early role-early explain-early
