-- ===== src/State/Notes.antt =====
-- The notable events of src/etw/events.rs: each is kept or counted as dropped.
use wtfis_stalling.Base.{
  ℕ, ◌+◌, ◌≤◌, ◌<◌, ◌≡◌, List, [], ◌∷◌, ◌++◌, of_bool, length, length-append, arith, Bool-cases,
  inl, inr,
}
use wtfis_stalling.Base.Int.{ℤ, leb_ℤ}
use wtfis_stalling.State.Records.{ExecRec, FaultRec, IoRec}
use wtfis_stalling.State.Tables.{Notable, long_exec, slow_fault, slow_io}
use wtfis_stalling.State.Callback.{
  Shared, Kernel, push_notable, beat, push_exec, push_fault, push_io,
}

-- A record that is pushed, with its duration.
pub data Pushed : Type 0 where
  exec : ExecRec → ℤ → Pushed
  fault : FaultRec → ℤ → Pushed
  io : IoRec → Pushed

abbrev pub push_record : ℕ → Shared → Kernel → Pushed → Kernel
push_record freq sh k (exec r dur) = push_exec freq sh k r dur
push_record freq sh k (fault r dur) = push_fault sh k r dur
push_record freq sh k (io r) = push_io sh k r

-- 1 for a record that took as long as its limit, or longer.
abbrev pub is_slow : Shared → Pushed → ℕ
is_slow sh (exec r dur) = of_bool (leb_ℤ sh.exec_warn dur)
is_slow sh (fault r dur) = of_bool (leb_ℤ sh.fault_warn dur)
is_slow sh (io r) = of_bool (leb_ℤ sh.io_warn r.dur)

abbrev pub push_records : ℕ → Shared → Kernel → List Pushed → Kernel
push_records freq sh k [] = k
push_records freq sh k (x ∷ xs) = push_records freq sh (push_record freq sh k x) xs

abbrev pub count_slow : Shared → List Pushed → ℕ
count_slow sh [] = 0
count_slow sh (x ∷ xs) = is_slow sh x + count_slow sh xs

-- `n` notable events so far, of which at most 2000 are kept.
abbrev pub IsNoted : Kernel → ℕ → Type 0
IsNoted k n = (length k.notable + k.notable_dropped ≡ n) × (length k.notable ≤ 2000)

push_notable-IsNoted :
    (k : Kernel) (x : Notable) (n : ℕ)
    → n + 1 < 18446744073709551616
    → IsNoted k n
    → IsNoted (push_notable k x) (n + 1)
unfolding push_notable
push_notable-IsNoted k x n small h = ground (arith, length-append k.notable (x ∷ []))

beat-IsNoted :
    (freq : ℕ) (k : Kernel) (routine : ℕ) (ts : ℤ) (n : ℕ)
    → IsNoted k n
    → IsNoted (beat freq k routine ts) n
unfolding beat
beat-IsNoted freq k routine ts n h = ground arith

abbrev rung : Kernel → ExecRec → Kernel
rung k r = record k { rings = record k.rings { execs = k.rings.execs ++ r ∷ [] } }

is_slow-le : (sh : Shared) (x : Pushed) → is_slow sh x ≤ 1
is_slow-le sh (exec r dur) = ground arith
is_slow-le sh (fault r dur) = ground arith
is_slow-le sh (io r) = ground arith

push_record-IsNoted :
    (freq : ℕ) (sh : Shared) (k : Kernel) (x : Pushed) (n : ℕ)
    → n + 1 < 18446744073709551616
    → IsNoted k n
    → IsNoted (push_record freq sh k x) (n + is_slow sh x)
unfolding push_exec push_fault push_io
push_record-IsNoted freq sh k (exec r dur) n small h = elim (Bool-cases (leb_ℤ sh.exec_warn dur)) [
  | inl slow ↦ rw slow (
      push_notable-IsNoted _ (long_exec r) n small
        (beat-IsNoted freq (rung k r) r.routine r.end n h))
  | inr quick ↦ rw quick (omega (arith, beat-IsNoted freq (rung k r) r.routine r.end n h))
]
push_record-IsNoted freq sh k (fault r dur) n small h =
    elim (Bool-cases (leb_ℤ sh.fault_warn dur)) [
      | inl slow ↦ rw slow (push_notable-IsNoted _ (slow_fault r) n small h)
      | inr quick ↦ rw quick (omega (arith, h))
    ]
push_record-IsNoted freq sh k (io r) n small h = elim (Bool-cases (leb_ℤ sh.io_warn r.dur)) [
  | inl slow ↦ rw slow (push_notable-IsNoted _ (slow_io r) n small h)
  | inr quick ↦ rw quick (omega (arith, h))
]

-- From a state within its bounds, where the notable events there were and the records together are
-- fewer than 2^64: the notable events kept and those counted
-- as dropped are those there were and one for each record that took as long as its limit, and at
-- most 2000 are kept.
pub push_records-IsNoted :
    (freq : ℕ) (sh : Shared) (k : Kernel) (xs : List Pushed) (n : ℕ)
    → n + length xs < 18446744073709551616
    → IsNoted k n
    → IsNoted (push_records freq sh k xs) (n + count_slow sh xs)
push_records-IsNoted freq sh k [] n small h = omega (arith, h)
push_records-IsNoted freq sh k (x ∷ xs) n small h = omega (
  arith,
  push_records-IsNoted freq sh (push_record freq sh k x) xs (n + is_slow sh x)
      (omega (arith, is_slow-le sh x)) (push_record-IsNoted freq sh k x n (omega arith) h),
)
