-- ===== src/State/Waits.antt =====
-- The tables of src/state.rs keep what they were given: waits by process, names within their cap.
use wtfis_stalling.Base.{
  ℕ, ◌+◌, ◌≤◌, ◌<◌, ◌≡◌, ◌⊎◌, inl, inr, Option, none, some, List, [], ◌∷◌, ◌++◌, ◌==◌, length,
  length-append, arith, Option-cases, Bool-cases, subst,
}
use wtfis_stalling.Base.Int.{ℤ}
use wtfis_stalling.Base.Assoc.{nat_eq}
use wtfis_stalling.State.Tables.{PidWait, no_wait, DiskFileWait, add, add_dur, add_pid}

-- The requests that are attributed to a process.
abbrev pub attributed : List PidWait → ℕ
attributed [] = 0
attributed (p ∷ ps) = p.count + attributed ps

-- What an attribution does to the list.
abbrev Added : List PidWait → Option (List PidWait) → Type 0
Added ps none = Unit
Added ps (some qs) = (length qs ≡ length ps) × (attributed qs ≡ attributed ps + 1)

Added-cons :
    (p : PidWait) (ps : List PidWait) (o : Option (List PidWait))
    → Added ps o
    → Added (p ∷ ps) (mathlib.Core.Option.map (◌∷◌ p) o)
Added-cons p ps none a = tt
Added-cons p ps (some qs) a = omega arith

add_pid-Added :
    (pid : ℕ) (dur : ℤ) (ps : List PidWait)
    → attributed ps + 1 < 4294967296
    → Added ps (add_pid pid dur ps)
unfolding add_pid
add_pid-Added pid dur [] h = tt
add_pid-Added pid dur (p ∷ ps) h = elim (Bool-cases (p.pid == pid)) [
  | inl same ↦ rw same (omega arith)
  | inr other ↦
      rw other (Added-cons p ps (add_pid pid dur ps) (add_pid-Added pid dur ps (omega arith)))
]

abbrev pub add_all : DiskFileWait → List (ℕ × ℤ) → DiskFileWait
add_all w [] = w
add_all w ((pid, dur) ∷ waits) = add_all (add w pid dur) waits

-- Every request counts for the file; those of the first eight processes for theirs.
abbrev pub IsTallied : DiskFileWait → ℕ → Type 0
IsTallied w n =
    (w.wait.count ≡ n)
    × (length w.by_pid ≤ 8)
    × (attributed w.by_pid ≤ n)
    × ((attributed w.by_pid ≡ n) ⊎ (length w.by_pid ≡ 8))

attributed-append :
    (ps : List PidWait) (q : PidWait) → attributed (ps ++ q ∷ []) ≡ attributed ps + q.count
attributed-append [] q = omega arith
attributed-append (p ∷ ps) q = omega (arith, attributed-append ps q)

abbrev one : ℕ → ℤ → PidWait
one pid dur = record { pid = pid; count = 1; total = dur }

add-IsTallied :
    (w : DiskFileWait) (n pid : ℕ) (dur : ℤ)
    → n + 1 < 4294967296
    → IsTallied w n
    → IsTallied (add w pid dur) (n + 1)
unfolding add add_dur
add-IsTallied w n pid dur small h =
    let added = add_pid-Added pid dur w.by_pid (omega arith) in
    elim (Option-cases (add_pid pid dur w.by_pid)) [
      | inl other ↦ ground (
        arith,
        other,
        length-append w.by_pid (one pid dur ∷ []),
        attributed-append w.by_pid (one pid dur),
      )
      | inr (qs, same) ↦ rw same (ground (arith, subst (Added w.by_pid) same added))
    ]

-- From a file that nothing waited for, over fewer than 2^32 requests: the file counts all of them,
-- at most eight processes are listed, and the requests they are listed with are all of them unless
-- the list is full.
pub add_all-IsTallied :
    (disk : ℕ) (waits : List (ℕ × ℤ))
    → length waits < 4294967296
    → IsTallied (add_all (record { wait = no_wait disk; by_pid = [] }) waits) (length waits)
add_all-IsTallied disk waits h = omega (
  arith,
  tallied (record { wait = no_wait disk; by_pid = [] }) 0 waits (omega arith) (omega arith),
)
  where
    tallied :
        (w : DiskFileWait) (n : ℕ) (waits : List (ℕ × ℤ))
        → n + length waits < 4294967296
        → IsTallied w n
        → IsTallied (add_all w waits) (n + length waits)
    tallied w n [] small t = omega (arith, t)
    tallied w n ((pid, dur) ∷ waits) small t = omega (
      arith,
      tallied (add w pid dur) (n + 1) waits (omega arith)
          (add-IsTallied w n pid dur (omega arith) t),
    )
