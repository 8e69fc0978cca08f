-- ===== src/Tests/Quiet.antt =====
-- A run of a `Quieter`, and what the theorems say of it.
use wtfis_stalling.Base.{◌+◌, ◌≡◌, refl, List, [], ◌∷◌, arith}
use wtfis_stalling.Base.Int.{pos}
use wtfis_stalling.Base.Assoc.{string_eq, sum_values}
use wtfis_stalling.Quiet.Model.{flush}
use wtfis_stalling.Quiet.Accounting.{
  Action, offers, takes, act_all, sum_counts, held_count, accounted, offered, act_all-accounted,
}
use wtfis_stalling.Quiet.Flush.{start, flush-accounted}

abbrev busy : List Action
busy =
    offers "cpu" (pos 30) "a" (pos 100)
    ∷ offers "cpu" (pos 31) "b" (pos 110)
    ∷ offers "cpu" (pos 29) "c" (pos 120)
    ∷ offers "cpu" (pos 30) "d" (pos 130)
    ∷ takes (pos 300) (pos 100)
    ∷ offers "cpu" (pos 30) "e" (pos 310)
    ∷ []

start-accounted : accounted start ≡ 0
unfolding sum_values
start-accounted = refl

act_all-accounted_example : accounted (act_all start busy) ≡ accounted start + offered busy
act_all-accounted_example = act_all-accounted start busy (omega (arith, start-accounted))

flush-accounted_example :
    let l = act_all start busy in
    (l.lines + sum_counts l.rollups + sum_counts (flush l.quieter).1 ≡ offered busy)
    × (sum_values held_count (flush l.quieter).0 ≡ 0)
flush-accounted_example = flush-accounted busy (omega arith) (omega arith)
