-- ===== src/Switches/Reasons.antt =====
-- src/switches.rs and src/diskstuck.rs: what a thread's wait reason says of its wait. Reasons are
-- `i8`, kept as the numbers they are read as.
use wtfis_stalling.Base.{ℕ, Bool, false, not, ◌&&◌, ◌||◌, ◌==◌, leb}
use wtfis_stalling.Base.Int.{ℤ, pos, negsuc}

-- `matches!(reason, …)` on numbers that are not negative.
abbrev matches : (ℕ → Bool) → ℤ → Bool
matches p (pos n) = p n
matches p (negsuc n) = false

unfoldable pub lock_wait : ℤ → Bool
lock_wait reason = matches (λ n. n == 21 || leb 26 n && leb n 29 || n == 34 || n == 35) reason

unfoldable pub voluntary_wait : ℤ → Bool
voluntary_wait reason =
    matches (λ n. n == 4 || n == 11 || n == 5 || n == 12 || n == 15 || n == 22) reason

unfoldable pub held_up_wait : ℤ → Bool
unfolding voluntary_wait
held_up_wait reason = not (voluntary_wait reason) && not (matches (λ n. n == 6 || n == 13) reason)

unfoldable pub disk_wait : ℤ → Bool
disk_wait reason = matches (λ n. n == 0 || n == 7 || n == 2 || n == 9 || n == 19) reason
